-- ===== src/Agent/Add/Sealed.antt =====
-- The request that adds an account, and the secrets in memory.
use oidc_agent.Prelude.{inl, inr, Bool, Option, none, some, Bool-cases, Option-cases, ℕ, ℤ}
use oidc_agent.Text.{Str}
use oidc_agent.Crypt.Memory.{Base64}
use oidc_agent.Account.{Account}
use oidc_agent.Accounts.{account_db_find_value, db_get_account_decrypted, db_decrypt_found_account}
use oidc_agent.Accounts.Sealed.{AllSealed-SealedBut, store-SealedBut}
use oidc_agent.Agent.{Agent, World, OidcError, success, with_accounts}
use oidc_agent.Agent.Load.Sealed.{Got, found-lt, add_account-Inv}
use oidc_agent.Agent.Sealed.{
  Inv, Working, Working-update, Working-send, Inv-send, Inv-fail, Inv-write_oidc_errno,
  Inv-write_error_with_help, Inv-reencrypt, Pending-alloc,
}
use oidc_agent.Agent.Add.{
  same_time, is_positive, note_null, already_loaded, added, search, after_search, add_unless_loaded,
  add_parsed, oidcd_handle_add,
}

module _ (b : Base64) (key : ℕ) (w : World) where
  already_loaded-Inv :
      (g : Agent) (p : ℕ) (timeout : ℤ) (a : Account)
      → Working b key p g
      → Inv b key (already_loaded b key w g p timeout a)
  unfolding already_loaded
  already_loaded-Inv g p timeout a h =
      elim (Bool-cases (same_time (g.accounts.heap p).death a.death)) [
        | inl e ↦ simp (e, already_loaded) (Inv-reencrypt b key _ (Working-send b key g _ h))
        | inr e ↦
            simp (e, already_loaded)
              (Inv-reencrypt b key _ (Working-send b key _ _ (Working-update b key g _ h)))
      ]

  added-Inv :
      (r : Agent × OidcError) (timeout : ℤ) → Inv b key r.0 → Inv b key (added b key w r timeout)
  unfolding added
  added-Inv (g, success) timeout h = elim (Bool-cases (is_positive timeout)) [
    | inl e ↦ rw e (Inv-send b key g _ h)
    | inr e ↦ rw e (Inv-send b key g _ h)
  ]
  added-Inv (g, _) timeout h = Inv-write_error_with_help b key w g h

  search-Got : (g : Agent) (a : Account) → Inv b key g → Got b key w (search b key w g a)
  unfolding search db_get_account_decrypted with_accounts
  search-Got g a h = elim (Option-cases (account_db_find_value g.accounts a)) [
    | inl e ↦ rw (e, db_decrypt_found_account) h
    | inr (p, e) ↦
        rw (e, db_decrypt_found_account)
          (record {
            but =
                store-SealedBut b key g.accounts p _
                  (AllSealed-SealedBut b key g.accounts p h.sealed);
            bounded = h.bounded;
            allocated =
                found-lt b key w (λ q. g.accounts.match a (g.accounts.heap q)) g.fresh
                  g.accounts.loaded p h.bounded (unfold account_db_find_value in e);
          })
  ]

  after_search-Inv :
      (r : Agent × Option ℕ) (a : Account) (timeout : ℤ) (plain : Bool)
      → Got b key w r
      → Inv b key (after_search b key w r a timeout plain)
  unfolding after_search
  after_search-Inv (g, some p) a timeout plain h = already_loaded-Inv g p timeout a h
  after_search-Inv (g, none) a timeout plain h =
      added-Inv _ timeout (add_account-Inv b key w _ g.fresh plain (Pending-alloc b key g a h))

  add_unless_loaded-Inv :
      (g : Agent) (a : Account) (timeout : ℤ) (plain : Bool)
      → Inv b key g
      → Inv b key (add_unless_loaded b key w g a timeout plain)
  unfolding add_unless_loaded
  add_unless_loaded-Inv g a timeout plain h =
      after_search-Inv (search b key w g a) a timeout plain (search-Got g a h)

  note_null-Inv : (g : Agent) (s : Option Str) → Inv b key g → Inv b key (note_null g s)
  unfolding note_null
  note_null-Inv g none h = Inv-fail b key g _ h
  note_null-Inv g (some s) h = h

  add_parsed-Inv :
      (g : Agent) (r : OidcError × Option Account) (timeout confirm always plain : Option Str)
      → Inv b key g
      → Inv b key (add_parsed b key w g r timeout confirm always plain)
  unfolding add_parsed
  add_parsed-Inv g (e, none) timeout confirm always plain h =
      Inv-write_oidc_errno b key _ (Inv-fail b key g e h)
  add_parsed-Inv g (e, some a) timeout confirm always plain h =
      add_unless_loaded-Inv _ _ _ _
        (note_null-Inv _ always (note_null-Inv _ confirm (Inv-fail b key g e h)))

  -- If every loaded account is allocated and has its secrets encrypted, then so it is after a request to
  -- add an account, loaded already or not, whatever comes of it.
  pub oidcd_handle_add-Inv :
      (g : Agent) (json timeout confirm always plain : Option Str)
      → Inv b key g
      → Inv b key (oidcd_handle_add b key w g json timeout confirm always plain)
  unfolding oidcd_handle_add
  oidcd_handle_add-Inv g json timeout confirm always plain h =
      add_parsed-Inv g _ timeout confirm always plain h
