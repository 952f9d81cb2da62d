-- ===== src/Agent/Exchange/States.antt =====
-- The look up of a state, and the secrets in memory.
use oidc_agent.Prelude.{
  ℕ, ◌<◌, ◌≡◌, ◌≢◌, refl, sym, ap, subst, ◌⊎◌, inl, inr, Bool, true, false, Option, none, some,
  List, [], ◌∷◌, if◌then◌else◌, All, All-remove_first, Bool-cases, Option-cases,
}
use oidc_agent.Text.{Str}
use oidc_agent.Crypt.Memory.{Base64}
use oidc_agent.Account.{Account, blank, account_match_by_state}
use oidc_agent.Accounts.{
  Accounts, account_db_find_value, account_db_remove_if_found, db_get_account_decrypted,
  db_decrypt_found_account,
}
use oidc_agent.Accounts.Distinct.{remove_first-absent}
use oidc_agent.Accounts.Names.{name, HasDistinctNames, remove-name}
use oidc_agent.Accounts.Lookup.{store-HasDistinctNames}
use oidc_agent.Accounts.Sealed.{IsSealed, AllSealed-SealedBut, store-SealedBut}
use oidc_agent.Agent.{Agent, World, with_accounts, update}
use oidc_agent.Agent.Load.{reencrypt}
use oidc_agent.Agent.Load.Sealed.{found-lt}
use oidc_agent.Agent.Sealed.{Inv, Working, Working-update, Working-send, Inv-send, Inv-reencrypt}
use oidc_agent.Agent.Exchange.{
  term_http_server, send_config, send_access, only_at_of, find_by_state, take_out, state_found,
  state_looked_up, oidcd_handle_state_look_up,
}

module _ (b : Base64) (key : ℕ) where
  -- No name of the list is that of the exception.
  not_the_exception :
      (s : Accounts) (p : ℕ) (l : List ℕ)
      → All (λ q. name s q ≢ name s p) l
      → All (λ q. (q ≡ p) ⊎ IsSealed b key (s.heap q)) l
      → All (λ q. IsSealed b key (s.heap q)) l
  not_the_exception s p [] h k = tt
  not_the_exception s p (q ∷ l) h k = (
    elim k.0 [ inl e ↦ absurd (h.0 (ap (name s) e)) | inr j ↦ j ],
    not_the_exception s p l h.1 k.1,
  )

  take_out-Inv :
      (g : Agent) (p : ℕ)
      → HasDistinctNames g.accounts
      → Working b key p g
      → Inv b key (take_out b key g p)
  unfolding take_out account_db_remove_if_found
  take_out-Inv g p d h = record {
    sealed =
        not_the_exception g.accounts p _
          (subst (λ l. All (λ q. name g.accounts q ≢ name g.accounts p) l)
            (sym (remove-name g.accounts (g.accounts.heap p) d.by_name))
            (remove_first-absent (name g.accounts) (name g.accounts p) g.accounts.loaded
              d.distinct))
          (All-remove_first (λ q. (q ≡ p) ⊎ IsSealed b key (g.accounts.heap q)) _ g.accounts.loaded
            h.but);
    bounded = All-remove_first (λ q. q < g.fresh) _ g.accounts.loaded h.bounded;
  }

  send_config-Working :
      {p : ℕ} (g : Agent) (q : ℕ) (to : Bool)
      → Working b key p g
      → Working b key p (send_config g q to)
  unfolding send_config
  send_config-Working g q true k = Working-send b key _ _ (Working-send b key g _ k)
  send_config-Working g q false k = Working-send b key g _ k

  state_found-Inv :
      (g : Agent) (p : ℕ) (state : Str) (only_at : Bool)
      → HasDistinctNames g.accounts
      → Working b key p g
      → Inv b key (state_found b key g p state only_at)
  unfolding state_found update
  state_found-Inv g p state only_at d h = elim (Bool-cases (g.accounts.heap p).used_state_checked) [
    | inl e ↦ simp (e, state_found) (Inv-reencrypt b key _ (Working-send b key g _ h))
    | inr e ↦ simp (e, state_found) (answered only_at)
  ]
    where
      checked : Account
      checked = record (g.accounts.heap p) { used_state_checked = true }

      answered :
          (at : Bool)
          → Inv b key (
              term_http_server
                (if at
                  then take_out b key (send_access (update g p checked) p) p
                  else reencrypt b key (send_config (update g p checked) p true) p)
                (some state))
      answered true = Inv-send b key _ _ (
          take_out-Inv _ p (store-HasDistinctNames g.accounts p checked refl d)
            (Working-send b key _ _ (Working-update b key g checked h)))
      answered false =
          Inv-send b key _ _ (
            Inv-reencrypt b key _ (send_config-Working _ p true (Working-update b key g checked h)))

  looked_up-Inv :
      (g : Agent) (found : Option ℕ) (state : Str) (only_at : Bool)
      → HasDistinctNames g.accounts
      → ((p : ℕ) → found ≡ some p → p < g.fresh)
      → Inv b key g
      → let r = db_decrypt_found_account b key g.accounts found in
        Inv b key (state_looked_up b key (with_accounts g r.0) r.1 state only_at)
  unfolding state_looked_up with_accounts db_decrypt_found_account
  looked_up-Inv g none state only_at d f h = Inv-send b key g _ h
  looked_up-Inv g (some p) state only_at d f h =
      state_found-Inv _ p state only_at (store-HasDistinctNames g.accounts p _ refl d) (record {
        but =
            store-SealedBut b key g.accounts p _ (AllSealed-SealedBut b key g.accounts p h.sealed);
        bounded = h.bounded;
        allocated = f p refl;
      })

  -- The match function does not matter to the decryption.
  find_by_state_lem :
      (s : Accounts) (state : Str)
      → find_by_state b key s state
        ≡ db_decrypt_found_account b key s (
            account_db_find_value
              (record s { match = account_match_by_state })
              (record blank { used_state = some state }))
  unfolding find_by_state db_get_account_decrypted
  find_by_state_lem s state = decrypted (
      account_db_find_value (record s { match = account_match_by_state })
        (record blank { used_state = some state }))
    where
      decrypted :
          (found : Option ℕ)
          → let r =
              db_decrypt_found_account b key (record s { match = account_match_by_state }) found in
            (record (r.0) { match = s.match }, r.1) ≡ db_decrypt_found_account b key s found
      decrypted none = refl
      decrypted (some p) = refl

  -- If the loaded accounts have distinct names, are allocated and have their secrets encrypted, then
  -- every loaded account is allocated and encrypted after the look up of a state, also when the account
  -- is answered and taken out.
  pub oidcd_handle_state_look_up-Inv :
      (w : World) (g : Agent) (state : Option Str)
      → HasDistinctNames g.accounts
      → Inv b key g
      → Inv b key (oidcd_handle_state_look_up b key g state)
  unfolding oidcd_handle_state_look_up account_db_find_value
  oidcd_handle_state_look_up-Inv w g none d h = Inv-send b key g _ h
  oidcd_handle_state_look_up-Inv w g (some state) d h = elim (Option-cases (only_at_of state)) [
    | inl e ↦ simp (e, oidcd_handle_state_look_up) (Inv-send b key g _ h)
    | inr (only_at, e) ↦
        simp (e, oidcd_handle_state_look_up)
          (subst
            (λ (r : Accounts × Option ℕ).
              Inv b key (state_looked_up b key (with_accounts g r.0) r.1 state only_at))
            (sym (find_by_state_lem g.accounts state))
            (looked_up-Inv g
              (account_db_find_value (record (g.accounts) { match = account_match_by_state })
                (record blank { used_state = some state }))
              state only_at d (λ p f. found-lt b key w _ g.fresh g.accounts.loaded p h.bounded f)
              h))
  ]
