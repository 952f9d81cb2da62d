-- ===== src/Agent/Load/Sealed.antt =====
-- Getting an account leaves every loaded account but that one encrypted.
use oidc_agent.Prelude.{
  ℕ, ◌≡◌, inl, inr, Bool, true, false, Option, none, some, if◌then◌else◌, ℤ, negsuc, Bool-cases,
  Option-cases, List, [], ◌∷◌, find_first, ◌<◌, subst, ap,
}
use oidc_agent.Text.{Str, str_valid}
use oidc_agent.Crypt.Memory.{Base64}
use oidc_agent.Account.{Account, account_refresh_token_is_valid}
use oidc_agent.Accounts.{
  store, decrypt_account, db_find_account_by_shortname, db_get_account_decrypted_by_shortname,
  db_decrypt_found_account,
}
use oidc_agent.Accounts.Sealed.{Below, AllSealed-SealedBut, store-SealedBut}
use oidc_agent.Agent.{
  Agent, World, Arguments, OidcError, success, euserpwcncl, with_accounts, fail, send, update,
  response_error,
}
use oidc_agent.Agent.Load.{
  try_refresh_flow, get_access_token_using_refresh_flow, stored_token_serves, reencrypt,
  add_checked, add_token_checked, add_configured, add_account, autoload_config, oidcd_autoload,
  get_decrypted, after_autoload, get_loaded_unencrypted_account, account_not_loaded,
}
use oidc_agent.Agent.Sealed.{
  Inv, Working, Pending, Pending-Working, Pending-Inv, Pending-alloc, Pending-update, Pending-fail,
  Inv-fail, Inv-send, Inv-write_oidc_errno, Inv-write_error_with_help, Inv-reencrypt,
}

-- A flow changes the agent by a write to the account and by an error code only.
module _ (P : Agent → Type 0) (w : World) (p : ℕ)
    (on_update : (g : Agent) (a : Account) → P g → P (update g p a))
    (on_fail : (g : Agent) (e : OidcError) → P g → P (fail g e)) where
  pub try_refresh_flow-keeps :
      (id : Bool) (g : Agent) (scope audience : Option Str)
      → P g
      → P (try_refresh_flow w id g p scope audience).0
  unfolding try_refresh_flow
  try_refresh_flow-keeps id g scope audience h =
      elim (Bool-cases (account_refresh_token_is_valid (g.accounts.heap p))) [
        | inl e ↦ rw (e, try_refresh_flow) (on_fail _ _ (on_update g _ h))
        | inr e ↦ rw (e, try_refresh_flow) (on_fail g _ h)
      ]

  pub get_access_token-keeps :
      (g : Agent) (min_valid : ℤ) (scope audience : Option Str)
      → P g
      → P (get_access_token_using_refresh_flow w g p min_valid scope audience).0
  unfolding get_access_token_using_refresh_flow
  get_access_token-keeps g min_valid scope audience h =
      elim (Bool-cases (stored_token_serves w (g.accounts.heap p) min_valid scope audience)) [
        | inl e ↦ rw (e, get_access_token_using_refresh_flow) h
        | inr e ↦
            rw (e, get_access_token_using_refresh_flow)
              (try_refresh_flow-keeps false g scope audience h)
      ]

module _ (b : Base64) (key : ℕ) (w : World) where
  add_checked-Inv : (g : Agent) (p : ℕ) → Pending b key p g → Inv b key (add_checked b key w g p).0
  unfolding add_checked
  add_checked-Inv g p h =
      Inv-send b key (reencrypt b key g p) _ (Inv-reencrypt b key g (Pending-Working b key g h))

  add_token_checked-Inv :
      (r : Agent × Option Str) (p : ℕ)
      → Pending b key p r.0
      → Inv b key (add_token_checked b key w r p).0
  unfolding add_token_checked
  add_token_checked-Inv (g, some token) p h = add_checked-Inv g p h
  add_token_checked-Inv (g, none) p h =
      Inv-reencrypt b key _ (Pending-Working b key _ (Pending-update b key g _ h))

  add_configured-Inv :
      (g : Agent) (p : ℕ) (plain : Bool) (e : OidcError)
      → Pending b key p g
      → Inv b key (add_configured b key w g p plain e).0
  unfolding add_configured
  add_configured-Inv g p true success h =
      elim (Bool-cases (str_valid (g.accounts.heap p).token_endpoint)) [
        | inl v ↦ rw (v, add_configured) (add_checked-Inv g p h)
        | inr v ↦ rw (v, add_configured) (Pending-Inv b key g h)
      ]
  add_configured-Inv g p false success h =
      elim (Bool-cases (str_valid (g.accounts.heap p).token_endpoint)) [
        | inl v ↦
            rw (v, add_configured)
              (add_token_checked-Inv _ p (
                get_access_token-keeps (Pending b key p) w p (Pending-update b key)
                  (Pending-fail b key) g (negsuc 0) none none h))
        | inr v ↦ rw (v, add_configured) (Pending-Inv b key g h)
      ]
  add_configured-Inv g p plain _ h = Pending-Inv b key g h

  -- If a new account is allocated and not loaded, and the loaded ones have their secrets encrypted,
  -- then after adding it, whatever comes of that, every loaded account is allocated and encrypted.
  pub add_account-Inv :
      (g : Agent) (p : ℕ) (plain : Bool)
      → Pending b key p g
      → Inv b key (add_account b key w g p plain).0
  unfolding add_account
  add_account-Inv g p plain h =
      add_configured-Inv _ p plain _ (Pending-fail b key _ _ (Pending-update b key g _ h))

  autoload_config-Inv :
      (g : Agent) (r : OidcError × Option Account)
      → Inv b key g
      → Inv b key (autoload_config b key w g r).0
  unfolding autoload_config
  autoload_config-Inv g (e, none) h = Inv-fail b key g e h
  autoload_config-Inv g (e, some a) h = add_account-Inv _ g.fresh false (Pending-alloc b key g _ h)

  pub autoload-Inv :
      (g : Agent) (name issuer hint : Option Str)
      → Inv b key g
      → Inv b key (oidcd_autoload b key w g name issuer hint).0
  unfolding oidcd_autoload
  autoload-Inv g name issuer hint h = autoload_config-Inv g _ h

  -- Without an account the agent is between requests; with one it is working on it.
  abbrev pub Got : Agent × Option ℕ → Type 0
  Got (g, none) = Inv b key g
  Got (g, some p) = Working b key p g

  -- A name leads to a pointer of the list.
  pub found-lt :
      (t : ℕ → Bool) (fresh : ℕ) (l : List ℕ) (p : ℕ)
      → Below fresh l
      → find_first t l ≡ some p
      → p < fresh
  found-lt t fresh [] p h e = cc
  found-lt t fresh (q ∷ l) p h e = elim (Bool-cases (t q)) [
    | inl k ↦
        let same : some q ≡ some p = rw k at e in
        let here : q ≡ p = cc in subst (λ r. r < fresh) here h.0
    | inr k ↦ found-lt t fresh l p h.1 (rw k at e)
  ]

  name-lt :
      (g : Agent) (name : Option Str) (p : ℕ)
      → Inv b key g
      → db_find_account_by_shortname g.accounts name ≡ some p
      → p < g.fresh
  unfolding db_find_account_by_shortname
  name-lt g none p h e = cc
  name-lt g (some n) p h e = found-lt _ g.fresh g.accounts.loaded p h.bounded e

  pub get_decrypted-Got :
      (g : Agent) (name : Option Str) → Inv b key g → Got (get_decrypted b key w g name)
  unfolding get_decrypted db_get_account_decrypted_by_shortname with_accounts
  get_decrypted-Got g name h = elim (Option-cases (db_find_account_by_shortname g.accounts name)) [
    | inl e ↦ rw (e, db_decrypt_found_account) h
    | inr (p, e) ↦
        rw (e, db_decrypt_found_account)
          (record {
            but =
                store-SealedBut b key g.accounts p _
                  (AllSealed-SealedBut b key g.accounts p h.sealed);
            bounded = h.bounded;
            allocated = name-lt g name p h e;
          })
  ]

  after_autoload-Got :
      (r : Agent × OidcError) (name : Option Str)
      → Inv b key r.0
      → Got (after_autoload b key w r name)
  unfolding after_autoload
  after_autoload-Got (g, success) name h = elim (Option-cases (get_decrypted b key w g name).1) [
    | inl e ↦
        let got =
          subst (λ o. Got ((get_decrypted b key w g name).0, o)) e (get_decrypted-Got g name h) in
        rw (e, after_autoload) (Inv-write_oidc_errno b key _ got)
    | inr (p, e) ↦
        let got =
          subst (λ o. Got ((get_decrypted b key w g name).0, o)) e (get_decrypted-Got g name h) in
        rw (e, after_autoload) got
  ]
  after_autoload-Got (g, euserpwcncl) name h = Inv-send b key g _ h
  after_autoload-Got (g, _) name h = Inv-write_error_with_help b key w g h

  -- If every loaded account is allocated and encrypted, the search for an account keeps it so when it
  -- finds none; when it finds one, that one is allocated and every other loaded one is still encrypted.
  pub get_loaded_unencrypted_account-Got :
      (args : Arguments) (g : Agent) (name hint : Option Str)
      → Inv b key g
      → Got (get_loaded_unencrypted_account b key w args g name hint)
  unfolding get_loaded_unencrypted_account
  get_loaded_unencrypted_account-Got args g name hint h =
      elim (Option-cases (get_decrypted b key w g name).1) [
        | inl e ↦
            let got =
              subst (λ o. Got ((get_decrypted b key w g name).0, o)) e
                (get_decrypted-Got g name h) in
            elim (Bool-cases args.no_autoload) [
              | inl n ↦ rw (e, get_loaded_unencrypted_account, n) (Inv-send b key _ _ got)
              | inr n ↦
                  rw (e, get_loaded_unencrypted_account, n)
                    (after_autoload-Got _ name (autoload-Inv _ name none hint got))
            ]
        | inr (p, e) ↦
            let got =
              subst (λ o. Got ((get_decrypted b key w g name).0, o)) e
                (get_decrypted-Got g name h) in
            rw (e, get_loaded_unencrypted_account) got
      ]

  get_decrypted_found :
      (g : Agent) (name : Option Str) (p : ℕ)
      → db_find_account_by_shortname g.accounts name ≡ some p
      → get_decrypted b key w g name
        ≡ (with_accounts g (store g.accounts p (decrypt_account b key (g.accounts.heap p))), some p)
  unfolding get_decrypted db_get_account_decrypted_by_shortname
  get_decrypted_found g name p e = rw e

  -- An account that is loaded is decrypted in place, and nothing else happens.
  pub get_loaded_unencrypted_account-loaded :
      (args : Arguments) (g : Agent) (name hint : Option Str) (p : ℕ)
      → db_find_account_by_shortname g.accounts name ≡ some p
      → get_loaded_unencrypted_account b key w args g name hint
        ≡ (with_accounts g (store g.accounts p (decrypt_account b key (g.accounts.heap p))), some p)
  unfolding get_loaded_unencrypted_account
  get_loaded_unencrypted_account-loaded args g name hint p e =
      ap {B = Agent × Option ℕ}
        (λ (r : Agent × Option ℕ). elim (r.1) [
          | some q ↦ (r.0, some q)
          | none ↦
              if args.no_autoload
              then (send r.0 (response_error account_not_loaded), none)
              else after_autoload b key w (oidcd_autoload b key w r.0 name none hint) name
        ])
        (get_decrypted_found g name p e)
