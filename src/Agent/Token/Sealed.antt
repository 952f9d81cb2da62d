-- ===== src/Agent/Token/Sealed.antt =====
-- The token requests and the secrets in memory.
use oidc_agent.Prelude.{
  ℕ, ◌≡◌, refl, ap, ◌∙◌, inl, inr, true, false, ◌||◌, Option, none, some, ==_iff, ℤ, Bool-cases,
}
use oidc_agent.Text.{Str}
use oidc_agent.Crypt.Memory.{Base64, IsCoding}
use oidc_agent.Account.{Account}
use oidc_agent.Accounts.{decrypt_account, encrypt_account, db_find_account_by_shortname, store}
use oidc_agent.Agent.{
  Agent, World, Arguments, OidcError, is_success, with_accounts, fail, send, write_oidc_errno,
}
use oidc_agent.Agent.Load.{
  get_loaded_unencrypted_account, get_access_token_using_refresh_flow, get_id_token,
  try_refresh_flow,
}
use oidc_agent.Agent.Load.Sealed.{
  Got, get_loaded_unencrypted_account-loaded, try_refresh_flow-keeps, get_access_token-keeps,
  get_loaded_unencrypted_account-Got,
}
use oidc_agent.Accounts.Lookup.{IsSecret, decrypt_account-encrypt_account}
use oidc_agent.Agent.Sealed.{
  Inv, Working, Working-update, Working-fail, Inv-send, Inv-write_oidc_errno,
  Inv-write_error_with_help, Inv-reencrypt,
}
use oidc_agent.Agent.Token.{
  no_shortname, period, answer_token, token_confirmed, oidcd_handle_token, answer_mytoken,
  oidcd_handle_mytoken, answer_idtoken, idtoken_confirmed, oidcd_handle_id_token,
}

module _ (b : Base64) (key : ℕ) (w : World) (args : Arguments) where
  pub answer_token-Inv :
      (r : Agent × Option Str) (p : ℕ)
      → Working b key p r.0
      → Inv b key (answer_token b key w args r p)
  unfolding answer_token
  answer_token-Inv (g, none) p h = Inv-write_error_with_help b key w _ (Inv-reencrypt b key g h)
  answer_token-Inv (g, some t) p h = Inv-send b key _ _ (Inv-reencrypt b key g h)

  token_confirmed-Inv :
      (g : Agent) (p : ℕ) (name : Option Str) (m : ℤ) (scope hint audience : Option Str)
      → Working b key p g
      → Inv b key (token_confirmed b key w args g p name m scope hint audience)
  unfolding token_confirmed
  token_confirmed-Inv g p name m scope hint audience h =
      let granted =
        answer_token-Inv (get_access_token_using_refresh_flow w g p m scope audience) p (
          get_access_token-keeps (Working b key p) w p (Working-update b key) (Working-fail b key) g
            m scope audience h) in
      let refused = Inv-write_oidc_errno b key _ (
        Inv-reencrypt b key _ (Working-fail b key g (w.get_confirmation false name none hint) h)) in
      elim (Bool-cases (args.confirm || (g.accounts.heap p).confirmation_required)) [
        | inl c ↦ elim (Bool-cases (is_success (w.get_confirmation false name none hint))) [
          | inl s ↦ rw (c, token_confirmed, s) granted
          | inr s ↦ rw (c, token_confirmed, s) refused
        ]
        | inr c ↦ rw (c, token_confirmed) granted
      ]

  -- What follows the search for an account: nothing if there is none, and otherwise some work on it.
  pub request-Inv :
      (r : Agent × Option ℕ) (work : Agent → ℕ → Agent)
      → Got b key w r
      → ((g : Agent) (p : ℕ) → Working b key p g → Inv b key (work g p))
      → Inv b key (elim (r.1) [ none ↦ r.0 | some p ↦ work r.0 p ])
  request-Inv (g, none) work got step = got
  request-Inv (g, some p) work got step = step g p got

  -- If every loaded account is allocated and has its secrets encrypted, then so it is after a token
  -- request, whether the account was loaded or is loaded now, whatever the user, the provider and the
  -- request say.
  pub oidcd_handle_token-Inv :
      (g : Agent) (name min_valid scope hint audience : Option Str)
      → Inv b key g
      → Inv b key (oidcd_handle_token b key w args g name min_valid scope hint audience)
  unfolding oidcd_handle_token
  oidcd_handle_token-Inv g none min_valid scope hint audience h = Inv-send b key g no_shortname h
  oidcd_handle_token-Inv g (some name) min_valid scope hint audience h =
      request-Inv (get_loaded_unencrypted_account b key w args g (some name) hint)
        (λ g1 p.
          token_confirmed b key w args g1 p (some name) (period min_valid) scope hint audience)
        (get_loaded_unencrypted_account-Got b key w args g (some name) hint h)
        (λ g1 p k. token_confirmed-Inv g1 p (some name) (period min_valid) scope hint audience k)

  answer_mytoken-Inv :
      (g : Agent) (p : ℕ) (r : Account × Option Str × OidcError)
      → Working b key p g
      → Inv b key (answer_mytoken b key w args g p r)
  unfolding answer_mytoken
  answer_mytoken-Inv g p (a, none, e) h =
      Inv-write_oidc_errno b key _
        (Inv-reencrypt b key _ (Working-fail b key _ e (Working-update b key g a h)))
  answer_mytoken-Inv g p (a, some t, e) h =
      Inv-send b key _ _
        (Inv-reencrypt b key _ (Working-fail b key _ e (Working-update b key g a h)))

  -- If every loaded account is allocated and has its secrets encrypted, then so it is after a mytoken
  -- request, whatever the provider and the request say.
  pub oidcd_handle_mytoken-Inv :
      (g : Agent) (name profile hint : Option Str)
      → Inv b key g
      → Inv b key (oidcd_handle_mytoken b key w args g name profile hint)
  unfolding oidcd_handle_mytoken
  oidcd_handle_mytoken-Inv g none profile hint h = Inv-send b key g no_shortname h
  oidcd_handle_mytoken-Inv g (some name) profile hint h =
      request-Inv (get_loaded_unencrypted_account b key w args g (some name) hint)
        (λ g1 p.
          answer_mytoken b key w args g1 p (w.get_submytoken (g1.accounts.heap p) profile hint))
        (get_loaded_unencrypted_account-Got b key w args g (some name) hint h)
        (λ g1 p k. answer_mytoken-Inv g1 p _ k)

  answer_idtoken-Inv :
      (r : Agent × Option Str) (p : ℕ)
      → Working b key p r.0
      → Inv b key (answer_idtoken b key w args r p)
  unfolding answer_idtoken
  answer_idtoken-Inv (g, none) p h = Inv-write_oidc_errno b key _ (Inv-reencrypt b key g h)
  answer_idtoken-Inv (g, some t) p h = Inv-send b key _ _ (Inv-reencrypt b key g h)

  pub idtoken_confirmed-Inv :
      (g : Agent) (p : ℕ) (name issuer scope hint : Option Str)
      → is_success (w.get_confirmation true name issuer hint) ≡ true
      → Working b key p g
      → Inv b key (idtoken_confirmed b key w args g p name issuer scope hint)
  unfolding idtoken_confirmed get_id_token
  idtoken_confirmed-Inv g p name issuer scope hint s h =
      let granted = answer_idtoken-Inv (try_refresh_flow w true g p scope none) p (
        try_refresh_flow-keeps (Working b key p) w p (Working-update b key) (Working-fail b key)
          true g scope none h) in
      elim (Bool-cases (args.always_allow_idtoken || (g.accounts.heap p).always_allow_id)) [
        | inl c ↦ rw (c, idtoken_confirmed) granted
        | inr c ↦ rw (c, idtoken_confirmed, s) granted
      ]

  -- If every loaded account is allocated and has its secrets encrypted, and the user agrees when
  -- asked, then so it is after an id token request for a named account.
  pub oidcd_handle_id_token-Inv :
      (g : Agent) (name : Str) (issuer scope hint : Option Str)
      → is_success (w.get_confirmation true (some name) issuer hint) ≡ true
      → Inv b key g
      → Inv b key (oidcd_handle_id_token b key w args g name issuer scope hint)
  unfolding oidcd_handle_id_token
  oidcd_handle_id_token-Inv g name issuer scope hint s h =
      request-Inv (get_loaded_unencrypted_account b key w args g (some name) hint)
        (λ g1 p. idtoken_confirmed b key w args g1 p (some name) issuer scope hint)
        (get_loaded_unencrypted_account-Got b key w args g (some name) hint h)
        (λ g1 p k. idtoken_confirmed-Inv g1 p (some name) issuer scope hint s k)

  idtoken_refused :
      (g : Agent) (p : ℕ) (name issuer scope hint : Option Str)
      → args.always_allow_idtoken ≡ false
      → (g.accounts.heap p).always_allow_id ≡ false
      → is_success (w.get_confirmation true name issuer hint) ≡ false
      → idtoken_confirmed b key w args g p name issuer scope hint
        ≡ write_oidc_errno (fail g (w.get_confirmation true name issuer hint))
  unfolding idtoken_confirmed
  idtoken_refused g p name issuer scope hint a c s = rw (a, c, idtoken_confirmed, s)

  -- The agent while it works on the loaded account at `p`.
  abbrev pub in_clear : Agent → ℕ → Agent
  in_clear g p = with_accounts g (store g.accounts p (decrypt_account b key (g.accounts.heap p)))

  -- If the confirmation is needed and refused, the request ends with the account in the clear: the
  -- state is the one that the search for the account left, and only the error is reported.
  pub oidcd_handle_id_token-refused :
      (g : Agent) (name : Str) (issuer scope hint : Option Str) (p : ℕ)
      → db_find_account_by_shortname g.accounts (some name) ≡ some p
      → args.always_allow_idtoken ≡ false
      → (g.accounts.heap p).always_allow_id ≡ false
      → is_success (w.get_confirmation true (some name) issuer hint) ≡ false
      → oidcd_handle_id_token b key w args g name issuer scope hint
        ≡ write_oidc_errno (fail (in_clear g p) (w.get_confirmation true (some name) issuer hint))
  unfolding oidcd_handle_id_token
  oidcd_handle_id_token-refused g name issuer scope hint p f a c s =
      ap {B = Agent}
        (λ (r : Agent × Option ℕ). elim (r.1) [
          | none ↦ r.0
          | some q ↦ idtoken_confirmed b key w args r.0 q (some name) issuer scope hint
        ])
        (get_loaded_unencrypted_account-loaded b key w args g (some name) hint p f)
      ∙ idtoken_refused (in_clear g p) p (some name) issuer scope hint a still s
    where
      still : ((in_clear g p).accounts.heap p).always_allow_id ≡ false
      still = unfold with_accounts store decrypt_account in rw ((==_iff p p).1 refl) c

  -- An id token request for a loaded account that needs a confirmation and is refused leaves the
  -- account loaded with its secrets in the clear: if the account was encrypted from `a`, whose secrets
  -- are valid, it is `a` afterwards.
  pub oidcd_handle_id_token-leaks :
      (coding : IsCoding b) (g : Agent) (name : Str) (issuer scope hint : Option Str) (p : ℕ)
      (a : Account)
      → db_find_account_by_shortname g.accounts (some name) ≡ some p
      → g.accounts.heap p ≡ encrypt_account b key a
      → IsSecret b key a.refresh_token
      → IsSecret b key a.client_id
      → IsSecret b key a.client_secret
      → args.always_allow_idtoken ≡ false
      → (g.accounts.heap p).always_allow_id ≡ false
      → is_success (w.get_confirmation true (some name) issuer hint) ≡ false
      → let after = oidcd_handle_id_token b key w args g name issuer scope hint in
        (after.accounts.heap p ≡ a) × (after.accounts.loaded ≡ g.accounts.loaded)
  unfolding write_oidc_errno fail with_accounts store send
  oidcd_handle_id_token-leaks coding g name issuer scope hint p a f e hr hi hs m c s =
      rw (oidcd_handle_id_token-refused g name issuer scope hint p f m c s, (==_iff p p).1 refl, e)
        (decrypt_account-encrypt_account b key coding a hr hi hs, refl)
