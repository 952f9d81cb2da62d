-- ===== src/Agent/Exchange/Sealed.antt =====
-- The end of a flow that waited for the user, and the secrets in memory.
use oidc_agent.Prelude.{
  ℕ, ◌≡◌, refl, inl, inr, Bool, not, ◌&&◌, Option, none, some, All-find_first, Bool-cases,
  Option-cases, negsuc,
}
use oidc_agent.Text.{Str, str_valid}
use oidc_agent.Crypt.Memory.{Base64}
use oidc_agent.Account.{account_refresh_token_is_valid}
use oidc_agent.Agent.{
  Agent, World, OidcError, success, earg_null_func, enobaseuri, enostate, enocode,
  CodeExchangeEntry, fail,
}
use oidc_agent.Agent.Sealed.{Inv, Inv-fail, Inv-send, Inv-write_oidc_errno, Inv-reencrypt}
use oidc_agent.Agent.Exchange.{
  get_access_token_using_auth_code_flow, only_at_of, keep_for_state, exchanged, exchange_result,
  exchange_configured, exchange_at, exchange_entry, exchange_state, exchange_parsed,
  oidcd_handle_code_exchange, note_uri_error,
}
use oidc_agent.Agent.Add.{note_null}
use oidc_agent.Uri.{UriError, no_base_uri, no_state, no_code, null_uri, code_state_from_uri}
use oidc_agent.Agent.Exchange.Aside.{
  Aside, IsAside, AllAside, Inv-same, Aside-update, Aside-Working, send-Aside, send_config-Aside,
  fail-Aside, note_null-Inv, free_code-Inv, checked-Aside, noted-Inv, note_null-AllAside,
}

module _ (b : Base64) (key : ℕ) where
  keep_for_state-Inv :
      (g : Agent) (p : ℕ) (cee : CodeExchangeEntry) (from_gen : Bool)
      → Aside b key p g
      → Inv b key (keep_for_state b key g p cee from_gen)
  unfolding keep_for_state
  keep_for_state-Inv g p cee from_gen k = Inv-same b key _ _ refl refl (
      noted-Inv b key _ p cee.state (
        Inv-reencrypt b key _ (Aside-Working b key _ (checked-Aside b key g cee.state from_gen k))))

  exchanged-Inv :
      (g : Agent) (p : ℕ) (cee : CodeExchangeEntry) (from_gen only_at : Bool)
      → Aside b key p g
      → Inv b key (exchanged b key g p cee from_gen only_at)
  unfolding exchanged
  exchanged-Inv g p cee from_gen only_at k =
      elim (Bool-cases (account_refresh_token_is_valid (g.accounts.heap p) && not only_at)) [
        | inl e ↦
            simp (e, exchanged)
              (keep_for_state-Inv _ p cee from_gen (send_config-Aside b key g p from_gen k))
        | inr e ↦ elim (Bool-cases (only_at && str_valid (g.accounts.heap p).access_token)) [
          | inl f ↦
              simp (e, f, exchanged) (keep_for_state-Inv _ p cee from_gen (send-Aside b key g _ k))
          | inr f ↦ simp (e, f, exchanged) (free_code-Inv b key _ cee (send-Aside b key g _ k).inv)
        ]
      ]

  exchange_result-Inv :
      (r : Agent × OidcError) (p : ℕ) (cee : CodeExchangeEntry) (from_gen only_at : Bool)
      → Aside b key p r.0
      → Inv b key (exchange_result b key r p cee from_gen only_at)
  unfolding exchange_result
  exchange_result-Inv (g, success) p cee from_gen only_at k =
      exchanged-Inv g p cee from_gen only_at k
  exchange_result-Inv (g, _) p cee from_gen only_at k = Inv-write_oidc_errno b key g k.inv

  code_flow-Aside :
      (w : World) (g : Agent) (p : ℕ) (code uri : Str) (verifier : Option Str)
      → Aside b key p g
      → Aside b key p (get_access_token_using_auth_code_flow w g p code uri verifier (negsuc 0)).0
  unfolding get_access_token_using_auth_code_flow
  code_flow-Aside w g p code uri verifier k = fail-Aside b key _ _ (Aside-update b key g _ k)

  exchange_configured-Inv :
      (w : World) (g : Agent) (p : ℕ) (e : OidcError) (cee : CodeExchangeEntry) (uri code : Str)
      (from_gen only_at : Bool)
      → Aside b key p g
      → Inv b key (exchange_configured b key w g p e cee uri code from_gen only_at)
  unfolding exchange_configured
  exchange_configured-Inv w g p success cee uri code from_gen only_at k =
      exchange_result-Inv _ p cee from_gen only_at
        (code_flow-Aside w g p code uri cee.code_verifier k)
  exchange_configured-Inv w g p _ cee uri code from_gen only_at k =
      free_code-Inv b key _ cee (Inv-write_oidc_errno b key g k.inv)

  exchange_at-Inv :
      (w : World) (g : Agent) (cee : CodeExchangeEntry) (at : Option ℕ) (uri code : Str)
      (from_gen only_at : Bool)
      → IsAside b key g at
      → Inv b key g
      → Inv b key (exchange_at b key w g cee at uri code from_gen only_at)
  unfolding exchange_at
  exchange_at-Inv w g cee none uri code from_gen only_at h k =
      free_code-Inv b key _ cee (Inv-write_oidc_errno b key _ (Inv-fail b key g _ k))
  exchange_at-Inv w g cee (some p) uri code from_gen only_at h k =
      exchange_configured-Inv w _ p _ cee uri code from_gen only_at (
        fail-Aside b key _ _
          (Aside-update b key g _ (record { inv = k; absent = h.0; allocated = h.1 })))

  exchange_entry-Inv :
      (w : World) (g : Agent) (found : Option CodeExchangeEntry) (uri code : Str)
      (from_gen only_at : Bool)
      → ((cee : CodeExchangeEntry) → found ≡ some cee → IsAside b key g cee.account)
      → Inv b key g
      → Inv b key (exchange_entry b key w g found uri code from_gen only_at)
  unfolding exchange_entry
  exchange_entry-Inv w g none uri code from_gen only_at f k =
      Inv-write_oidc_errno b key _ (Inv-fail b key g _ k)
  exchange_entry-Inv w g (some cee) uri code from_gen only_at f k =
      exchange_at-Inv w g cee cee.account uri code from_gen only_at (f cee refl) k

  exchange_state-Inv :
      (w : World) (g : Agent) (uri state code : Str) (from_gen : Bool)
      → AllAside b key g
      → Inv b key g
      → Inv b key (exchange_state b key w g uri state code from_gen)
  unfolding exchange_state
  exchange_state-Inv w g uri state code from_gen h k = elim (Option-cases (only_at_of state)) [
    | inl e ↦ simp (e, exchange_state) (Inv-send b key g _ k)
    | inr (only_at, e) ↦
        simp (e, exchange_state)
          (exchange_entry-Inv w g _ uri code from_gen only_at
            (λ cee f. All-find_first _ _ g.codes cee h.codes f) k)
  ]

  exchange_parsed-Inv :
      (w : World) (g : Agent) (uri state code : Option Str) (from_gen : Bool)
      → AllAside b key g
      → Inv b key g
      → Inv b key (exchange_parsed b key w g uri state code from_gen)
  unfolding exchange_parsed
  exchange_parsed-Inv w g (some uri) (some state) (some code) from_gen h k =
      exchange_state-Inv w g uri state code from_gen h k
  exchange_parsed-Inv w g none state code from_gen h k = Inv-write_oidc_errno b key g k
  exchange_parsed-Inv w g (some uri) none code from_gen h k = Inv-write_oidc_errno b key g k
  exchange_parsed-Inv w g (some uri) (some state) none from_gen h k = Inv-write_oidc_errno b key g k

  -- An error of the uri sets the error code and changes nothing else.
  note_uri_error-Inv :
      (g : Agent) (e : Option UriError)
      → AllAside b key g
      → Inv b key g
      → AllAside b key (note_uri_error g e) × Inv b key (note_uri_error g e)
  unfolding note_uri_error fail
  note_uri_error-Inv g none h k = (h, k)
  note_uri_error-Inv g (some no_base_uri) h k =
      (record { codes = h.codes; devices = h.devices }, Inv-fail b key g enobaseuri k)
  note_uri_error-Inv g (some no_state) h k =
      (record { codes = h.codes; devices = h.devices }, Inv-fail b key g enostate k)
  note_uri_error-Inv g (some no_code) h k =
      (record { codes = h.codes; devices = h.devices }, Inv-fail b key g enocode k)
  note_uri_error-Inv g (some null_uri) h k =
      (record { codes = h.codes; devices = h.devices }, Inv-fail b key g earg_null_func k)

  -- If every loaded account is allocated and has its secrets encrypted, and the accounts that wait for
  -- the user are allocated and not loaded, then every loaded account is allocated and encrypted after
  -- the exchange of an authorization code, whatever comes of it.
  pub oidcd_handle_code_exchange-Inv :
      (w : World) (g : Agent) (redirected_uri from_string : Option Str)
      → AllAside b key g
      → Inv b key g
      → Inv b key (oidcd_handle_code_exchange b key w g redirected_uri from_string)
  unfolding oidcd_handle_code_exchange
  oidcd_handle_code_exchange-Inv w g none from_string h k =
      Inv-write_oidc_errno b key _ (Inv-fail b key g _ k)
  oidcd_handle_code_exchange-Inv w g (some uri) from_string h k =
      let (cs, e) = code_state_from_uri (some uri) in
      let (aside, inv) =
        note_uri_error-Inv (note_null g from_string) e (note_null-AllAside b key g from_string h)
          (note_null-Inv b key g from_string k) in
      exchange_parsed-Inv w _ cs.uri cs.state cs.code _ aside inv
