-- ===== src/Agent/Gen/Returns.antt =====
-- When a request for first tokens has no result.
use oidc_agent.Prelude.{
  ℕ, ◌≡◌, ◌↔◌, refl, ap, subst, sym, ◌∙◌, ◌⊎◌, inl, inr, Bool, true, Option, none, some, [], ◌∷◌,
  ◌==◌, ==_iff, Bool-cases, Option-cases,
}
use oidc_agent.Text.{Str, codes, str_valid}
use oidc_agent.Text.Remove.{remove_scope}
use oidc_agent.Crypt.Memory.{Base64}
use oidc_agent.Account.{Account}
use oidc_agent.Agent.{Agent, World, Arguments, OidcError, success, fail, alloc}
use oidc_agent.Accounts.{store}
use oidc_agent.Agent.Add.{is_set, note_null}
use oidc_agent.Agent.Gen.{
  parse_flow, handle_gen_flows, gen_scope, gen_configured, gen_parsed, oidcd_handle_gen,
}

-- The flows are to be read as a JSON array, and are none.
pub record NoArray (w : World) (flow : Option Str) : Type 0 where
  pub rest : Str
  pub bracket : flow ≡ some (b'[' ∷ rest)
  pub unread : (w.json_array (b'[' ∷ rest)).1 ≡ none

-- The scope without offline_access leaves the bounds of the string.
pub record NoScope (only_at_str : Option Str) (a : Account) : Type 0 where
  pub only_at : is_set only_at_str ≡ true
  pub lost : remove_scope a.auth_scope (codes "offline_access") ≡ none

-- The account of the request is read and its issuer's configuration got, which has a token endpoint.
pub record IsReady (w : World) (account_json : Option Str) (a : Account) : Type 0 where
  pub parsed : Account
  pub read : (w.get_account_from_json account_json).1 ≡ some parsed
  pub configured : w.obtain_issuer_config parsed ≡ (a, success)
  pub endpoint : str_valid a.token_endpoint ≡ true

-- What goes wrong once the account at hand is ready.
abbrev pub Fault : World → Account → Option Str → Option Str → Type 0
Fault w a flow only_at_str = NoScope only_at_str a ⊎ NoArray w flow

flows-NoArray :
    (w : World) (e : OidcError) (flow : Option Str)
    → ((parse_flow w e flow).1 ≡ none) ↔ NoArray w flow
unfolding parse_flow
flows-NoArray w e none = (λ h. cc, λ h. cc (h.bracket))
flows-NoArray w e (some []) = (λ h. cc, λ h. cc (h.bracket))
flows-NoArray w e (some (c ∷ s)) = elim (Bool-cases (c == b'[')) [
  | inl t ↦
      let here : c ≡ b'[' = (==_iff c b'[').0 t in
      simp (t, parse_flow)
        (
          (λ h. record {
            rest = s;
            bracket = ap (λ (x : ℕ). some (x ∷ s)) here;
            unread = ap (λ (x : ℕ). (w.json_array (x ∷ s)).1) (sym here) ∙ h;
          }),
          (λ h.
              let same : c ∷ s ≡ b'[' ∷ h.rest = cc (h.bracket) in
              ap (λ (x : Str). (w.json_array x).1) same ∙ h.unread),
        )
  | inr t ↦
      simp (t, parse_flow)
        ((λ h. cc), (λ h. let same : c ≡ b'[' = cc (h.bracket) in cc ((==_iff c b'[').1 same, t)))
]

module _ (b : Base64) (key : ℕ) (w : World) (args : Arguments) where
  handle_gen_flows-NoArray :
      (g : Agent) (p : ℕ) (flow scope : Option Str) (only_at : Bool)
      (nowebserver noscheme : Option Str)
      → (handle_gen_flows b key w args g p flow scope only_at nowebserver noscheme ≡ none)
        ↔ NoArray w flow
  unfolding handle_gen_flows
  handle_gen_flows-NoArray g p flow scope only_at nowebserver noscheme =
      elim (Option-cases (parse_flow w g.oidc_errno flow).1) [
        | inl e ↦
            simp (e, handle_gen_flows) ((λ h. (flows-NoArray w g.oidc_errno flow).0 e), (λ h. refl))
        | inr (l, e) ↦
            simp (e, handle_gen_flows)
              ((λ h. cc), (λ h. cc ((flows-NoArray w g.oidc_errno flow).1 h, e)))
      ]

  gen_scope-NoScope :
      (a : Account) (only_at_str : Option Str)
      → (gen_scope b key w args a (is_set only_at_str) ≡ none) ↔ NoScope only_at_str a
  unfolding gen_scope
  gen_scope-NoScope a only_at_str = elim (Bool-cases (is_set only_at_str)) [
    | inl t ↦ simp (t, gen_scope) ((λ h. record { only_at = t; lost = h }), (λ h. h.lost))
    | inr t ↦ simp (t, gen_scope) ((λ h. cc), (λ h. cc (h.only_at, t)))
  ]

  gen_configured-Fault :
      (g : Agent) (p : ℕ) (e : OidcError) (flow nowebserver noscheme only_at_str : Option Str)
      → (gen_configured b key w args g p e flow nowebserver noscheme only_at_str ≡ none) ↔ (
          (e ≡ success)
          × (str_valid (g.accounts.heap p).token_endpoint ≡ true)
          × Fault w (g.accounts.heap p) flow only_at_str)
  unfolding gen_configured
  gen_configured-Fault g p success flow nowebserver noscheme only_at_str =
      elim (Bool-cases (str_valid (g.accounts.heap p).token_endpoint)) [
        | inr t ↦ simp (t, gen_configured) ((λ h. cc), (λ h. cc (h.1)))
        | inl t ↦
            elim (Option-cases (gen_scope b key w args (g.accounts.heap p) (is_set only_at_str))) [
              | inl n ↦
                  simp (t, n, gen_configured)
                    ((λ h. (refl, refl, inl ((gen_scope-NoScope _ only_at_str).0 n))), (λ h. refl))
              | inr (scope, n) ↦
                  let flows =
                    handle_gen_flows-NoArray (note_null g only_at_str) p flow scope
                      (is_set only_at_str) nowebserver noscheme in
                  simp (t, n, gen_configured)
                    (
                      (λ h. (refl, refl, inr (flows.0 h))),
                      (λ h. elim (h.2) [
                        | inl lost ↦ cc ((gen_scope-NoScope _ only_at_str).1 lost, n)
                        | inr unread ↦ flows.1 unread
                      ]),
                    )
            ]
      ]
  gen_configured-Fault g p _ flow nowebserver noscheme only_at_str = ((λ h. cc), (λ h. cc (h.0)))

  heap-alloc :
      (g : Agent) (a : Account) (e : OidcError) → (fail (alloc g a) e).accounts.heap g.fresh ≡ a
  unfolding fail alloc store
  heap-alloc g a e = simp ((==_iff g.fresh g.fresh).1 refl) refl

  module _ (g : Agent) (json flow nowebserver noscheme only_at_str : Option Str) where
    abbrev pub Lost : Type 0
    Lost = (a : Account) × IsReady w json a × Fault w a flow only_at_str

    configured_Lost :
        (x : Account)
        → (w.get_account_from_json json).1 ≡ some x
        → (c : Account × OidcError) → w.obtain_issuer_config x ≡ c
        → (gen_configured b key w args
              (fail (alloc g c.0) c.1)
              g.fresh
              c.1
              flow
              nowebserver
              noscheme
              only_at_str
            ≡ none)
          ↔ Lost
    configured_Lost x r c k =
        let h = fail (alloc g c.0) c.1 in
        let here = heap-alloc g c.0 c.1 in
        let (there, back) =
          gen_configured-Fault h g.fresh c.1 flow nowebserver noscheme only_at_str in
        (
          (λ n.
              let (e, t, f) = there n in
              (
                c.0,
                record {
                  parsed = x;
                  read = r;
                  configured = k ∙ ap (λ (y : OidcError). (c.0, y)) e;
                  endpoint = subst (λ (y : Account). str_valid y.token_endpoint ≡ true) here t;
                },
                subst (λ (y : Account). Fault w y flow only_at_str) here f,
              )),
          (λ (a, ready, f).
              let same : ready.parsed ≡ x = cc (ready.read) in
              let got : c ≡ (a, success) =
                sym k ∙ ap w.obtain_issuer_config (sym same) ∙ ready.configured in
              let at = here ∙ ap (λ (y : Account × OidcError). y.0) got in
              back (
                ap (λ (y : Account × OidcError). y.1) got,
                subst (λ (y : Account). str_valid y.token_endpoint ≡ true) (sym at) ready.endpoint,
                subst (λ (y : Account). Fault w y flow only_at_str) (sym at) f,
              )),
        )

    parsed_Lost :
        (r : OidcError × Option Account)
        → w.get_account_from_json json ≡ r
        → (gen_parsed b key w args g r flow nowebserver noscheme only_at_str ≡ none) ↔ Lost
    unfolding gen_parsed
    parsed_Lost (e, none) r = ((λ h. cc), (λ h. cc (h.1.read, r)))
    parsed_Lost (e, some x) r =
        configured_Lost x (ap (λ (y : OidcError × Option Account). y.1) r)
          (w.obtain_issuer_config x) refl

  -- When a request for the first tokens of an account has no result: exactly when the account of
  -- the request is read, the configuration of its issuer is got and names a token endpoint, and
  -- then either only an access token is asked for and removeScope leaves the bounds of the
  -- account's scope, or the flows are given as a text that begins with a bracket and cannot be read
  -- as a JSON array, so that the code reads the list of flows through NULL. In all other cases the
  -- request has a result, however the flows end.
  pub oidcd_handle_gen-none_iff :
      (g : Agent) (account_json flow nowebserver noscheme only_at_str : Option Str)
      → (oidcd_handle_gen b key w args g account_json flow nowebserver noscheme only_at_str ≡ none)
        ↔ ((a : Account) × IsReady w account_json a × Fault w a flow only_at_str)
  unfolding oidcd_handle_gen
  oidcd_handle_gen-none_iff g account_json flow nowebserver noscheme only_at_str =
      parsed_Lost g account_json flow nowebserver noscheme only_at_str
        (w.get_account_from_json account_json) refl
