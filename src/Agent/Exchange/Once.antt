-- ===== src/Agent/Exchange/Once.antt =====
-- A state that brings an account can be used once.
use oidc_agent.Prelude.{
  ℕ, ◌≡◌, ◌≢◌, refl, sym, ◌∙◌, ap, subst, ◌⊎◌, inl, inr, Bool, true, false, not, ◌&&◌, Option, none,
  some, List, [], ◌∷◌, All, Bool-cases, Option-cases, negsuc, find_first, remove_first,
}
use oidc_agent.Text.{Str, str_valid}
use oidc_agent.Crypt.Memory.{Base64}
use oidc_agent.Account.{account_refresh_token_is_valid, match_strings}
use oidc_agent.Accounts.Distinct.{match_strings_iff}
use oidc_agent.Agent.{
  Agent, World, OidcError, success, einternal, CodeExchangeEntry, fail, write_oidc_errno, send,
  update,
}
use oidc_agent.Agent.Add.{is_set, note_null}
use oidc_agent.Uri.{UriError, no_base_uri, no_state, no_code, null_uri, code_state_from_uri}
use oidc_agent.Agent.Exchange.{
  cee_match_by_state, empty_code, change_first, free_code, get_access_token_using_auth_code_flow,
  term_http_server, send_config, only_at_of, no_refresh_token, checked_from_gen, keep_for_state,
  exchanged, exchange_result, exchange_configured, exchange_at, exchange_entry, exchange_state,
  exchange_parsed, note_uri_error, oidcd_handle_code_exchange,
}

-- Every entry has a state, and no two have the same.
abbrev pub DistinctStates : List CodeExchangeEntry → Type 0
DistinctStates [] = Unit
DistinctStates (x ∷ xs) =
    (x.state ≢ none) × All (λ (e : CodeExchangeEntry). e.state ≢ x.state) xs × DistinctStates xs

abbrev pub Without : Str → List CodeExchangeEntry → Type 0
Without state l = All (λ (e : CodeExchangeEntry). e.state ≢ some state) l

remove_state :
    (state : Str) (cee : CodeExchangeEntry) (l : List CodeExchangeEntry)
    → cee.state ≡ some state
    → DistinctStates l
    → Without state (remove_first (cee_match_by_state cee) l)
unfolding cee_match_by_state
remove_state state cee [] e h = tt
remove_state state cee (x ∷ l) e h = elim (Bool-cases (match_strings cee.state x.state)) [
  | inl t ↦
      let same = sym ((match_strings_iff cee.state x.state).0 t) ∙ e in
      simp t (subst (λ n. All (λ (e : CodeExchangeEntry). e.state ≢ n) l) same h.1)
  | inr t ↦ simp t (
    (λ s. cc ((match_strings_iff cee.state x.state).1 (e ∙ sym s))),
    remove_state state cee l e h.2,
  )
]

-- The entry that is emptied is the one that is removed.
free_first :
    (cee : CodeExchangeEntry) (l : List CodeExchangeEntry)
    → DistinctStates l
    → remove_first
        (cee_match_by_state empty_code)
        (change_first (cee_match_by_state cee) (λ x. empty_code) l)
      ≡ remove_first (cee_match_by_state cee) l
unfolding cee_match_by_state match_strings
free_first cee [] h = refl
free_first cee (x ∷ l) h = elim (Bool-cases (cee_match_by_state cee x)) [
  | inl t ↦ simp t
  | inr t ↦ elim (Bool-cases (match_strings none x.state)) [
    | inl u ↦ absurd (h.0 (sym ((match_strings_iff none x.state).0 u)))
    | inr u ↦ simp (t, u, free_first cee l h.2)
  ]
]

find_holds :
    (t : CodeExchangeEntry → Bool) (l : List CodeExchangeEntry) (x : CodeExchangeEntry)
    → find_first t l ≡ some x
    → t x ≡ true
find_holds t [] x e = cc
find_holds t (y ∷ l) x e = elim (Bool-cases (t y)) [
  | inl k ↦ let same : some y ≡ some x = rw k at e in let here : y ≡ x = cc in rw (sym here) k
  | inr k ↦ find_holds t l x (rw k at e)
]

module _ (b : Base64) (key : ℕ) (w : World) (g0 : Agent) (state : Str)
    (distinct : DistinctStates g0.codes) where
  -- Nothing is loaded and no entry has gone, or no entry has the state any more.
  abbrev pub Once : Agent → Type 0
  Once h = ((h.codes ≡ g0.codes) × (h.accounts.loaded ≡ g0.accounts.loaded)) ⊎ Without state h.codes

  -- The request has changed neither yet.
  record Same (g : Agent) : Type 0 where
    pub codes : g.codes ≡ g0.codes
    pub loaded : g.accounts.loaded ≡ g0.accounts.loaded

  send_config-codes : (g : Agent) (p : ℕ) (to : Bool) → (send_config g p to).codes ≡ g.codes
  unfolding send_config
  send_config-codes g p true = refl
  send_config-codes g p false = refl

  checked-codes :
      (g : Agent) (p : ℕ) (s : Option Str) (from_gen : Bool)
      → (checked_from_gen b key g p s from_gen).codes ≡ g.codes
  unfolding checked_from_gen term_http_server
  checked-codes g p s false = refl
  checked-codes g p none true = refl
  checked-codes g p (some s) true = refl

  keep-codes :
      (g : Agent) (p : ℕ) (cee : CodeExchangeEntry) (from_gen : Bool)
      → (keep_for_state b key g p cee from_gen).codes
        ≡ remove_first (cee_match_by_state cee) g.codes
  unfolding keep_for_state
  keep-codes g p cee from_gen =
      ap (remove_first (cee_match_by_state cee)) (checked-codes g p cee.state from_gen)

  removed :
      (cee : CodeExchangeEntry)
      → cee.state ≡ some state
      → Without state (remove_first (cee_match_by_state cee) g0.codes)
  removed cee e = remove_state state cee g0.codes e distinct

  kept-Once :
      (g : Agent) (p : ℕ) (cee : CodeExchangeEntry) (from_gen : Bool)
      → cee.state ≡ some state
      → g.codes ≡ g0.codes
      → Once (keep_for_state b key g p cee from_gen)
  kept-Once g p cee from_gen e k = inr (
      subst (Without state)
        (sym (keep-codes g p cee from_gen ∙ ap (remove_first (cee_match_by_state cee)) k))
        (removed cee e))

  freed-Once :
      (g : Agent) (cee : CodeExchangeEntry)
      → cee.state ≡ some state
      → g.codes ≡ g0.codes
      → Once (free_code g cee)
  unfolding free_code
  freed-Once g cee e k = inr (simp (k, free_code, free_first cee g0.codes distinct) (removed cee e))

  exchanged-Once :
      (g : Agent) (p : ℕ) (cee : CodeExchangeEntry) (from_gen only_at : Bool)
      → cee.state ≡ some state
      → g.codes ≡ g0.codes
      → Once (exchanged b key g p cee from_gen only_at)
  unfolding exchanged
  exchanged-Once g p cee from_gen only_at e k =
      elim (Bool-cases (account_refresh_token_is_valid (g.accounts.heap p) && not only_at)) [
        | inl t ↦
            simp (t, exchanged) (kept-Once _ p cee from_gen e (send_config-codes g p from_gen ∙ k))
        | inr t ↦ elim (Bool-cases (only_at && str_valid (g.accounts.heap p).access_token)) [
          | inl u ↦ simp (t, u, exchanged) (kept-Once _ p cee from_gen e k)
          | inr u ↦ simp (t, u, exchanged) (freed-Once (send g no_refresh_token) cee e k)
        ]
      ]

  result-Once :
      (r : Agent × OidcError) (p : ℕ) (cee : CodeExchangeEntry) (from_gen only_at : Bool)
      → cee.state ≡ some state
      → Same r.0
      → Once (exchange_result b key r p cee from_gen only_at)
  unfolding exchange_result
  result-Once (g, success) p cee from_gen only_at e k =
      exchanged-Once g p cee from_gen only_at e k.codes
  result-Once (g, _) p cee from_gen only_at e k = inl (k.codes, k.loaded)

  configured-Once :
      (g : Agent) (p : ℕ) (err : OidcError) (cee : CodeExchangeEntry) (uri code : Str)
      (from_gen only_at : Bool)
      → cee.state ≡ some state
      → Same g
      → Once (exchange_configured b key w g p err cee uri code from_gen only_at)
  unfolding exchange_configured get_access_token_using_auth_code_flow
  configured-Once g p success cee uri code from_gen only_at e k =
      result-Once
        (get_access_token_using_auth_code_flow w g p code uri cee.code_verifier (negsuc 0)) p cee
        from_gen only_at e (record { codes = k.codes; loaded = k.loaded })
  configured-Once g p _ cee uri code from_gen only_at e k =
      freed-Once (write_oidc_errno g) cee e k.codes

  at-Once :
      (g : Agent) (cee : CodeExchangeEntry) (at : Option ℕ) (uri code : Str)
      (from_gen only_at : Bool)
      → cee.state ≡ some state
      → Same g
      → Once (exchange_at b key w g cee at uri code from_gen only_at)
  unfolding exchange_at
  at-Once g cee none uri code from_gen only_at e k =
      freed-Once (write_oidc_errno (fail g einternal)) cee e k.codes
  at-Once g cee (some p) uri code from_gen only_at e k =
      let r = w.obtain_issuer_config (g.accounts.heap p) in
      configured-Once (fail (update g p r.0) r.1) p r.1 cee uri code from_gen only_at e
        (record { codes = k.codes; loaded = k.loaded })

  entry-Once :
      (g : Agent) (found : Option CodeExchangeEntry) (uri code : Str) (from_gen only_at : Bool)
      → ((cee : CodeExchangeEntry) → found ≡ some cee → cee.state ≡ some state)
      → Same g
      → Once (exchange_entry b key w g found uri code from_gen only_at)
  unfolding exchange_entry
  entry-Once g none uri code from_gen only_at f k = inl (k.codes, k.loaded)
  entry-Once g (some cee) uri code from_gen only_at f k =
      at-Once g cee cee.account uri code from_gen only_at (f cee refl) k

  state-Once :
      (g : Agent) (uri code : Str) (from_gen : Bool)
      → Same g
      → Once (exchange_state b key w g uri state code from_gen)
  unfolding exchange_state cee_match_by_state
  state-Once g uri code from_gen k = elim (Option-cases (only_at_of state)) [
    | inl e ↦ simp (e, exchange_state) (inl (k.codes, k.loaded))
    | inr (only_at, e) ↦
        simp (e, exchange_state)
          (entry-Once g
            (find_first (cee_match_by_state (record empty_code { state = some state })) g.codes) uri
            code from_gen only_at found k)
  ]
    where
      found :
          (cee : CodeExchangeEntry)
          → find_first (cee_match_by_state (record empty_code { state = some state })) g.codes
            ≡ some cee
          → cee.state ≡ some state
      found cee f = sym ((match_strings_iff (some state) cee.state).0 (find_holds _ g.codes cee f))

  parsed-Once :
      (g : Agent) (uri code : Option Str) (from_gen : Bool)
      → Same g
      → Once (exchange_parsed b key w g uri (some state) code from_gen)
  unfolding exchange_parsed
  parsed-Once g (some uri) (some code) from_gen k = state-Once g uri code from_gen k
  parsed-Once g none code from_gen k = inl (k.codes, k.loaded)
  parsed-Once g (some uri) none from_gen k = inl (k.codes, k.loaded)

  uri_noted : (g : Agent) (e : Option UriError) → Same g → Same (note_uri_error g e)
  unfolding note_uri_error
  uri_noted g none k = k
  uri_noted g (some no_base_uri) k = record { codes = k.codes; loaded = k.loaded }
  uri_noted g (some no_state) k = record { codes = k.codes; loaded = k.loaded }
  uri_noted g (some no_code) k = record { codes = k.codes; loaded = k.loaded }
  uri_noted g (some null_uri) k = record { codes = k.codes; loaded = k.loaded }

  noted : (t : Option Str) → Same (note_null g0 t)
  unfolding note_null
  noted none = record { codes = refl; loaded = refl }
  noted (some t) = record { codes = refl; loaded = refl }

  -- If the states that wait are distinct, then after the exchange of a code for the state that a uri
  -- names, either the entries that wait and the loaded accounts are as before, or no entry has that
  -- state any more: a state brings at most one account.
  pub oidcd_handle_code_exchange-Once :
      (redirected_uri : Str) (from_string : Option Str)
      → (code_state_from_uri (some redirected_uri)).0.state ≡ some state
      → Once (oidcd_handle_code_exchange b key w g0 (some redirected_uri) from_string)
  unfolding oidcd_handle_code_exchange
  oidcd_handle_code_exchange-Once redirected_uri from_string e =
      let (cs, err) = code_state_from_uri (some redirected_uri) in
      subst
        (λ s. Once (
          exchange_parsed b key w (note_uri_error (note_null g0 from_string) err) cs.uri s cs.code
            (is_set from_string)))
        (sym e)
        (parsed-Once _ cs.uri cs.code (is_set from_string) (uri_noted _ err (noted from_string)))
