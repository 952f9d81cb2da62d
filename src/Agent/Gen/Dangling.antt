-- ===== src/Agent/Gen/Dangling.antt =====
-- An account that authenticates again and fails is freed while it stays loaded.
use oidc_agent.Prelude.{
  ℕ, ◌≡◌, ◌==◌, ==_iff, ◌+◌, pos, refl, ap, ◌∙◌, inl, inr, Bool, true, false, Option, none, some,
  [], ◌∷◌, In, Bool-cases, negsuc, if◌then◌else◌,
}
use oidc_agent.Text.{Str, codes, str_valid}
use oidc_agent.Crypt.Memory.{Base64}
use oidc_agent.Account.{Account}
use oidc_agent.Accounts.{store}
use oidc_agent.Agent.{Agent, World, Arguments, OidcError, ecred, fail, update, write_oidc_errno}
use oidc_agent.Agent.Load.{is_null}
use oidc_agent.Agent.Gen.{
  ended, parse_flow, flow_refresh, flow_password, is_flow, free_account, try_password_flow,
  get_access_token_using_password_flow, failed_flow, password_turn, try_flow, gen_loop, gen_end,
  handle_gen_flows, reauthenticate_flows, reauthenticate_found,
}

module _ (b : Base64) (key : ℕ) (w : World) (args : Arguments) where
  parse-reauthenticate :
      (e : OidcError) (a : Account)
      → parse_flow w e (some (reauthenticate_flows b key w args a))
        ≡ w.json_array (reauthenticate_flows b key w args a)
  unfolding parse_flow reauthenticate_flows
  parse-reauthenticate e a = elim (Bool-cases (str_valid a.flow)) [
    | inl t ↦ simp (t, parse_flow, reauthenticate_flows) refl
    | inr t ↦ elim (Bool-cases (is_null a.mytoken_url)) [
      | inl u ↦ simp (t, u, parse_flow, reauthenticate_flows) refl
      | inr u ↦ simp (t, u, parse_flow, reauthenticate_flows) refl
    ]
  ]

  no_username : (a : Account) → a.username ≡ none → str_valid a.username ≡ false
  unfolding str_valid
  no_username a e = ap str_valid e

  password-fails :
      (g : Agent) (p : ℕ)
      → (g.accounts.heap p).username ≡ none
      → get_access_token_using_password_flow w g p (negsuc 0) none ≡ (fail g ecred, ecred)
  unfolding get_access_token_using_password_flow try_password_flow
  password-fails g p e =
      simp
        (no_username (g.accounts.heap p) e, get_access_token_using_password_flow, try_password_flow)
        refl

  flow-ends :
      (g : Agent) (p : ℕ) (flow : Str) (only_at : Bool) (nowebserver noscheme : Option Str)
      → is_flow flow flow_refresh ≡ false
      → is_flow flow flow_password ≡ true
      → (g.accounts.heap p).username ≡ none
      → try_flow w args g p flow true true none only_at nowebserver noscheme
        ≡ ended (free_account (write_oidc_errno (fail g ecred)) p)
  unfolding try_flow password_turn failed_flow
  flow-ends g p flow only_at nowebserver noscheme r f e =
      simp (r, f, password-fails g p e, try_flow, password_turn, failed_flow) refl

  flows-end :
      (g : Agent) (p : ℕ) (flows flow : Str) (e : OidcError) (only_at : Bool)
      (nowebserver noscheme : Option Str)
      → parse_flow w g.oidc_errno (some flows) ≡ (e, some (flow ∷ []))
      → is_flow flow flow_refresh ≡ false
      → is_flow flow flow_password ≡ true
      → (g.accounts.heap p).username ≡ none
      → handle_gen_flows b key w args g p (some flows) none only_at nowebserver noscheme
        ≡ some (free_account (write_oidc_errno (fail (fail g e) ecred)) p)
  unfolding handle_gen_flows gen_loop gen_end
  flows-end g p flows flow e only_at nowebserver noscheme j r f u =
      simp
        (
          j,
          flow-ends (fail g e) p flow only_at nowebserver noscheme r f u,
          handle_gen_flows,
          gen_loop,
          gen_end,
        )
        refl

  update-username :
      (g : Agent) (p : ℕ) (a : Account) → ((update g p a).accounts.heap p).username ≡ a.username
  unfolding update store
  update-username g p a = simp ((==_iff p p).1 refl) refl

  -- If an account is loaded, has no user name, and is to authenticate again by the password flow alone
  -- (as it is after it was made by that flow, which forgets the user name), then the request frees the
  -- account and leaves it loaded.
  pub reauthenticate_found-dangles :
      (g : Agent) (p : ℕ) (e : OidcError) (flow : Str)
      → In p g.accounts.loaded
      → w.json_array (reauthenticate_flows b key w args (g.accounts.heap p)) ≡ (e, some (flow ∷ []))
      → is_flow flow flow_refresh ≡ false
      → is_flow flow flow_password ≡ true
      → (g.accounts.heap p).username ≡ none
      → (h : Agent) × (reauthenticate_found b key w args (g, some p) ≡ some h)
        × In p h.accounts.loaded
        × In p h.freed
  unfolding reauthenticate_found free_account write_oidc_errno update
  reauthenticate_found-dangles g p e flow i j r f u =
      let a : Account = record (g.accounts.heap p) {
        death = if args.lifetime == 0 then pos 0 else pos (args.lifetime + w.now);
      } in
      (
        free_account (write_oidc_errno (fail (fail (update g p a) e) ecred)) p,
        flows-end (update g p a) p (reauthenticate_flows b key w args (g.accounts.heap p)) flow e
            false none (some (codes "1"))
            (parse-reauthenticate g.oidc_errno (g.accounts.heap p) ∙ j) r f
            (update-username g p a ∙ u),
        i,
        inl refl,
      )
