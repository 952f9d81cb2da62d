-- ===== src/Agent/Gen/Sealed.antt =====
-- A new account that gets its first tokens, and the secrets in memory.
use oidc_agent.Prelude.{
  refl, inl, inr, Bool, true, false, not, ◌&&◌, ◌||◌, Option, none, some, List, [], ◌∷◌, Bool-cases,
  ℕ, ℤ, negsuc, if◌then◌else◌,
}
use oidc_agent.Text.{Str, str_valid}
use oidc_agent.Crypt.Memory.{Base64}
use oidc_agent.Agent.{
  Agent, World, Arguments, OidcError, success, Message, send, fail, write_oidc_errno,
}
use oidc_agent.Agent.Load.{
  is_null, is_forced, token_is_valid_for_seconds, get_access_token_using_refresh_flow,
}
use oidc_agent.Agent.Load.Sealed.{get_access_token-keeps}
use oidc_agent.Agent.Sealed.{Pending, Pending-update, Pending-fail, Pending-same}
use oidc_agent.Agent.Add.{note_null}
use oidc_agent.Agent.Gen.{
  Turn, ended, succeeded, next, flow_refresh, flow_password, flow_code, flow_device, flow_mt_oidc,
  is_flow, has_redirect_uris, free_account, set_flow, try_password_flow,
  get_access_token_using_password_flow, note_flag, code_flow_built, init_auth_code_flow,
  failed_flow, refresh_turn, password_turn, device_turn, with_scope, refused_flow, try_flow,
  is_empty, gen_loop,
}

module _ (b : Base64) (key : ℕ) (w : World) (args : Arguments) (p : ℕ) where
  abbrev pub Keeps : Turn → Type 0
  Keeps (ended g) = Pending b key p g
  Keeps (succeeded g) = Pending b key p g
  Keeps (next g) = Pending b key p g

  pub send-Pending : (g : Agent) (m : Message) → Pending b key p g → Pending b key p (send g m)
  unfolding send
  send-Pending g m h = Pending-same b key g _ refl refl h

  pub errno-Pending : (g : Agent) → Pending b key p g → Pending b key p (write_oidc_errno g)
  unfolding write_oidc_errno
  errno-Pending g h = send-Pending g _ h

  pub note_null-Pending :
      (g : Agent) (t : Option Str) → Pending b key p g → Pending b key p (note_null g t)
  unfolding note_null
  note_null-Pending g none h = Pending-fail b key g _ h
  note_null-Pending g (some t) h = h

  note_flag-Pending :
      (g : Agent) (argument : Bool) (t : Option Str)
      → Pending b key p g
      → Pending b key p (note_flag w args g argument t)
  unfolding note_flag
  note_flag-Pending g true t h = h
  note_flag-Pending g false t h = note_null-Pending g t h

  pub free-Pending : (g : Agent) → Pending b key p g → Pending b key p (free_account g p)
  unfolding free_account
  free-Pending g h = Pending-same b key g _ refl refl h

  flow-Pending : (g : Agent) (flow : Str) → Pending b key p g → Pending b key p (set_flow g p flow)
  unfolding set_flow
  flow-Pending g flow h = Pending-update b key g _ h

  password-Pending :
      (g : Agent) (m : ℤ) (scope : Option Str)
      → Pending b key p g
      → Pending b key p (get_access_token_using_password_flow w g p m scope).0
  unfolding get_access_token_using_password_flow
  password-Pending g m scope h =
      elim (Bool-cases (
        is_null scope
        && not (is_forced m)
        && str_valid (g.accounts.heap p).access_token
        && token_is_valid_for_seconds w (g.accounts.heap p) m)) [
          | inl e ↦ rw (e, get_access_token_using_password_flow) h
          | inr e ↦ rw (e, get_access_token_using_password_flow) tried
        ]
    where
      tried : Pending b key p (try_password_flow w g p scope).0
      tried =
          elim (Bool-cases
            (str_valid (g.accounts.heap p).username && str_valid (g.accounts.heap p).password)) [
              | inl e ↦
                  simp (e, try_password_flow) (Pending-fail b key _ _ (Pending-update b key g _ h))
              | inr e ↦ simp (e, try_password_flow) (Pending-fail b key g _ h)
            ]

  code_flow_built-Pending :
      (g : Agent) (r : OidcError × Option Str × Str × Option Str)
      → Pending b key p g
      → Pending b key p (code_flow_built w args g p r)
  unfolding code_flow_built
  code_flow_built-Pending g (e, none, state, verifier) h =
      errno-Pending _ (Pending-fail b key g e h)
  code_flow_built-Pending g (e, some uri, state, verifier) h =
      send-Pending _ _ (Pending-same b key (fail g e) _ refl refl (Pending-fail b key g e h))

  init_auth_code_flow-Pending :
      (g : Agent) (nowebserver noscheme : Option Str) (only_at : Bool)
      → Pending b key p g
      → Pending b key p (init_auth_code_flow w args g p nowebserver noscheme only_at)
  unfolding init_auth_code_flow
  init_auth_code_flow-Pending g nowebserver noscheme only_at h = code_flow_built-Pending _ _ (
      Pending-update b key _ _ (
        note_flag-Pending _ args.no_scheme noscheme
          (note_flag-Pending g args.no_webserver nowebserver h)))

  failed_flow-Keeps :
      (only : Bool) (g : Agent) → Pending b key p g → Keeps (failed_flow w args only g p)
  unfolding failed_flow
  failed_flow-Keeps true g h = free-Pending _ (errno-Pending g h)
  failed_flow-Keeps false g h = h

  refresh_turn-Keeps :
      (r : Agent × Option Str) (only only_at : Bool)
      → Pending b key p r.0
      → Keeps (refresh_turn w args r p only only_at)
  unfolding refresh_turn
  refresh_turn-Keeps (g, none) only only_at h = failed_flow-Keeps only g h
  refresh_turn-Keeps (g, some at) only true h = Pending-update b key _ _ (flow-Pending g _ h)
  refresh_turn-Keeps (g, some at) only false h = flow-Pending g _ h

  password_turn-Keeps :
      (r : Agent × OidcError) (only : Bool)
      → Pending b key p r.0
      → Keeps (password_turn w args r p only)
  unfolding password_turn
  password_turn-Keeps (g, success) only h = flow-Pending g _ h
  password_turn-Keeps (g, _) only h = failed_flow-Keeps only g h

  device_turn-Keeps :
      (g : Agent) (mytoken last : Bool) (r : OidcError × Option (Option Str × Str))
      → Pending b key p g
      → Keeps (device_turn w args g p mytoken last r)
  unfolding device_turn
  device_turn-Keeps g mytoken last (e, none) h = failed_flow-Keeps last _ (Pending-fail b key g e h)
  device_turn-Keeps g mytoken last (e, some (code, json)) h =
      flow-Pending _ _
        (send-Pending _ _ (Pending-same b key (fail g e) _ refl refl (Pending-fail b key g e h)))

  with_scope-Pending :
      (g : Agent) (scope : Option Str)
      → Pending b key p g
      → Pending b key p (with_scope w args g p scope)
  unfolding with_scope
  with_scope-Pending g none h = h
  with_scope-Pending g (some scope) h = Pending-update b key g _ h

  refused_flow-Keeps :
      (g : Agent) (text : Str) → Pending b key p g → Keeps (refused_flow w args g p text)
  unfolding refused_flow
  refused_flow-Keeps g text h = free-Pending _ (send-Pending g _ h)

  choose-Keeps : (t : Bool) (x y : Turn) → Keeps x → Keeps y → Keeps (if t then x else y)
  choose-Keeps true x y h k = h
  choose-Keeps false x y h k = k

  try_flow-Keeps :
      (g : Agent) (flow : Str) (only last : Bool) (scope : Option Str) (only_at : Bool)
      (nowebserver noscheme : Option Str)
      → Pending b key p g
      → Keeps (try_flow w args g p flow only last scope only_at nowebserver noscheme)
  unfolding try_flow
  try_flow-Keeps g flow only last scope only_at nowebserver noscheme h =
      let a = g.accounts.heap p in
      choose-Keeps (is_flow flow flow_refresh) _ _
        (refresh_turn-Keeps (get_access_token_using_refresh_flow w g p (negsuc 0) scope a.audience)
          only only_at
          (get_access_token-keeps (Pending b key p) w p (Pending-update b key) (Pending-fail b key)
            g (negsuc 0) scope a.audience h))
        (choose-Keeps (is_flow flow flow_password) _ _
          (password_turn-Keeps (get_access_token_using_password_flow w g p (negsuc 0) scope) only
            (password-Pending g (negsuc 0) scope h))
          (choose-Keeps (is_flow flow flow_code && has_redirect_uris a) _ _
            (flow-Pending _ flow_code
              (init_auth_code_flow-Pending g nowebserver noscheme only_at h))
            (choose-Keeps (is_flow flow flow_device || is_flow flow flow_mt_oidc) _ _
              (device_turn-Keeps _ _ last _ (with_scope-Pending g scope h))
              (choose-Keeps (is_flow flow flow_code) _ _
                (choose-Keeps last _ _ (refused_flow-Keeps g _ h) h) (refused_flow-Keeps g _ h)))))

  pub gen_loop-Keeps :
      (g : Agent) (flows : List Str) (only : Bool) (scope : Option Str) (only_at : Bool)
      (nowebserver noscheme : Option Str)
      → Pending b key p g
      → Keeps (gen_loop w args g p flows only scope only_at nowebserver noscheme)
  unfolding gen_loop
  gen_loop-Keeps g [] only scope only_at nowebserver noscheme h = h
  gen_loop-Keeps g (flow ∷ flows) only scope only_at nowebserver noscheme h =
      go (try_flow w args g p flow only (is_empty w args flows) scope only_at nowebserver noscheme)
        (try_flow-Keeps g flow only (is_empty w args flows) scope only_at nowebserver noscheme h)
        (λ g1 k. gen_loop-Keeps g1 flows only scope only_at nowebserver noscheme k)
    where
      go :
          (t : Turn)
          → Keeps t
          → ((g1 : Agent)
              → Pending b key p g1
              → Keeps (gen_loop w args g1 p flows only scope only_at nowebserver noscheme))
          → Keeps (elim t [
            | ended h ↦ ended h
            | succeeded h ↦ succeeded h
            | next h ↦ gen_loop w args h p flows only scope only_at nowebserver noscheme
          ])
      go (ended g1) k rest = k
      go (succeeded g1) k rest = k
      go (next g1) k rest = rest g1 k
