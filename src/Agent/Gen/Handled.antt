-- ===== src/Agent/Gen/Handled.antt =====
-- The end of a request for first tokens, and the secrets in memory.
use oidc_agent.Prelude.{
  inl, inr, Bool, true, false, not, ◌&&◌, Option, none, some, List, Bool-cases, ℕ,
}
use oidc_agent.Text.{Str, str_valid}
use oidc_agent.Crypt.Memory.{Base64}
use oidc_agent.Account.{Account, account_refresh_token_is_valid}
use oidc_agent.Agent.{Agent, World, Arguments, OidcError, success, fail}
use oidc_agent.Agent.Sealed.{
  Inv, Pending, Pending-alloc, Pending-update, Pending-fail, Pending-Working, Pending-Inv,
  Working-send, Inv-reencrypt, Inv-fail, Inv-write_oidc_errno,
}
use oidc_agent.Agent.Add.{is_set, note_null}
use oidc_agent.Agent.Gen.{
  Turn, ended, succeeded, next, parse_flow, is_single, gen_loop, finished, gen_finish, gen_end,
  handle_gen_flows, gen_scope, gen_configured, gen_parsed, oidcd_handle_gen,
}
use oidc_agent.Agent.Gen.Sealed.{
  Keeps, gen_loop-Keeps, free-Pending, send-Pending, errno-Pending, note_null-Pending,
}

module _ (b : Base64) (key : ℕ) (w : World) (args : Arguments) where
  finished-Inv :
      (g : Agent) (p : ℕ) (won only_at : Bool)
      → Pending b key p g
      → Inv b key (finished b key w args g p won only_at)
  unfolding finished
  finished-Inv g p won only_at k =
      elim (Bool-cases (won && account_refresh_token_is_valid (g.accounts.heap p) && not only_at)) [
        | inl e ↦
            simp (e, finished)
              (Inv-reencrypt b key _
                (Working-send b key _ _ (Working-send b key g _ (Pending-Working b key g k))))
        | inr e ↦ elim (Bool-cases (won && only_at && str_valid (g.accounts.heap p).access_token)) [
          | inl f ↦
              simp (e, f, finished)
                (Pending-Inv b key _
                  (free-Pending b key w args p _ (send-Pending b key w args p g _ k)))
          | inr f ↦
              simp (e, f, finished)
                (Pending-Inv b key _
                  (free-Pending b key w args p _ (send-Pending b key w args p g _ k)))
        ]
      ]

  gen_finish-Inv :
      (g : Agent) (p : ℕ) (won only_at : Bool)
      → Pending b key p g
      → Inv b key (gen_finish b key w args g p won only_at)
  unfolding gen_finish
  gen_finish-Inv g p won only_at h = finished-Inv _ p won only_at (Pending-update b key g _ h)

  gen_end-Inv :
      (t : Turn) (p : ℕ) (only_at : Bool)
      → Keeps b key w args p t
      → Inv b key (gen_end b key w args t p only_at)
  unfolding gen_end
  gen_end-Inv (ended g) p only_at h = Pending-Inv b key g h
  gen_end-Inv (succeeded g) p only_at h = gen_finish-Inv g p true only_at h
  gen_end-Inv (next g) p only_at h = gen_finish-Inv g p false only_at h

  -- A result that is there keeps the secrets encrypted.
  abbrev pub IfSome : Option Agent → Type 0
  IfSome none = Unit
  IfSome (some h) = Inv b key h

  handle_gen_flows-Inv :
      (g : Agent) (p : ℕ) (flow scope : Option Str) (only_at : Bool)
      (nowebserver noscheme : Option Str)
      → Pending b key p g
      → IfSome (handle_gen_flows b key w args g p flow scope only_at nowebserver noscheme)
  unfolding handle_gen_flows
  handle_gen_flows-Inv g p flow scope only_at nowebserver noscheme h =
      go (parse_flow w g.oidc_errno flow)
    where
      go :
          (r : OidcError × Option (List Str))
          → IfSome (elim r.1 [
            | none ↦ none
            | some l ↦ some (
                gen_end b key w args
                  (gen_loop w args
                    (fail g r.0)
                    p
                    l
                    (is_single b key w args l)
                    scope
                    only_at
                    nowebserver
                    noscheme)
                  p
                  only_at)
          ])
      go (e, none) = tt
      go (e, some l) = gen_end-Inv _ p only_at (
          gen_loop-Keeps b key w args p (fail g e) l _ scope only_at nowebserver noscheme
            (Pending-fail b key g e h))

  gen_configured-Inv :
      (g : Agent) (p : ℕ) (e : OidcError) (flow nowebserver noscheme only_at_str : Option Str)
      → Pending b key p g
      → IfSome (gen_configured b key w args g p e flow nowebserver noscheme only_at_str)
  unfolding gen_configured
  gen_configured-Inv g p success flow nowebserver noscheme only_at_str h =
      elim (Bool-cases (str_valid (g.accounts.heap p).token_endpoint)) [
        | inl t ↦
            simp (t, gen_configured)
              (go (gen_scope b key w args (g.accounts.heap p) (is_set only_at_str)))
        | inr t ↦
            simp (t, gen_configured)
              (Pending-Inv b key _
                (free-Pending b key w args p _ (errno-Pending b key w args p g h)))
      ]
    where
      go :
          (r : Option (Option Str))
          → IfSome (elim r [
            | none ↦ none
            | some scope ↦
                handle_gen_flows b key w args
                  (note_null g only_at_str)
                  p
                  flow
                  scope
                  (is_set only_at_str)
                  nowebserver
                  noscheme
          ])
      go none = tt
      go (some scope) =
          handle_gen_flows-Inv _ p flow scope (is_set only_at_str) nowebserver noscheme
            (note_null-Pending b key w args p g only_at_str h)
  gen_configured-Inv g p _ flow nowebserver noscheme only_at_str h =
      Pending-Inv b key _ (errno-Pending b key w args p _ (free-Pending b key w args p g h))

  gen_parsed-Inv :
      (g : Agent) (r : OidcError × Option Account)
      (flow nowebserver noscheme only_at_str : Option Str)
      → Inv b key g
      → IfSome (gen_parsed b key w args g r flow nowebserver noscheme only_at_str)
  unfolding gen_parsed
  gen_parsed-Inv g (e, none) flow nowebserver noscheme only_at_str h =
      Inv-write_oidc_errno b key _ (Inv-fail b key g e h)
  gen_parsed-Inv g (e, some a) flow nowebserver noscheme only_at_str h =
      gen_configured-Inv _ g.fresh _ flow nowebserver noscheme only_at_str
        (Pending-fail b key _ _ (Pending-alloc b key g _ h))

  -- If every loaded account is allocated and has its secrets encrypted, then so it is after a request
  -- for the first tokens of a new account, whatever flows are tried and however each ends, where the
  -- code has a result (it reads the list of flows and the scope within bounds).
  pub oidcd_handle_gen-Inv :
      (g : Agent) (account_json flow nowebserver noscheme only_at_str : Option Str)
      → Inv b key g
      → IfSome (oidcd_handle_gen b key w args g account_json flow nowebserver noscheme only_at_str)
  unfolding oidcd_handle_gen
  oidcd_handle_gen-Inv g account_json flow nowebserver noscheme only_at_str h =
      gen_parsed-Inv g (w.get_account_from_json account_json) flow nowebserver noscheme only_at_str
        h
