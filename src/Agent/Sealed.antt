-- ===== src/Agent/Sealed.antt =====
-- What stays true of the agent's memory while requests are handled.
use oidc_agent.Prelude.{ℕ, ◌<◌, ◌≡◌, subst, sym, inl, inr, arith, All-imp, Option-cases}
use oidc_agent.Crypt.Memory.{Base64}
use oidc_agent.Account.{Account}
use oidc_agent.Accounts.{Accounts, store}
use oidc_agent.Accounts.Sealed.{
  AllSealed, SealedBut, Below, AllSealed-SealedBut, absent-AllSealed, store-SealedBut,
  db_add_account_encrypted-AllSealed, db_add_account_encrypted-Below,
}
use oidc_agent.Agent.{
  Agent, World, OidcError, Message, response_error_errno, response_error_info, fail, send,
  write_oidc_errno, alloc, update,
}
use oidc_agent.Agent.Load.{reencrypt, write_error_with_help}

module _ (b : Base64) (key : ℕ) where
  -- Between requests: the pointer of every loaded account was handed out by the agent, that is, it is
  -- below `fresh`, and the account holds its secrets encrypted. Whether it was freed since is not said;
  -- `freed` notes that. In this sense an account is called allocated.
  pub record Inv (g : Agent) : Type 0 where
    pub sealed : AllSealed b key g.accounts
    pub bounded : Below g.fresh g.accounts.loaded

  -- While a request works on the account at `p`, which may be in the clear.
  pub record Working (p : ℕ) (g : Agent) : Type 0 where
    pub but : SealedBut b key g.accounts p
    pub bounded : Below g.fresh g.accounts.loaded
    pub allocated : p < g.fresh

  -- While a new account at `p` is not loaded yet.
  pub record Pending (p : ℕ) (g : Agent) : Type 0 where
    pub but : SealedBut b key g.accounts p
    pub absent : Below p g.accounts.loaded
    pub allocated : p < g.fresh

  pub Pending-Working : {p : ℕ} (g : Agent) → Pending p g → Working p g
  Pending-Working {p} g h = record {
    but = h.but;
    bounded = All-imp g.accounts.loaded (λ q k. omega (arith, h.allocated)) h.absent;
    allocated = h.allocated;
  }

  pub Pending-Inv : {p : ℕ} (g : Agent) → Pending p g → Inv g
  Pending-Inv {p} g h = record {
    sealed = absent-AllSealed b key g.accounts p h.absent h.but;
    bounded = (Pending-Working g h).bounded;
  }

  pub Pending-alloc : (g : Agent) (a : Account) → Inv g → Pending g.fresh (alloc g a)
  unfolding alloc store
  Pending-alloc g a h = record {
    but =
        store-SealedBut b key g.accounts g.fresh a
          (AllSealed-SealedBut b key g.accounts g.fresh h.sealed);
    absent = h.bounded;
    allocated = omega arith;
  }

  pub Pending-update : {p : ℕ} (g : Agent) (a : Account) → Pending p g → Pending p (update g p a)
  unfolding update store
  Pending-update {p} g a h = record {
    but = store-SealedBut b key g.accounts p a h.but;
    absent = h.absent;
    allocated = h.allocated;
  }

  pub Pending-fail : {p : ℕ} (g : Agent) (e : OidcError) → Pending p g → Pending p (fail g e)
  unfolding fail
  Pending-fail g e h = record { but = h.but; absent = h.absent; allocated = h.allocated }

  -- Nothing is said of what is not the accounts.
  pub Pending-same :
      {p : ℕ} (g h : Agent)
      → h.accounts ≡ g.accounts
      → h.fresh ≡ g.fresh
      → Pending p g
      → Pending p h
  Pending-same {p} g h e f k = record {
    but = subst (λ s. SealedBut b key s p) (sym e) k.but;
    absent = subst (λ (s : Accounts). Below p s.loaded) (sym e) k.absent;
    allocated = subst (λ n. p < n) (sym f) k.allocated;
  }

  pub Working-update : {p : ℕ} (g : Agent) (a : Account) → Working p g → Working p (update g p a)
  unfolding update store
  Working-update {p} g a h = record {
    but = store-SealedBut b key g.accounts p a h.but;
    bounded = h.bounded;
    allocated = h.allocated;
  }

  pub Working-fail : {p : ℕ} (g : Agent) (e : OidcError) → Working p g → Working p (fail g e)
  unfolding fail
  Working-fail g e h = record { but = h.but; bounded = h.bounded; allocated = h.allocated }

  pub Working-send : {p : ℕ} (g : Agent) (m : Message) → Working p g → Working p (send g m)
  unfolding send
  Working-send g m h = record { but = h.but; bounded = h.bounded; allocated = h.allocated }

  pub Inv-fail : (g : Agent) (e : OidcError) → Inv g → Inv (fail g e)
  unfolding fail
  Inv-fail g e h = record { sealed = h.sealed; bounded = h.bounded }

  pub Inv-send : (g : Agent) (m : Message) → Inv g → Inv (send g m)
  unfolding send
  Inv-send g m h = record { sealed = h.sealed; bounded = h.bounded }

  pub Inv-write_oidc_errno : (g : Agent) → Inv g → Inv (write_oidc_errno g)
  unfolding write_oidc_errno
  Inv-write_oidc_errno g h = Inv-send g (response_error_errno g.oidc_errno) h

  pub Inv-write_error_with_help : (w : World) (g : Agent) → Inv g → Inv (write_error_with_help w g)
  unfolding write_error_with_help
  Inv-write_error_with_help w g h = elim (Option-cases (w.help g.oidc_errno)) [
    | inl e ↦ rw (e, write_error_with_help) (Inv-write_oidc_errno g h)
    | inr (t, e) ↦ rw (e, write_error_with_help) (Inv-send g (response_error_info g.oidc_errno t) h)
  ]

  pub Inv-reencrypt : {p : ℕ} (g : Agent) → Working p g → Inv (reencrypt b key g p)
  unfolding reencrypt
  Inv-reencrypt {p} g h = record {
    sealed = db_add_account_encrypted-AllSealed b key g.accounts p h.but;
    bounded = db_add_account_encrypted-Below b key g.accounts p g.fresh h.allocated h.bounded;
  }
