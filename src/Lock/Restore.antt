-- ===== src/Lock/Restore.antt =====
-- Locking and then unlocking with the same password.
use oidc_agent.Prelude.{
  ℕ, ◌≡◌, refl, sym, ap, ◌∙◌, subst, inl, inr, Bool, true, false, none, some, List, [], ◌∷◌, All,
  Bool-cases,
}
use oidc_agent.Text.{Str}
use oidc_agent.Text.Laws.{strequal_iff}
use oidc_agent.Account.{Account}
use oidc_agent.Accounts.{Accounts}
use oidc_agent.Lock.{
  PasswordCrypt, Agent, Outcome, success, ecrypt, lock_account, unlock_account, each_account,
  lock_encrypt, lock_decrypt, hashed, lock_result, lock, unlock_result, unlock,
}
use oidc_agent.Lock.Round.{Inverts, IsLockable, unlock_account-lock_account}
use oidc_agent.Lock.Loop.{NoDup, each-all, each-succeeds, each-loaded}

module _ (c : PasswordCrypt) (inverts : Inverts c) (r : ℕ → ℕ → ℕ) (password : Str) where
  abbrev locking : ℕ → Account → Account × Bool
  locking p = lock_account c (some password) (r p)

  abbrev unlocking : ℕ → Account → Account × Bool
  unlocking p = unlock_account c (some password)

  abbrev AllLockable : Accounts → Type 0
  AllLockable s = All (λ q. IsLockable (s.heap q)) s.loaded

  -- The accounts of `t` are those of `s`.
  pub record Restored (s t : Accounts) : Type 0 where
    pub loaded : t.loaded ≡ s.loaded
    pub heap : All (λ q. t.heap q ≡ s.heap q) s.loaded

  -- Every account is unlocked to what it was.
  back :
      (s t : Accounts) (l : List ℕ)
      → All (λ q. IsLockable (s.heap q)) l
      → All (λ q. ((locking q (s.heap q)).1 ≡ true) × (t.heap q ≡ (locking q (s.heap q)).0)) l
      → All (λ q. unlocking q (t.heap q) ≡ (s.heap q, true)) l
  back s t [] v h = tt
  back s t (q ∷ l) v h = (
    ap (unlocking q) h.0.1
        ∙ unlock_account-lock_account c inverts password (r q) (s.heap q) v.0 h.0.0,
    back s t l v.1 h.1,
  )

  both :
      (s t u : Accounts) (l : List ℕ)
      → All (λ q. unlocking q (t.heap q) ≡ (s.heap q, true)) l
      → All (λ q. ((unlocking q (t.heap q)).1 ≡ true) × (u.heap q ≡ (unlocking q (t.heap q)).0)) l
      → All (λ q. u.heap q ≡ s.heap q) l
  both s t u [] h k = tt
  both s t u (q ∷ l) h k = (k.0.1 ∙ ap (λ (x : Account × Bool). x.0) h.0, both s t u l h.1 k.1)

  ok_all :
      (s t : Accounts) (l : List ℕ)
      → All (λ q. unlocking q (t.heap q) ≡ (s.heap q, true)) l
      → All (λ q. (unlocking q (t.heap q)).1 ≡ true) l
  ok_all s t [] h = tt
  ok_all s t (q ∷ l) h = (ap (λ (x : Account × Bool). x.1) h.0, ok_all s t l h.1)

  -- If no pointer is loaded twice, every loaded account has a client secret and secrets that are C
  -- strings whose lengths fit, and lockEncrypt succeeds, then lockDecrypt with the same password succeeds and gives the accounts back.
  pub lock_decrypt-lock_encrypt :
      (s : Accounts)
      → NoDup s.loaded
      → AllLockable s
      → (lock_encrypt c r s (some password)).1 ≡ true
      → let t = (lock_encrypt c r s (some password)).0 in
        ((lock_decrypt c t (some password)).1 ≡ true)
        × Restored s (lock_decrypt c t (some password)).0
  unfolding lock_encrypt lock_decrypt
  lock_decrypt-lock_encrypt s d v ok =
      let t = (each_account locking s.loaded s).0 in
      let same : t.loaded ≡ s.loaded = each-loaded locking s.loaded s in
      let h = back s t s.loaded v (each-all locking s.loaded s d ok) in
      let good = each-succeeds unlocking s.loaded t d (ok_all s t s.loaded h) in
      let moved = ap (λ l. each_account unlocking l t) same in
      (
        ap (λ (x : Accounts × Bool). x.1) moved ∙ good,
        record {
          loaded = each-loaded unlocking t.loaded t ∙ same;
          heap =
              subst (λ (x : Accounts × Bool). All (λ q. x.0.heap q ≡ s.heap q) s.loaded) (sym moved)
                (both s t (each_account unlocking s.loaded t).0 s.loaded h
                  (each-all unlocking s.loaded t d good));
        },
      )

  -- The agent after a lock that succeeded.
  lock_lem :
      (g : Agent)
      → g.locked ≡ false
      → (lock c r g (some password)).1 ≡ success
      → ((lock_encrypt c r g.accounts (some password)).1 ≡ true)
        × ((lock c r g (some password)).0 ≡ record g {
          accounts = (lock_encrypt c r g.accounts (some password)).0;
          hash = c.s256 password;
          locked = true;
        })
  unfolding lock lock_result hashed
  lock_lem g l ok = elim (Bool-cases (lock_encrypt c r g.accounts (some password)).1) [
    | inl e ↦ (e, simp (l, e, lock, lock_result) refl)
    | inr e ↦ absurd (failure (simp (l, e, lock, lock_result) at ok))
  ]
    where
      failure : ¬ (ecrypt ≡ success)
      failure e = cc

  unlock_lem :
      (g : Agent) (hash : Str) (s : Accounts)
      → c.s256 password ≡ some hash
      → (lock_decrypt c s (some password)).1 ≡ true
      → unlock c (record g { accounts = s; hash = c.s256 password; locked = true }) (some password)
        ≡ (
          record g {
            accounts = (lock_decrypt c s (some password)).0;
            hash = none;
            locked = false;
            fail_count = 0;
          },
          success,
        )
  unfolding unlock unlock_result hashed
  unlock_lem g hash s e ok =
      simp (e, ok, (strequal_iff (some hash) (some hash)).1 refl, unlock, unlock_result, hashed)
        refl

  -- If decryption inverts encryption, the password has a hash, no pointer is loaded twice and every
  -- loaded account has a client secret and secrets that are C strings whose lengths fit, then an agent
  -- that was locked with the password with success is unlocked with it: that succeeds, the agent is
  -- not locked any more, and the loaded accounts are as they were before the lock.
  pub unlock-lock :
      (g : Agent) (hash : Str)
      → g.locked ≡ false
      → c.s256 password ≡ some hash
      → NoDup g.accounts.loaded
      → AllLockable g.accounts
      → (lock c r g (some password)).1 ≡ success
      → let h = unlock c (lock c r g (some password)).0 (some password) in
        (h.1 ≡ success) × (h.0.locked ≡ false) × Restored g.accounts h.0.accounts
  unlock-lock g hash l e d v ok =
      let (done, after) = lock_lem g l ok in
      let (good, restored) = lock_decrypt-lock_encrypt g.accounts d v done in
      let opened =
        ap (λ g1. unlock c g1 (some password)) after
        ∙ unlock_lem g hash (lock_encrypt c r g.accounts (some password)).0 e good in
      (
        ap (λ (x : Agent × Outcome). x.1) opened,
        ap (λ (x : Agent × Outcome). x.0.locked) opened,
        subst (λ (x : Agent × Outcome). Restored g.accounts x.0.accounts) (sym opened) restored,
      )
