-- ===== src/Lock/Laws.antt =====
-- When the agent stays locked.
use oidc_agent.Prelude.{
  ℕ, ◌+◌, ◌*◌, ◌≤◌, ◌<◌, ◌⊎◌, ◌≡◌, ◌≢◌, refl, subst, inl, inr, Bool, true, false, Option, none,
  List, [], ◌∷◌, ◌==◌, ==_iff, arith, In, Bool-cases, if◌then◌else◌, ltb,
}
use oidc_agent.Text.{Str, strequal}
use oidc_agent.Account.{Account}
use oidc_agent.Accounts.{Accounts, store}
use oidc_agent.Lock.{
  PasswordCrypt, Agent, success, epass, ecrypt, each_account, unlock_account, lock_decrypt,
  unlock_result, unlock, hashed, wrong_password,
}
use native.Mathlib.Nat.{mul-le-mul, mul-le-mul_left}

module _ (c : PasswordCrypt) where
  unlock_account-no_secret :
      (password : Option Str) (a : Account)
      → a.client_secret ≡ none
      → (unlock_account c password a).1 ≡ false
  unfolding unlock_account
  unlock_account-no_secret password a e = ground arith

  -- A stage of the loop fails when it fails itself or the rest does.
  stage_fails :
      (b : Bool) (x : Accounts × Bool) (s : Accounts)
      → (b ≡ true → x.1 ≡ false)
      → (if b then x else (s, false)).1 ≡ false
  stage_fails true x s h = h refl
  stage_fails false x s h = refl

  no_stage :
      (password : Option Str) (s : Accounts) (p q : ℕ)
      → p ≡ q
      → (s.heap p).client_secret ≡ none
      → ¬ ((unlock_account c password (s.heap q)).1 ≡ true)
  no_stage password s p q same e ok =
      let failed = unlock_account-no_secret password (s.heap p) e in
      let there = subst (λ x. (unlock_account c password (s.heap x)).1 ≡ false) same failed in
      ground arith

  other_account :
      (s : Accounts) (p q : ℕ) (a : Account)
      → (p == q) ≡ false
      → (s.heap p).client_secret ≡ none
      → ((store s q a).heap p).client_secret ≡ none
  unfolding store
  other_account s p q a n e = rw (n) e

  each_account_fails :
      (password : Option Str) (l : List ℕ) (s : Accounts) (p : ℕ)
      → In p l
      → (s.heap p).client_secret ≡ none
      → (each_account (λ q. unlock_account c password) l s).1 ≡ false
  unfolding each_account
  each_account_fails password [] s p i e = absurd i
  each_account_fails password (q ∷ l) s p i e =
      stage_fails (unlock_account c password (s.heap q)).1 _ _ (λ ok. elim (Bool-cases (p == q)) [
        | inl y ↦ absurd (no_stage password s p q ((==_iff p q).0 y) e ok)
        | inr n ↦ elim i [
          | inl same ↦ absurd (no_stage password s p q same e ok)
          | inr later ↦ each_account_fails password l _ p later (other_account s p q _ n e)
        ]
      ])

error_is_no_success : ecrypt ≢ success
error_is_no_success h = ground arith

unlock_result-failed :
    (c : PasswordCrypt) (g : Agent) (r : Accounts × Bool)
    → r.1 ≡ false
    → g.locked ≡ true
    → ((unlock_result c g r).0.locked ≡ true) × ((unlock_result c g r).1 ≢ success)
unfolding unlock_result
unlock_result-failed c g (s, true) e locked = ground arith
unlock_result-failed c g (s, false) e locked = (locked, λ h. absurd (error_is_no_success h))

wrong_password-locked :
    (c : PasswordCrypt) (g : Agent)
    → ((wrong_password c g).0.locked ≡ g.locked) × ((wrong_password c g).1 ≢ success)
unfolding wrong_password
wrong_password-locked c g = (refl, λ h. ground arith)

square_bound : (n : ℕ) → n ≤ 25 → 100 * n * n ≤ 62500
square_bound n h = mul-le-mul (mul-le-mul_left 100 h) h

next_count :
    (n : ℕ)
    → n ≤ 25
    → let k = if ltb n 25 then n + 1 else n in
      (((n < 25) × (k ≡ n + 1)) ⊎ ((n ≡ 25) × (k ≡ 25))) × (k ≤ 25)
next_count n h = ground arith

-- While an account without a client secret is loaded, a locked agent stays locked, whatever the
-- password: unlock reports an error.
pub unlock-stays_locked :
    (c : PasswordCrypt) (g : Agent) (password : Option Str) (p : ℕ)
    → g.locked ≡ true
    → In p g.accounts.loaded
    → (g.accounts.heap p).client_secret ≡ none
    → ((unlock c g password).0.locked ≡ true) × ((unlock c g password).1 ≢ success)
unfolding unlock lock_decrypt
unlock-stays_locked c g password p locked i e =
    let failed = each_account_fails c password g.accounts.loaded g.accounts p i e in
    let guess = wrong_password-locked c g in
    simp (locked) (elim (Bool-cases (strequal g.hash (hashed c password))) [
      | inl right ↦ simp (right) (unlock_result-failed c g _ failed locked)
      | inr wrong ↦ simp (wrong) (refl, guess.1)
    ])

-- A wrong password, where at most 25 failures are counted, is reported, changes no account and
-- leaves the agent locked with its hash. The counter of failures is one more where it was less than
-- 25, and stays 25 where it was 25; the delay is 100 ms times the square of the new counter, at
-- most 62.5 s.
pub unlock-wrong_password :
    (c : PasswordCrypt) (g : Agent) (password : Option Str)
    → g.locked ≡ true
    → strequal g.hash (hashed c password) ≡ false
    → g.fail_count ≤ 25
    → let after = (unlock c g password).0 in
      ((unlock c g password).1 ≡ epass)
      × (after.accounts ≡ g.accounts)
      × (after.locked ≡ true)
      × (after.hash ≡ g.hash)
      × (((g.fail_count < 25) × (after.fail_count ≡ g.fail_count + 1))
          ⊎ ((g.fail_count ≡ 25) × (after.fail_count ≡ 25)))
      × (after.delay ≡ 100 * after.fail_count * after.fail_count)
      × (after.delay ≤ 62500)
unfolding unlock wrong_password
unlock-wrong_password c g password locked wrong bound =
    simp (locked, wrong)
      (let n = next_count g.fail_count bound in
        (refl, refl, refl, refl, n.0, refl, square_bound _ n.1))
