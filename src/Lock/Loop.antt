-- ===== src/Lock/Loop.antt =====
-- The loop over the loaded accounts, account by account, and locking and unlocking all of them.
use oidc_agent.Prelude.{
  ℕ, ◌≡◌, ◌≢◌, refl, sym, ap, ◌∙◌, inl, inr, Bool, true, List, [], ◌∷◌, ◌==◌, ==_iff, All, All-imp,
  Bool-cases,
}
use oidc_agent.Account.{Account}
use oidc_agent.Accounts.{Accounts, store}
use oidc_agent.Lock.{each_account}

-- No pointer is loaded twice.
abbrev pub NoDup : List ℕ → Type 0
NoDup [] = Unit
NoDup (p ∷ ps) = All (λ q. q ≢ p) ps × NoDup ps

store-here : (s : Accounts) (p : ℕ) (a : Account) → (store s p a).heap p ≡ a
unfolding store
store-here s p a = simp ((==_iff p p).1 refl) refl

store-other : (s : Accounts) (p q : ℕ) (a : Account) → q ≢ p → (store s p a).heap q ≡ s.heap q
unfolding store
store-other s p q a n = elim (Bool-cases (q == p)) [
  | inl e ↦ absurd (n ((==_iff q p).0 e))
  | inr e ↦ simp (e) refl
]

module _ (step : ℕ → Account → Account × Bool) where
  -- What a step that goes on does with the rest of the list.
  each-cons :
      (p : ℕ) (ps : List ℕ) (s : Accounts)
      → (step p (s.heap p)).1 ≡ true
      → each_account step (p ∷ ps) s ≡ each_account step ps (store s p (step p (s.heap p)).0)
  unfolding each_account
  each-cons p ps s e = simp (e, each_account) refl

  each-stops :
      (p : ℕ) (ps : List ℕ) (s : Accounts)
      → (each_account step (p ∷ ps) s).1 ≡ true
      → (step p (s.heap p)).1 ≡ true
  unfolding each_account
  each-stops p ps s ok = elim (Bool-cases (step p (s.heap p)).1) [
    | inl e ↦ e
    | inr e ↦ cc (simp (e, each_account) at ok)
  ]

  pub each-loaded : (l : List ℕ) (s : Accounts) → (each_account step l s).0.loaded ≡ s.loaded
  unfolding each_account store
  each-loaded [] s = refl
  each-loaded (p ∷ ps) s = elim (Bool-cases (step p (s.heap p)).1) [
    | inl e ↦ ap (λ (x : Accounts × Bool). x.0.loaded) (each-cons p ps s e) ∙ each-loaded ps _
    | inr e ↦ simp (e, each_account) refl
  ]

  each-other :
      (l : List ℕ) (s : Accounts) (q : ℕ)
      → All (λ p. q ≢ p) l
      → (each_account step l s).0.heap q ≡ s.heap q
  unfolding each_account
  each-other [] s q n = refl
  each-other (p ∷ ps) s q n = elim (Bool-cases (step p (s.heap p)).1) [
    | inl e ↦
        ap (λ (x : Accounts × Bool). x.0.heap q) (each-cons p ps s e)
        ∙ each-other ps _ q n.1
        ∙ store-other s p q _ n.0
    | inr e ↦ simp (e, each_account) (store-other s p q _ n.0)
  ]

  flip : (p : ℕ) (l : List ℕ) → All (λ q. q ≢ p) l → All (λ q. p ≢ q) l
  flip p l h = All-imp l (λ q n e. n (sym e)) h

  -- After a loop that succeeds, the step has succeeded on every account, and each holds its result.
  pub each-all :
      (l : List ℕ) (s : Accounts)
      → NoDup l
      → (each_account step l s).1 ≡ true
      → All
          (λ q.
            ((step q (s.heap q)).1 ≡ true)
            × ((each_account step l s).0.heap q ≡ (step q (s.heap q)).0))
          l
  each-all [] s d ok = tt
  each-all (p ∷ ps) s d ok =
      let e = each-stops p ps s ok in
      let first = each-cons p ps s e in
      let s1 = store s p (step p (s.heap p)).0 in
      let at_p =
        ap (λ (x : Accounts × Bool). x.0.heap p) first
        ∙ each-other ps s1 p (flip p ps d.0)
        ∙ store-here s p _ in
      (
        (e, at_p),
        later p ps s e ps d.0
            (each-all ps s1 d.1 (sym (ap (λ (x : Accounts × Bool). x.1) first) ∙ ok)),
      )
    where
      later :
          (p : ℕ) (ps : List ℕ) (s : Accounts)
          → (step p (s.heap p)).1 ≡ true
          → (l : List ℕ) → All (λ q. q ≢ p) l
          → (let s1 = store s p (step p (s.heap p)).0 in
              All
                (λ q.
                  ((step q (s1.heap q)).1 ≡ true)
                  × ((each_account step ps s1).0.heap q ≡ (step q (s1.heap q)).0))
                l)
          → All
              (λ q.
                ((step q (s.heap q)).1 ≡ true)
                × ((each_account step (p ∷ ps) s).0.heap q ≡ (step q (s.heap q)).0))
              l
      later p ps s e [] n h = tt
      later p ps s e (q ∷ l) n h =
          let same = store-other s p q (step p (s.heap p)).0 n.0 in
          let moved = ap (λ a. step q a) same in
          (
            (
              sym (ap (λ (x : Account × Bool). x.1) moved) ∙ h.0.0,
              ap (λ (x : Accounts × Bool). x.0.heap q) (each-cons p ps s e)
                  ∙ h.0.1
                  ∙ ap (λ (x : Account × Bool). x.0) moved,
            ),
            later p ps s e l n.1 h.1,
          )

  -- If the step succeeds on every account, so does the loop.
  pub each-succeeds :
      (l : List ℕ) (s : Accounts)
      → NoDup l
      → All (λ q. (step q (s.heap q)).1 ≡ true) l
      → (each_account step l s).1 ≡ true
  unfolding each_account
  each-succeeds [] s d h = refl
  each-succeeds (p ∷ ps) s d h =
      ap (λ (x : Accounts × Bool). x.1) (each-cons p ps s h.0)
      ∙ each-succeeds ps _ d.1 (later ps d.0 h.1)
    where
      later :
          (l : List ℕ)
          → All (λ q. q ≢ p) l
          → All (λ q. (step q (s.heap q)).1 ≡ true) l
          → All (λ q. (step q ((store s p (step p (s.heap p)).0).heap q)).1 ≡ true) l
      later [] n k = tt
      later (q ∷ l) n k = (
        ap (λ a. (step q a).1) (store-other s p q (step p (s.heap p)).0 n.0) ∙ k.0,
        later l n.1 k.1,
      )
