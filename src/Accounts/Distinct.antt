-- ===== src/Accounts/Distinct.antt =====
-- Lists of pointers searched by name: at most one pointer of each name, and what removing and
-- appending do to the search.
use oidc_agent.Prelude.{
  ℕ, ◌≡◌, ◌≢◌, refl, sym, ◌↔◌, inl, inr, Bool, true, false, Option, none, some, List, [], ◌∷◌, ◌++◌,
  arith, find_first, remove_first, All, All-append, All-remove_first, if◌then◌else◌, Bool-cases,
}
use oidc_agent.Text.{Str}
use oidc_agent.Text.Laws.{strequal_iff}
use oidc_agent.Account.{match_strings}

pub match_strings_iff : (a b : Option Str) → (match_strings a b ≡ true) ↔ (a ≡ b)
unfolding match_strings
match_strings_iff none none = ground arith
match_strings_iff none (some b) = ground arith
match_strings_iff (some a) none = ground arith
match_strings_iff (some a) (some b) = strequal_iff (some a) (some b)

-- What is found, or else the last element if it passes the test.
abbrev pub or_last : Option ℕ → Bool → ℕ → Option ℕ
or_last none t p = if t then some p else none
or_last (some q) t p = some q

pub or_last_fails : (o : Option ℕ) (p : ℕ) → or_last o false p ≡ o
or_last_fails none p = refl
or_last_fails (some q) p = refl

module _ (f : ℕ → Option Str) where
  -- No two of the pointers have the same name.
  abbrev pub Distinct : List ℕ → Type 0
  Distinct [] = Unit
  Distinct (p ∷ ps) = All (λ q. f q ≢ f p) ps × Distinct ps

  abbrev pub named : Option Str → ℕ → Bool
  named n q = match_strings n (f q)

  pub Distinct-remove_first : (t : ℕ → Bool) (l : List ℕ) → Distinct l → Distinct (remove_first t l)
  Distinct-remove_first t [] h = tt
  Distinct-remove_first t (q ∷ l) h = elim (Bool-cases (t q)) [
    | inl e ↦ rw e h.1
    | inr e ↦ rw e (All-remove_first (λ r. f r ≢ f q) t l h.0, Distinct-remove_first t l h.1)
  ]

  pub Distinct-append :
      (l : List ℕ) (p : ℕ) → Distinct l → All (λ q. f q ≢ f p) l → Distinct (l ++ p ∷ [])
  Distinct-append [] p h k = (tt, tt)
  Distinct-append (q ∷ l) p h k =
      (All-append _ l (p ∷ []) h.0 (λ e. k.0 (sym e), tt), Distinct-append l p h.1 k.1)

  pub remove_first-absent :
      (n : Option Str) (l : List ℕ) → Distinct l → All (λ q. f q ≢ n) (remove_first (named n) l)
  remove_first-absent n [] h = tt
  remove_first-absent n (q ∷ l) h = elim (Bool-cases (named n q)) [
    | inl e ↦ let same = (match_strings_iff n (f q)).0 e in rw (e, same) h.0
    | inr e ↦ rw e (λ s. cc ((match_strings_iff n (f q)).1 (sym s)), remove_first-absent n l h.1)
  ]

  pub find_none :
      (n : Option Str) (l : List ℕ) → find_first (named n) l ≡ none → All (λ q. f q ≢ n) l
  find_none n [] h = tt
  find_none n (q ∷ l) h = elim (Bool-cases (named n q)) [
    | inl e ↦ cc (rw e at h)
    | inr e ↦ (λ s. cc ((match_strings_iff n (f q)).1 (sym s)), find_none n l (rw e at h))
  ]

  pub find_absent :
      (n : Option Str) (l : List ℕ) → All (λ q. f q ≢ n) l → find_first (named n) l ≡ none
  find_absent n [] h = refl
  find_absent n (q ∷ l) h = elim (Bool-cases (named n q)) [
    | inl e ↦ absurd (h.0 (sym ((match_strings_iff n (f q)).0 e)))
    | inr e ↦ rw e (find_absent n l h.1)
  ]

  pub find-append :
      (n : Option Str) (l : List ℕ) (p : ℕ)
      → find_first (named n) (l ++ p ∷ []) ≡ or_last (find_first (named n) l) (named n p) p
  find-append n [] p = refl
  find-append n (q ∷ l) p = ground (arith, find-append n l p)

  pub find-remove_ne :
      (m n : Option Str) (l : List ℕ)
      → m ≢ n
      → find_first (named m) (remove_first (named n) l) ≡ find_first (named m) l
  find-remove_ne m n [] h = refl
  find-remove_ne m n (q ∷ l) h =
      ground (arith, match_strings_iff m (f q), match_strings_iff n (f q), find-remove_ne m n l h)
