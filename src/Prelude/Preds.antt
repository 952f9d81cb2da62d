-- ===== src/Prelude/Preds.antt =====
-- Predicates over lists by recursion, which the tactics read, and the scan for a first match.
use mathlib.Core.Path.{◌≡◌, subst}
use mathlib.Core.Logic.{◌⊎◌, ◌↔◌, inl, inr}
use mathlib.Core.Bool.{Bool, true, false}
use mathlib.Core.List.{List, [], ◌∷◌, ◌++◌}
use mathlib.Core.List.Permᴰ.{Permᴰ}
use mathlib.Core.Option.{Option, none, some}
use native.Mathlib.Omega.{arith}
use oidc_agent.Prelude.Tests.{Bool-cases, if◌then◌else◌}

module _ {ℓ} {A : Type ℓ} where
  -- Every element satisfies `P`.
  abbrev pub All {κ} : (A → Type κ) → List A → Type κ
  All P [] = Unit
  All P (x ∷ xs) = P x × All P xs

  pub All-append {κ} : (P : A → Type κ) (xs ys : List A) → All P xs → All P ys → All P (xs ++ ys)
  All-append P [] ys hx hy = hy
  All-append P (x ∷ xs) ys hx hy = (hx.0, All-append P xs ys hx.1 hy)

  pub All-imp {κ κ'} :
      {P : A → Type κ} {Q : A → Type κ'} (xs : List A) → ((x : A) → P x → Q x) → All P xs → All Q xs
  All-imp [] f h = tt
  All-imp (x ∷ xs) f h = (f x h.0, All-imp xs f h.1)

  pub All-perm {κ} : (P : A → Type κ) {xs ys : List A} → Permᴰ xs ys → All P xs → All P ys
  All-perm P Permᴰ.nil h = tt
  All-perm P (Permᴰ.cons e p) h = (subst P e h.0, All-perm P p h.1)
  All-perm P (Permᴰ.swap e f) h = (subst P f h.1.0, (subst P e h.0, h.1.1))
  All-perm P (Permᴰ.trans p q) h = All-perm P q (All-perm P p h)

  -- Some element passes the test.
  abbrev pub has : (A → Bool) → List A → Bool
  has p [] = false
  has p (x ∷ xs) = if p x then true else has p xs

  -- The first element that passes the test.
  abbrev pub find_first : (A → Bool) → List A → Option A
  find_first p [] = none
  find_first p (x ∷ xs) = if p x then some x else find_first p xs

  -- The list without the first element that passes the test.
  abbrev pub remove_first : (A → Bool) → List A → List A
  remove_first p [] = []
  remove_first p (x ∷ xs) = if p x then xs else x ∷ remove_first p xs

module _ {ℓ} {A : Type ℓ} where
  pub All-remove_first {κ} :
      (P : A → Type κ) (t : A → Bool) (l : List A) → All P l → All P (remove_first t l)
  All-remove_first P t [] h = tt
  All-remove_first P t (q ∷ l) h = elim (Bool-cases (t q)) [
    | inl e ↦ rw e h.1
    | inr e ↦ rw e (h.0, All-remove_first P t l h.1)
  ]

  -- What all elements have, the one that is found has.
  pub All-find_first {κ} :
      (P : A → Type κ) (t : A → Bool) (l : List A) (x : A) → All P l → find_first t l ≡ some x → P x
  All-find_first P t [] x h e = cc
  All-find_first P t (q ∷ l) x h e = elim (Bool-cases (t q)) [
    | inl k ↦ let same : some q ≡ some x = rw k at e in let here : q ≡ x = cc in subst P here h.0
    | inr k ↦ All-find_first P t l x h.1 (rw k at e)
  ]

module _ {A : Type 0} where
  -- Membership, with the place.
  abbrev pub In : A → List A → Type 0
  In x [] = ⊥
  In x (y ∷ ys) = (x ≡ y) ⊎ In x ys

  pub In-append : (x : A) (xs ys : List A) → In x (xs ++ ys) ↔ (In x xs ⊎ In x ys)
  In-append x [] ys = (inr, elim [ inl h ↦ absurd h | inr h ↦ h ])
  In-append x (z ∷ xs) ys = ground (arith, In-append x xs ys)
