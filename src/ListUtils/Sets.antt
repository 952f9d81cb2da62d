-- ===== src/ListUtils/Sets.antt =====
-- The lists of src/utils/listUtils.c read as sets.
use mathlib.Core.List.{append-nil, append_assoc}
use oidc_agent.Prelude.{
  ◌≡◌, refl, sym, ◌↔◌, ◌⊎◌, ◌∙◌, ap, subst, inl, inr, Bool, true, false, Option, none, some, List,
  [], ◌∷◌, ◌++◌, arith, In, In-append, find_first, Option-cases, Bool-cases,
}
use oidc_agent.ListUtils.{
  CList, is_none, keep_if, push_loop, matches, intersect_lists, merge_lists, subtract_lists,
}

-- What a loop pushes, apart from what it starts with.
module _ {A : Type 0} (f : A → Option A) where
  gather : List A → List A
  gather [] = []
  gather (x ∷ xs) = elim (f x) [ none ↦ gather xs | some y ↦ y ∷ gather xs ]

  push_loop-eq-gather : (l xs : List A) → push_loop f l xs ≡ l ++ gather xs
  unfolding push_loop gather
  push_loop-eq-gather l [] = sym (append-nil l)
  push_loop-eq-gather l (x ∷ xs) = elim (Option-cases (f x)) [
    | inl e ↦ rw (e, push_loop, gather) (push_loop-eq-gather l xs)
    | inr (y, e) ↦
        rw (e, push_loop, gather)
          (push_loop-eq-gather (l ++ y ∷ []) xs ∙ append_assoc l (y ∷ []) (gather xs))
  ]

  In_of_gather : (y : A) (xs : List A) → In y (gather xs) → (x : A) × In x xs × (f x ≡ some y)
  unfolding gather
  In_of_gather y [] h = absurd h
  In_of_gather y (x ∷ xs) h = elim (Option-cases (f x)) [
    | inl e ↦ let (z, i, p) = In_of_gather y xs (rw (e, gather) at h) in (z, inr i, p)
    | inr (w, e) ↦ pick w e (rw (e, gather) at h) (In_of_gather y xs)
  ]
    where
      pick :
          (w : A)
          → f x ≡ some w
          → (y ≡ w) ⊎ In y (gather xs)
          → (In y (gather xs) → (z : A) × In z xs × (f z ≡ some y))
          → (z : A) × In z (x ∷ xs) × (f z ≡ some y)
      pick w e (inl q) ih = (x, inl refl, cc)
      pick w e (inr i) ih = let (z, j, p) = ih i in (z, inr j, p)

  In-gather : (x y : A) (xs : List A) → In x xs → f x ≡ some y → In y (gather xs)
  unfolding gather
  In-gather x y [] h e = absurd h
  In-gather x y (z ∷ xs) (inl q) e = ground arith
  In-gather x y (z ∷ xs) (inr i) e = ground (arith, In-gather x y xs i e)

gather-some : {A : Type 0} (xs : List A) → gather (λ x. some x) xs ≡ xs
unfolding gather
gather-some [] = refl
gather-some (x ∷ xs) = ap (◌∷◌ x) (gather-some xs)

-- The list's match function decides equality of values.
abbrev pub IsExact : {A : Type 0} → (A → A → Bool) → CList A → Type 0
IsExact {A} same l = (x y : A) → (matches same l x y ≡ true) ↔ (x ≡ y)

module _ {A : Type 0} (m : A → A → Bool) (exact : (x y : A) → (m x y ≡ true) ↔ (x ≡ y)) where
  find_some : (v y : A) (xs : List A) → find_first (m v) xs ≡ some y → (v ≡ y) × In y xs
  find_some v y [] h = cc
  find_some v y (x ∷ xs) h = ground (arith, exact v x, find_some v y xs)

  find_in : (v : A) (xs : List A) → In v xs → find_first (m v) xs ≡ some v
  find_in v [] h = absurd h
  find_in v (x ∷ xs) h = ground (arith, exact v x, find_in v xs)

module _ {A : Type 0} (m : A → A → Bool) (exact : (x y : A) → (m x y ≡ true) ↔ (x ≡ y)) where
  found : (v : A) (xs : List A) → is_none (find_first (m v) xs) ≡ false → In v xs
  found v [] h = cc
  found v (x ∷ xs) h = ground (arith, exact v x, found v xs)

  find_none : (v : A) (xs : List A) → is_none (find_first (m v) xs) ≡ true ↔ ¬ (In v xs)
  find_none v xs = elim (Option-cases (find_first (m v) xs)) [
    | inl e ↦ (λ _ i. cc (find_in m exact v xs i), λ _. rw e)
    | inr (y, e) ↦
        let (q, i) = find_some m exact v y xs e in
        (λ h. cc, λ n. absurd (n (subst (λ z. In z xs) (sym q) i)))
  ]

  In-dec : (v : A) (xs : List A) → Dec (In v xs)
  In-dec v xs = elim (Bool-cases (is_none (find_first (m v) xs))) [
    | inl e ↦ no ((find_none v xs).0 e)
    | inr e ↦ yes (found v xs e)
  ]

  keep_absent :
      (x y : A) (xs : List A)
      → keep_if (is_none (find_first (m x) xs)) x ≡ some y
      → (x ≡ y) × ¬ (In x xs)
  keep_absent x y xs h = elim (Bool-cases (is_none (find_first (m x) xs))) [
    | inl e ↦ (cc, (find_none x xs).0 e)
    | inr e ↦ cc
  ]

  keeps_absent :
      (x : A) (xs : List A) → ¬ (In x xs) → keep_if (is_none (find_first (m x) xs)) x ≡ some x
  keeps_absent x xs n = rw ((find_none x xs).1 n)

module _ {A : Type 0} (same : A → A → Bool) (a b : CList A) where
  -- Where the match function of `b` decides equality, the difference holds exactly the
  -- values of `a` that are not in `b`.
  pub subtract_lists-In :
      IsExact same b
      → (x : A) → In x (subtract_lists same a (some b)).vals ↔ (In x a.vals × ¬ (In x b.vals))
  unfolding subtract_lists
  subtract_lists-In eb x = (to, from)
    where
      absent : A → Option A
      absent y = keep_if (is_none (find_first (matches same b y) b.vals)) y

      to : In x (push_loop absent [] a.vals) → In x a.vals × ¬ (In x b.vals)
      to h =
          let (y, i, e) =
            In_of_gather absent x a.vals (rw (push_loop-eq-gather absent [] a.vals) at h) in
          let (q, n) = keep_absent (matches same b) eb y x b.vals e in
          (subst (λ z. In z a.vals) q i, subst (λ z. ¬ (In z b.vals)) q n)

      from : In x a.vals × ¬ (In x b.vals) → In x (push_loop absent [] a.vals)
      from (i, n) =
          rw (push_loop-eq-gather absent [] a.vals)
            (In-gather absent x x a.vals i (keeps_absent (matches same b) eb x b.vals n))

  -- Where the match function of `b` decides equality, the intersection holds exactly the values that
  -- are in both lists.
  pub intersect_lists-In :
      IsExact same b
      → (x : A) → In x (intersect_lists same a (some b)).vals ↔ (In x a.vals × In x b.vals)
  unfolding intersect_lists
  intersect_lists-In eb x = (to, from)
    where
      common : A → Option A
      common y = find_first (matches same b y) b.vals

      to : In x (push_loop common [] a.vals) → In x a.vals × In x b.vals
      to h =
          let (y, i, e) =
            In_of_gather common x a.vals (rw (push_loop-eq-gather common [] a.vals) at h) in
          let (q, n) = find_some (matches same b) eb y x b.vals e in
          (subst (λ z. In z a.vals) q i, n)

      from : In x a.vals × In x b.vals → In x (push_loop common [] a.vals)
      from (i, n) =
          rw (push_loop-eq-gather common [] a.vals)
            (In-gather common x x a.vals i (find_in (matches same b) eb x b.vals n))

  -- Where the match function of `a` decides equality, the union holds exactly the values that are in
  -- one of the lists.
  pub merge_lists-In :
      IsExact same a → (x : A) → In x (merge_lists same a b).vals ↔ (In x a.vals ⊎ In x b.vals)
  unfolding merge_lists
  merge_lists-In ea x = (to, from)
    where
      absent : A → Option A
      absent y = keep_if (is_none (find_first (matches same a y) a.vals)) y

      copied : push_loop (λ y. some y) [] a.vals ≡ a.vals
      copied = push_loop-eq-gather (λ y. some y) [] a.vals ∙ gather-some a.vals

      to :
          In x (push_loop absent (push_loop (λ y. some y) [] a.vals) b.vals)
          → In x a.vals ⊎ In x b.vals
      to h =
          elim ((In-append x a.vals (gather absent b.vals)).0
            (rw (copied, push_loop-eq-gather absent a.vals b.vals) at h)) [
              | inl i ↦ inl i
              | inr i ↦
                  let (y, j, e) = In_of_gather absent x b.vals i in
                  inr (subst (λ z. In z b.vals) (keep_absent (matches same a) ea y x a.vals e).0 j)
            ]

      new : In x b.vals → ¬ (In x a.vals) → In x (gather absent b.vals)
      new j n = In-gather absent x x b.vals j (keeps_absent (matches same a) ea x a.vals n)

      from :
          In x a.vals ⊎ In x b.vals
          → In x (push_loop absent (push_loop (λ y. some y) [] a.vals) b.vals)
      from h =
          rw (copied, push_loop-eq-gather absent a.vals b.vals)
            ((In-append x a.vals (gather absent b.vals)).1
              (elim (In-dec (matches same a) ea x a.vals) [
                | yes i ↦ inl i
                | no n ↦ elim h [ inl i ↦ inl i | inr j ↦ inr (new j n) ]
              ]))
