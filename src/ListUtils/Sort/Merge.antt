-- ===== src/ListUtils/Sort/Merge.antt =====
-- The merge of src/utils/listUtils.c writes the sorted union of two sorted runs over them.
use mathlib.Core.List.{append_assoc}
use mathlib.Core.List.Permᴰ
use mathlib.Core.List.Permᴰ.{Permᴰ}
use oidc_agent.Prelude.{
  ℕ, zero, suc, ◌+◌, ◌-◌, ◌≡◌, refl, sym, ap, ◌∙◌, subst, ◌≤◌, inl, inr, Bool, true, false, List,
  [], ◌∷◌, ◌++◌, arith, length, length-append, set, take, drop, All, All-append, All-imp, All-perm,
  Bool-cases,
}
use oidc_agent.ListUtils.Sort.{copy_rest, merge_loop, merge}

module _ {A : Type 0} (le : A → A → Bool) where
  abbrev pub Below : A → List A → Type 0
  Below x = All (λ y. le x y ≡ true)

  -- Ascending: every value is below all that follow it.
  abbrev pub IsSorted : List A → Type 0
  IsSorted [] = Unit
  IsSorted (x ∷ xs) = Below x xs × IsSorted xs

  -- What `comp` must be for a sort to make sense.
  pub record IsOrder : Type 0 where
    pub trans : (x y z : A) → le x y ≡ true → le y z ≡ true → le x z ≡ true
    pub total : (x y : A) → le x y ≡ false → le y x ≡ true

  pub merged : List A → List A → List A
  merged [] rs = rs
  merged (x ∷ ls) [] = x ∷ ls
  merged (x ∷ ls) (y ∷ rs) = elim (le x y) [
    | true ↦ x ∷ merged ls (y ∷ rs)
    | false ↦ y ∷ merged (x ∷ ls) rs
  ]

  merge_loop_lem :
      (ls rs : List A) (k : ℕ) (arr : List A)
      → merge_loop le ls rs k arr ≡ copy_rest (merged ls rs) k arr
  unfolding merge_loop merged
  merge_loop_lem [] rs k arr = refl
  merge_loop_lem (x ∷ ls) [] k arr = refl
  merge_loop_lem (x ∷ ls) (y ∷ rs) k arr = elim (Bool-cases (le x y)) [
    | inl e ↦ rw (e, merge_loop, merged) (merge_loop_lem ls (y ∷ rs) (k + 1) (set arr k x))
    | inr e ↦ rw (e, merge_loop, merged) (merge_loop_lem (x ∷ ls) rs (k + 1) (set arr k y))
  ]

  length-merged : (ls rs : List A) → length (merged ls rs) ≡ length ls + length rs
  unfolding merged
  length-merged [] rs = omega arith
  length-merged (x ∷ ls) [] = omega arith
  length-merged (x ∷ ls) (y ∷ rs) = elim (Bool-cases (le x y)) [
    | inl e ↦ rw (e, merged) (omega (arith, length-merged ls (y ∷ rs)))
    | inr e ↦ rw (e, merged) (omega (arith, length-merged (x ∷ ls) rs))
  ]

  pub merged-perm : (ls rs : List A) → Permᴰ (merged ls rs) (ls ++ rs)
  unfolding merged
  merged-perm [] rs = Permᴰ.refl rs
  merged-perm (x ∷ ls) [] = Permᴰ.cons refl (Permᴰ.symm (Permᴰ.append-nil ls))
  merged-perm (x ∷ ls) (y ∷ rs) = elim (Bool-cases (le x y)) [
    | inl e ↦ rw (e, merged) (Permᴰ.cons refl (merged-perm ls (y ∷ rs)))
    | inr e ↦
        rw (e, merged)
          (Permᴰ.trans (Permᴰ.cons refl (merged-perm (x ∷ ls) rs))
            (Permᴰ.symm (Permᴰ.middle y (x ∷ ls) rs)))
  ]

  module _ (o : IsOrder) where
    Below-trans : (x y : A) (l : List A) → le x y ≡ true → Below y l → Below x (y ∷ l)
    Below-trans x y l e h = (e, All-imp l (λ z. o.trans x y z e) h)

    Below-merged : (x : A) (ls rs : List A) → Below x ls → Below x rs → Below x (merged ls rs)
    Below-merged x ls rs h k = All-perm _ (Permᴰ.symm (merged-perm ls rs)) (All-append _ ls rs h k)

    pub merged-IsSorted : (ls rs : List A) → IsSorted ls → IsSorted rs → IsSorted (merged ls rs)
    unfolding merged
    merged-IsSorted [] rs h k = k
    merged-IsSorted (x ∷ ls) [] h k = h
    merged-IsSorted (x ∷ ls) (y ∷ rs) h k = elim (Bool-cases (le x y)) [
      | inl e ↦
          rw (e, merged)
            (
              Below-merged x ls (y ∷ rs) h.0 (Below-trans x y rs e k.0),
              merged-IsSorted ls (y ∷ rs) h.1 k,
            )
      | inr e ↦
          rw (e, merged)
            (
              Below-merged y (x ∷ ls) rs (Below-trans y x ls (o.total x y e) h.0) k.0,
              merged-IsSorted (x ∷ ls) rs h k.1,
            )
    ]

module _ {A : Type 0} where
  set_mid :
      (pre : List A) (o x : A) (post : List A)
      → set (pre ++ o ∷ post) (length pre) x ≡ pre ++ x ∷ post
  set_mid [] o x post = refl
  set_mid (p ∷ pre) o x post = ap (◌∷◌ p) (set_mid pre o x post)

  -- The copied values replace as many old ones and leave the rest of the array alone.
  copy_rest_lem :
      (pre ws old post : List A) (k : ℕ)
      → length pre ≡ k
      → length old ≡ length ws
      → copy_rest ws k (pre ++ (old ++ post)) ≡ pre ++ (ws ++ post)
  unfolding copy_rest
  copy_rest_lem pre [] [] post k hk h = refl
  copy_rest_lem pre [] (o ∷ old) post k hk h = absurd (omega arith)
  copy_rest_lem pre (x ∷ ws) [] post k hk h = absurd (omega arith)
  copy_rest_lem pre (x ∷ ws) (o ∷ old) post k hk h =
      rw (← hk, set_mid pre o x (old ++ post))
        (subst (λ l. copy_rest ws (length pre + 1) l ≡ pre ++ (x ∷ (ws ++ post)))
          (append_assoc pre (x ∷ []) (old ++ post))
          (copy_rest_lem (pre ++ x ∷ []) ws old post (length pre + 1)
              (length-append pre (x ∷ []) ∙ refl) (omega arith)
            ∙ append_assoc pre (x ∷ []) (ws ++ post)))

  pub take_mid :
      (pre xs post : List A) (n k : ℕ)
      → length pre ≡ k
      → length xs ≡ n
      → take n (drop k (pre ++ (xs ++ post))) ≡ xs
  take_mid [] [] post zero zero hk hn = refl
  take_mid [] (x ∷ xs) post (suc n) zero hk hn =
      ap (◌∷◌ x) (take_mid [] xs post n zero refl (omega arith))
  take_mid (p ∷ pre) xs post n (suc k) hk hn = take_mid pre xs post n k (omega arith) hn
  take_mid [] [] post (suc n) k hk hn = absurd (omega arith)
  take_mid [] (x ∷ xs) post zero k hk hn = absurd (omega arith)
  take_mid [] xs post n (suc k) hk hn = absurd (omega arith)
  take_mid (p ∷ pre) xs post n zero hk hn = absurd (omega arith)

  -- Between `l` and `r` lie two runs that meet at `m`; afterwards their union lies there.
  pub merge_lem :
      (le : A → A → Bool) (pre ls rs post : List A) (l m r : ℕ)
      → length pre ≡ l
      → l + length ls ≡ m + 1
      → m + length rs ≡ r
      → l ≤ m
      → merge le (pre ++ (ls ++ (rs ++ post))) l m r ≡ pre ++ (merged le ls rs ++ post)
  unfolding merge
  merge_lem le pre ls rs post l m r hl hm hr h =
      rw
        (
          take_mid pre ls (rs ++ post) (m - l + 1) l hl (omega arith),
          right,
          merge_loop_lem le ls rs l (pre ++ (ls ++ (rs ++ post))),
          ← append_assoc ls rs post,
        )
        (copy_rest_lem pre (merged le ls rs) (ls ++ rs) post l hl
          (length-append ls rs ∙ sym (length-merged le ls rs)))
    where
      right : take (r - m) (drop (m + 1) (pre ++ (ls ++ (rs ++ post)))) ≡ rs
      right = rw (← append_assoc pre ls (rs ++ post)) (
          take_mid (pre ++ ls) rs post (r - m) (m + 1) (omega (arith, length-append pre ls))
            (omega arith))
