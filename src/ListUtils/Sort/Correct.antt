-- ===== src/ListUtils/Sort/Correct.antt =====
-- The merge sort of src/utils/listUtils.c sorts, and its fuel suffices.
use mathlib.Core.List.{append_assoc, append-nil}
use mathlib.Core.List.Permᴰ
use mathlib.Core.List.Permᴰ.{Permᴰ}
use oidc_agent.Prelude.{
  ℕ, zero, suc, ◌+◌, ◌-◌, ◌/◌, ◌<◌, ◌≤◌, ◌≡◌, refl, ap, ◌∙◌, inl, inr, Bool, true, false, some,
  List, [], ◌∷◌, ◌++◌, arith, length, length-append, length-take, length-drop, take, drop,
  take-append-drop, ltb, Bool-cases, subst,
}
use oidc_agent.ListUtils.{CList}
use oidc_agent.ListUtils.Sort.{merge_sort, list_merge_sort}
use oidc_agent.ListUtils.Sort.Merge.{
  IsOrder, IsSorted, merged, merged-perm, merged-IsSorted, merge_lem,
}

length-perm {ℓ} : {A : Type ℓ} {xs ys : List A} → Permᴰ xs ys → length xs ≡ length ys
length-perm Permᴰ.nil = refl
length-perm (Permᴰ.cons e p) = ap suc (length-perm p)
length-perm (Permᴰ.swap e f) = refl
length-perm (Permᴰ.trans p q) = length-perm p ∙ length-perm q

module _ {A : Type 0} (le : A → A → Bool) (o : IsOrder le) where
  -- A sorted rearrangement of `seg`, which the sort leaves between `pre` and `post`.
  record Sorts (fuel : ℕ) (pre seg post : List A) (l r : ℕ) : Type 0 where
    out : List A
    runs : merge_sort le fuel (pre ++ (seg ++ post)) l r ≡ some (pre ++ (out ++ post))
    perm : Permᴰ out seg
    sorted : IsSorted le out

  short : (seg : List A) → length seg ≤ 1 → IsSorted le seg
  short [] h = tt
  short (x ∷ []) h = (tt, tt)
  short (x ∷ y ∷ seg) h = absurd (omega arith)

  -- Two sorted halves and their merge.
  join :
      (fuel : ℕ) (pre s1 s2 post : List A) (l r : ℕ)
      → ltb l r ≡ true
      → length pre ≡ l
      → length s1 ≡ (r - l) / 2 + 1
      → l + (r - l) / 2 + length s2 ≡ r
      → (first : Sorts fuel pre s1 (s2 ++ post) l (l + (r - l) / 2))
      → Sorts fuel (pre ++ first.out) s2 post (l + (r - l) / 2 + 1) r
      → Sorts (suc fuel) pre (s1 ++ s2) post l r
  unfolding merge_sort
  join fuel pre s1 s2 post l r e hl h1 h2 first second = record {
    out = merged le first.out second.out;
    runs =
        rw
          (
            e,
            merge_sort,
            append_assoc s1 s2 post,
            first.runs,
            ← append_assoc pre first.out (s2 ++ post),
            second.runs,
            append_assoc pre first.out (second.out ++ post),
          )
          (ap some (
            merge_lem le pre first.out second.out post l (l + (r - l) / 2) r hl
              (omega (arith, length-perm first.perm)) (omega (arith, length-perm second.perm))
              (omega arith)));
    perm =
        Permᴰ.trans (merged-perm le first.out second.out) (
          Permᴰ.trans (Permᴰ.append_right second.out first.perm)
            (Permᴰ.append_left s1 second.perm));
    sorted = merged-IsSorted le o first.out second.out first.sorted second.sorted;
  }

  merge_sort-Sorts :
      (fuel : ℕ) (pre seg post : List A) (l r : ℕ)
      → length pre ≡ l
      → l + length seg ≡ r + 1
      → length seg ≤ fuel
      → 0 < length seg
      → Sorts fuel pre seg post l r
  unfolding merge_sort
  merge_sort-Sorts zero pre seg post l r hl hr hf h = absurd (omega arith)
  merge_sort-Sorts (suc fuel) pre seg post l r hl hr hf h = elim (Bool-cases (ltb l r)) [
    | inl e ↦
        let n = (r - l) / 2 in
        let first =
          merge_sort-Sorts fuel pre (take (n + 1) seg) (drop (n + 1) seg ++ post) l (l + n) hl
            (ground (arith, length-take (n + 1) seg)) (ground (arith, length-take (n + 1) seg))
            (ground (arith, length-take (n + 1) seg)) in
        let second =
          merge_sort-Sorts fuel (pre ++ first.out) (drop (n + 1) seg) post (l + n + 1) r
            (ground
              (arith, length-append pre first.out, length-perm first.perm, length-take (n + 1) seg))
            (ground (arith, length-drop (n + 1) seg)) (ground (arith, length-drop (n + 1) seg))
            (ground (arith, length-drop (n + 1) seg)) in
        subst (λ s. Sorts (suc fuel) pre s post l r) (take-append-drop (n + 1) seg)
          (join fuel pre (take (n + 1) seg) (drop (n + 1) seg) post l r e hl
            (ground (arith, length-take (n + 1) seg)) (ground (arith, length-drop (n + 1) seg))
            first second)
    | inr e ↦ record {
      out = seg;
      runs = rw (e, merge_sort) refl;
      perm = Permᴰ.refl seg;
      sorted = short seg (ground arith);
    }
  ]

  finish :
      (l : CList A)
      → ltb (length l.vals) 2 ≡ false
      → Sorts (length l.vals) [] l.vals [] 0 (length l.vals - 1)
      → (out : CList A) × (list_merge_sort le l ≡ some out)
        × Permᴰ out.vals l.vals
        × IsSorted le out.vals
  unfolding list_merge_sort
  finish l e s =
      let runs : merge_sort le (length l.vals) l.vals 0 (length l.vals - 1) ≡ some s.out =
        rw (append-nil l.vals, append-nil s.out) at s.runs in
      (record l { vals = s.out }, rw (e, runs), s.perm, s.sorted)

  -- For a total transitive order sorting ends, with fuel for every recursion, in an ascending
  -- rearrangement of the list.
  pub list_merge_sort-IsSorted :
      (l : CList A)
      → (out : CList A) × (list_merge_sort le l ≡ some out)
        × Permᴰ out.vals l.vals
        × IsSorted le out.vals
  unfolding list_merge_sort
  list_merge_sort-IsSorted l = elim (Bool-cases (ltb (length l.vals) 2)) [
    | inl e ↦ (l, rw e, Permᴰ.refl l.vals, short l.vals (ground arith))
    | inr e ↦ finish l e (
        merge_sort-Sorts (length l.vals) [] l.vals [] 0 (length l.vals - 1) refl (ground arith)
          (omega arith) (ground arith))
  ]
