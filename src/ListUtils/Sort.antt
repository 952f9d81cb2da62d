-- ===== src/ListUtils/Sort.antt =====
-- The merge sort of src/utils/listUtils.c over an array of values. `le x y` stands for `comp(x, y) <= 0`.
-- The recursion of mergeSort takes fuel; `none` means that it ran out.
pub mod Merge
pub mod Correct
use oidc_agent.Prelude.{
  ℕ, zero, suc, ◌+◌, ◌-◌, ◌/◌, Bool, true, false, Option, none, some, List, [], ◌∷◌, ltb, length,
  set, take, drop, if◌then◌else◌, ◌>>=◌,
}
use oidc_agent.ListUtils.{CList}

-- `while (i < n) { arr[k] = ...; i++; k++; }`
pub copy_rest {ℓ} : {A : Type ℓ} → List A → ℕ → List A → List A
copy_rest [] k arr = arr
copy_rest (x ∷ xs) k arr = copy_rest xs (k + 1) (set arr k x)

module _ {ℓ} {A : Type ℓ} (le : A → A → Bool) where
  -- `while (i < n1 && j < n2)`, then the two loops for what is left. `L` and `R` are the values of
  -- the temporary arrays from `i` and from `j` on.
  pub merge_loop : List A → List A → ℕ → List A → List A
  unfolding copy_rest
  merge_loop [] rs k arr = copy_rest rs k arr
  merge_loop (x ∷ ls) [] k arr = copy_rest (x ∷ ls) k arr
  merge_loop (x ∷ ls) (y ∷ rs) k arr = elim (le x y) [
    | true ↦ merge_loop ls (y ∷ rs) (k + 1) (set arr k x)
    | false ↦ merge_loop (x ∷ ls) rs (k + 1) (set arr k y)
  ]

  pub merge : List A → ℕ → ℕ → ℕ → List A
  unfolding merge_loop
  merge arr l m r =
      merge_loop (take (m - l + 1) (drop l arr)) (take (r - m) (drop (m + 1) arr)) l arr

  pub merge_sort : ℕ → List A → ℕ → ℕ → Option (List A)
  unfolding merge
  merge_sort zero arr l r = none
  merge_sort (suc fuel) arr l r = elim (ltb l r) [
    | true ↦ do
      let m = l + (r - l) / 2
      left ← merge_sort fuel arr l m
      both ← merge_sort fuel left (m + 1) r
      some (merge both l m r)
    | false ↦ some arr
  ]

  -- The array is as long as the list, and so is the fuel.
  pub list_merge_sort : CList A → Option (CList A)
  unfolding merge_sort
  list_merge_sort l = if ltb (length l.vals) 2 then some l else do
    arr ← merge_sort (length l.vals) l.vals 0 (length l.vals - 1)
    some (record l { vals = arr })
