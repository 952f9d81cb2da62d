-- ===== src/ListUtils.antt =====
-- src/utils/listUtils.c: the helpers over `list_t`. The vendored list is a sequence of values with an
-- optional match function; without one the code compares pointers, which is the parameter `same`.
pub mod Sets
pub mod Sort
pub mod Delimited
mod Examples
use oidc_agent.Prelude.{
  ℕ, zero, suc, Bool, true, false, Option, none, some, List, [], ◌∷◌, ◌++◌, ◌==◌, ltb, length,
  find_first, remove_first, if◌then◌else◌,
}

pub record CList {ℓ} (A : Type ℓ) : Type ℓ where
  pub match : Option (A → A → Bool)
  pub vals : List A

module _ {ℓ} {A : Type ℓ} where
  abbrev pub is_none : Option A → Bool
  is_none none = true
  is_none (some x) = false

  abbrev keep_if : Bool → A → Option A
  keep_if b x = if b then some x else none

  -- The iterator loops: each visited value adds at most one value to the end of `l`.
  pub push_loop : (A → Option A) → List A → List A → List A
  push_loop f l [] = l
  push_loop f l (x ∷ xs) = push_loop f (elim (f x) [ none ↦ l | some y ↦ l ++ y ∷ [] ]) xs

module _ {ℓ} {A : Type ℓ} (same : A → A → Bool) where
  -- The test of `list_find` for the value `v`.
  abbrev pub matches : CList A → A → A → Bool
  matches l v x = elim (l.match) [ none ↦ same v x | some m ↦ m v x ]

  unfoldable pub find_in_list : Option (CList A) → A → Option A
  find_in_list none v = none
  find_in_list (some l) v = find_first (matches l v) l.vals

  -- The loop over `i < limit`, which stops at the end of the list by the bound on `limit`.
  pub scan_until : ℕ → (A → Bool) → List A → Option A
  scan_until zero p xs = none
  scan_until (suc n) p [] = none
  scan_until (suc n) p (x ∷ xs) = let rest = scan_until n p xs in if p x then some x else rest

  unfoldable pub find_in_list_until : Option (CList A) → ℕ → A → Option A
  unfolding scan_until
  find_in_list_until none limit v = none
  find_in_list_until (some l) limit v =
      scan_until (if ltb (length l.vals) limit then length l.vals else limit) (matches l v) l.vals

  unfoldable pub list_valid : Option (CList A) → Bool
  list_valid none = false
  list_valid (some l) = if length l.vals == 0 then false else true

  unfoldable pub find_all_in_list : Option (CList A) → Option A → Option (CList A)
  unfolding push_loop list_valid
  find_all_in_list none v = none
  find_all_in_list (some l) none = none
  find_all_in_list (some l) (some v) =
      let founds : CList A = record {
        match = l.match;
        vals = push_loop (λ x. keep_if (matches l v x) x) [] l.vals;
      } in
      if list_valid (some founds) then some founds else none

  -- `list_remove` of the node that `findInList` gives.
  unfoldable pub list_remove_if_found : Option (CList A) → Option A → Option (CList A)
  list_remove_if_found none v = none
  list_remove_if_found (some l) none = some l
  list_remove_if_found (some l) (some v) =
      some (record l { vals = remove_first (matches l v) l.vals })

  unfoldable pub intersect_lists : CList A → Option (CList A) → CList A
  unfolding push_loop find_in_list
  intersect_lists a b = record {
    match = a.match;
    vals = push_loop (λ x. find_in_list b x) [] a.vals;
  }

  unfoldable pub copy_list : CList A → CList A
  unfolding push_loop
  copy_list a = record { match = a.match; vals = push_loop (λ x. some x) [] a.vals }

  -- The value `x` is looked up in `a`, not in the list that grows.
  unfoldable pub merge_lists : CList A → CList A → CList A
  unfolding push_loop find_in_list copy_list
  merge_lists a b = record (copy_list a) {
    vals = push_loop (λ x. keep_if (is_none (find_in_list (some a) x)) x) (copy_list a).vals b.vals;
  }

  unfoldable pub subtract_lists : CList A → Option (CList A) → CList A
  unfolding push_loop find_in_list
  subtract_lists a b = record {
    match = a.match;
    vals = push_loop (λ x. keep_if (is_none (find_in_list b x)) x) [] a.vals;
  }

  unfoldable pub list_add_string_if_not_found : Option (CList A) → Option A → Option (CList A)
  unfolding find_in_list
  list_add_string_if_not_found none v = none
  list_add_string_if_not_found (some l) none = some l
  list_add_string_if_not_found (some l) (some v) =
      if is_none (find_in_list (some l) v)
      then some (record l { vals = l.vals ++ v ∷ [] })
      else some l
