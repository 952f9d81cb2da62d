-- ===== src/ListUtils/Examples.antt =====
-- Tests of src/utils/listUtils.c on lists of numbers.
use mathlib.Core.List.Permᴰ.{Permᴰ}
use oidc_agent.Prelude.{ℕ, ◌≡◌, refl, Bool, List, none, some, [], ◌∷◌, ◌==◌, leb, arith}
use oidc_agent.Text.{Str, codes}
use oidc_agent.ListUtils.Delimited.{delimited_string_to_list, list_to_delimited_string}
use oidc_agent.ListUtils.Delimited.Laws.{delimited_string_to_list-list_to_delimited_string}
use oidc_agent.ListUtils.{CList}
use oidc_agent.ListUtils.Sort.{list_merge_sort}
use oidc_agent.ListUtils.Sort.Merge.{IsOrder, IsSorted}
use oidc_agent.ListUtils.Sort.Correct.{list_merge_sort-IsSorted}

abbrev same : ℕ → ℕ → Bool
same x y = x == y

abbrev scopes : CList ℕ
scopes = record { match = some same; vals = 3 ∷ 1 ∷ 2 ∷ 3 ∷ [] }

abbrev granted : CList ℕ
granted = record { match = none; vals = 2 ∷ 4 ∷ [] }

leb-IsOrder : IsOrder leb
leb-IsOrder = record { trans = λ x y z p q. ground arith; total = λ x y p. ground arith }

list_merge_sort-IsSorted_example :
    (out : CList ℕ) × (list_merge_sort leb scopes ≡ some out)
    × Permᴰ out.vals scopes.vals
    × IsSorted leb out.vals
list_merge_sort-IsSorted_example = list_merge_sort-IsSorted leb leb-IsOrder scopes

abbrev scope_names : List Str
scope_names = codes "openid" ∷ codes "email" ∷ []

delimited_string_to_list-list_to_delimited_string_example :
    delimited_string_to_list (list_to_delimited_string (some scope_names) (b' ' ∷ [])) b' '
    ≡ some scope_names
delimited_string_to_list-list_to_delimited_string_example =
    delimited_string_to_list-list_to_delimited_string b' ' scope_names (
      ((λ e. cc), (refl, (refl, (refl, (refl, (refl, (refl, tt))))))),
      (((λ e. cc), (refl, (refl, (refl, (refl, (refl, tt)))))), tt),
    )
