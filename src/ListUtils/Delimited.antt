-- ===== src/ListUtils/Delimited.antt =====
-- src/utils/listUtils.c: lists of strings and delimited strings.
pub mod Laws
use oidc_agent.Prelude.{
  ℕ, zero, suc, Bool, true, false, Option, none, some, List, [], ◌∷◌, ◌++◌, ◌==◌, length, ◌>>=◌,
}
use oidc_agent.Text.{Str}
use oidc_agent.Text.Tokens.{strtok}

-- The loop over strtok takes fuel; `none` means that it ran out.
unfoldable pub tokens : ℕ → ℕ → Str → Option (List Str)
tokens delimiter zero s = none
tokens delimiter (suc fuel) s = elim (strtok (λ c. c == delimiter) s) [
  | none ↦ some []
  | some (elem, rest) ↦ do elems ← tokens delimiter fuel rest; some (elem ∷ elems)
]

unfoldable pub delimited_string_to_list : Option Str → ℕ → Option (List Str)
unfolding tokens
delimited_string_to_list none delimiter = none
delimited_string_to_list (some str) delimiter = tokens delimiter (suc (length str)) str

-- The first string, and each other one after the delimiter.
unfoldable pub joined : Str → Str → List Str → Str
joined str delimiter [] = str
joined str delimiter (x ∷ xs) = str ++ (delimiter ++ joined x delimiter xs)

unfoldable pub list_to_delimited_string : Option (List Str) → Str → Option Str
unfolding joined
list_to_delimited_string none delimiter = none
list_to_delimited_string (some []) delimiter = some []
list_to_delimited_string (some (x ∷ xs)) delimiter = some (joined x delimiter xs)
