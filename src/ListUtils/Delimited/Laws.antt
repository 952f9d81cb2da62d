-- ===== src/ListUtils/Delimited/Laws.antt =====
-- A list of strings that is written with a delimiter is read back.
use oidc_agent.Prelude.{
  ℕ, zero, suc, ◌<◌, ◌≡◌, ◌≢◌, refl, subst, false, some, List, [], ◌∷◌, ◌++◌, ◌==◌, ==_iff, All,
  length, length-append, arith,
}
use oidc_agent.Text.{Str}
use oidc_agent.Text.Tokens.{strtok, strtok-append, strtok_last}
use oidc_agent.ListUtils.Delimited.{
  tokens, delimited_string_to_list, joined, list_to_delimited_string,
}

-- A token: not empty, and without the delimiter.
abbrev pub IsToken : ℕ → Str → Type 0
IsToken delimiter s = (s ≢ []) × All (λ c. (c == delimiter) ≡ false) s

nonempty-lt : (s : Str) → s ≢ [] → 0 < length s
nonempty-lt [] n = absurd (n refl)
nonempty-lt (c ∷ s) n = omega arith

module _ (delimiter : ℕ) where
  tokens-empty : (fuel : ℕ) → 0 < fuel → tokens delimiter fuel [] ≡ some []
  unfolding tokens strtok
  tokens-empty zero h = absurd (omega arith)
  tokens-empty (suc fuel) h = refl

  tokens-next :
      (fuel : ℕ) (s x rest : Str) (xs : List Str)
      → strtok (λ c. c == delimiter) s ≡ some (x, rest)
      → tokens delimiter fuel rest ≡ some xs
      → tokens delimiter (suc fuel) s ≡ some (x ∷ xs)
  unfolding tokens
  tokens-next fuel s x rest xs e h = simp (e, h, tokens) refl

  shorter :
      (fuel : ℕ) (x rest : Str) → length (x ++ delimiter ∷ rest) < suc fuel → length rest < fuel
  shorter fuel x rest h = omega (arith, length-append x (delimiter ∷ rest))

  joined-cons :
      (x y : Str) (ys : List Str)
      → joined x (delimiter ∷ []) (y ∷ ys) ≡ x ++ delimiter ∷ joined y (delimiter ∷ []) ys
  unfolding joined
  joined-cons x y ys = refl

  tokens-joined :
      (fuel : ℕ) (x : Str) (xs : List Str)
      → length (joined x (delimiter ∷ []) xs) < fuel
      → IsToken delimiter x
      → All (IsToken delimiter) xs
      → tokens delimiter fuel (joined x (delimiter ∷ []) xs) ≡ some (x ∷ xs)
  unfolding joined
  tokens-joined zero x xs h t ts = absurd (omega arith)
  tokens-joined (suc fuel) x [] h t ts =
      tokens-next fuel x x [] [] (strtok_last (λ c. c == delimiter) x t.0 t.1)
        (tokens-empty fuel (omega (arith, nonempty-lt x t.0)))
  tokens-joined (suc fuel) x (y ∷ ys) h t ts =
      let rest = joined y (delimiter ∷ []) ys in
      tokens-next fuel (x ++ delimiter ∷ rest) x rest (y ∷ ys)
        (strtok-append (λ c. c == delimiter) x rest delimiter t.0 t.1
          ((==_iff delimiter delimiter).1 refl))
        (tokens-joined fuel y ys
          (shorter fuel x rest (subst (λ s. length s < suc fuel) (joined-cons x y ys) h)) ts.0 ts.1)

-- A list of tokens that is written with a delimiter of one character is read back as it was: if no
-- string of the list is empty or has the delimiter in it, then the list splits again into the same
-- strings, and an empty list is read back as empty.
pub delimited_string_to_list-list_to_delimited_string :
    (delimiter : ℕ) (l : List Str)
    → All (IsToken delimiter) l
    → delimited_string_to_list (list_to_delimited_string (some l) (delimiter ∷ [])) delimiter
      ≡ some l
unfolding delimited_string_to_list list_to_delimited_string
delimited_string_to_list-list_to_delimited_string delimiter [] h =
    tokens-empty delimiter 1 (omega arith)
delimited_string_to_list-list_to_delimited_string delimiter (x ∷ xs) h =
    tokens-joined delimiter (suc (length (joined x (delimiter ∷ []) xs))) x xs (omega arith) h.0 h.1
