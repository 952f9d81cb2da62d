-- ===== src/Uri/Search.antt =====
-- The search for a parameter in the text behind the question mark.
use oidc_agent.Prelude.{
  ℕ, zero, suc, ◌<◌, ◌≡◌, ◌≢◌, refl, ap, ◌∙◌, Bool, true, false, Option, none, some, List, [], ◌∷◌,
  ◌++◌, All, Bool-cases, Option-cases, inl, inr, length, length-append, arith, if◌then◌else◌,
}
use oidc_agent.Text.{Str, strequal, same_text}
use oidc_agent.Text.Tokens.{strtok, strtok-append, strtok_last, strtok_rest-lt}
use oidc_agent.Uri.{is_char, search_parameter}

abbrev pub Lacks : ℕ → Str → Type 0
Lacks c = All (λ x. is_char c x ≡ false)

-- The turns of the loop.
search_end :
    (fuel : ℕ) (p s : Str)
    → strtok (is_char b'=') s ≡ none
    → search_parameter (suc fuel) p s ≡ some none
unfolding search_parameter
search_end fuel p s e = rw (e, search_parameter) refl

search_open :
    (fuel : ℕ) (p s k r : Str)
    → strtok (is_char b'=') s ≡ some (k, r)
    → strtok (is_char b'&') r ≡ none
    → search_parameter (suc fuel) p s ≡ some none
unfolding search_parameter
search_open fuel p s k r e f = rw (e, search_parameter, f) refl

pub search_next :
    (fuel : ℕ) (p s k r v rest : Str)
    → strtok (is_char b'=') s ≡ some (k, r)
    → strtok (is_char b'&') r ≡ some (v, rest)
    → search_parameter (suc fuel) p s
      ≡ (if same_text p k then some (some v) else search_parameter fuel p rest)
unfolding search_parameter strequal
search_next fuel p s k r v rest e f = rw (e, search_parameter, f) refl

-- The loop ends, with more fuel than there are characters.
pub search_parameter-ends :
    (fuel : ℕ) (p s : Str)
    → length s < fuel
    → (v : Option Str) × (search_parameter fuel p s ≡ some v)
search_parameter-ends zero p s h = absurd (omega arith)
search_parameter-ends (suc fuel) p s h = elim (Option-cases (strtok (is_char b'=') s)) [
  | inl e ↦ (none, search_end fuel p s e)
  | inr ((k, r), e) ↦ elim (Option-cases (strtok (is_char b'&') r)) [
    | inl f ↦ (none, search_open fuel p s k r e f)
    | inr ((v, rest), f) ↦
        let (more, g) = search_parameter-ends fuel p rest (
          omega (
            arith,
            strtok_rest-lt (is_char b'=') s k r e,
            strtok_rest-lt (is_char b'&') r v rest f,
          )) in
        elim (Bool-cases (same_text p k)) [
          | inl y ↦ (some v, search_next fuel p s k r v rest e f ∙ rw y refl)
          | inr y ↦ (more, search_next fuel p s k r v rest e f ∙ rw y g)
        ]
  ]
]

-- The written parameters.
unfoldable pub query_of : List (Str × Str) → Str
query_of [] = []
query_of ((k, v) ∷ []) = k ++ b'=' ∷ v
query_of ((k, v) ∷ (p ∷ ps)) = k ++ b'=' ∷ (v ++ b'&' ∷ query_of (p ∷ ps))

-- The value of the first parameter of a name.
unfoldable pub value_of : Str → List (Str × Str) → Option Str
value_of name [] = none
value_of name ((k, v) ∷ ps) = if same_text name k then some v else value_of name ps

-- A key and a value that strtok finds.
abbrev pub IsPair : Str × Str → Type 0
IsPair p = (p.0 ≢ []) × Lacks b'=' p.0 × (p.1 ≢ []) × Lacks b'&' p.1

chosen :
    (b : Bool) (v : Str) (more : Option (Option Str)) (o : Option Str)
    → more ≡ some o
    → (if b then some (some v) else more) ≡ some (if b then some v else o)
chosen true v more o e = refl
chosen false v more o e = e

-- A key, its value and what follows are shorter than the query.
shorter :
    (fuel : ℕ) (k r v q : Str)
    → length (k ++ b'=' ∷ r) < suc fuel
    → r ≡ v ++ b'&' ∷ q
    → length q < fuel
shorter fuel k r v q h e =
    omega (arith, length-append k (b'=' ∷ r), ap length e, length-append v (b'&' ∷ q))

pub search_parameter-query_of :
    (fuel : ℕ) (name : Str) (ps : List (Str × Str))
    → length (query_of ps) < fuel
    → All IsPair ps
    → search_parameter fuel name (query_of ps) ≡ some (value_of name ps)
unfolding query_of value_of
search_parameter-query_of zero name ps h w = absurd (omega arith)
search_parameter-query_of (suc fuel) name [] h w = search_end fuel name [] (unfold strtok in refl)
search_parameter-query_of (suc fuel) name ((k, v) ∷ []) h w =
    let (n, kk, m, vv) = w.0 in
    search_next fuel name (k ++ b'=' ∷ v) k v v [] (strtok-append (is_char b'=') k v b'=' n kk refl)
      (strtok_last (is_char b'&') v m vv)
    ∙ chosen (same_text name k) v (search_parameter fuel name []) none
        (search_parameter-query_of fuel name [] (omega (arith, length-append k (b'=' ∷ v))) tt)
search_parameter-query_of (suc fuel) name ((k, v) ∷ (p ∷ ps)) h w =
    let (n, kk, m, vv) = w.0 in
    let q = query_of (p ∷ ps) in
    let r = v ++ b'&' ∷ q in
    search_next fuel name (k ++ b'=' ∷ r) k r v q (strtok-append (is_char b'=') k r b'=' n kk refl)
      (strtok-append (is_char b'&') v q b'&' m vv refl)
    ∙ chosen (same_text name k) v (search_parameter fuel name q) (value_of name (p ∷ ps))
        (search_parameter-query_of fuel name (p ∷ ps) (shorter fuel k r v q h refl) w.1)
