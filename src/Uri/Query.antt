-- ===== src/Uri/Query.antt =====
-- The parameters of a uri.
use oidc_agent.Prelude.{
  ℕ, suc, ◌≡◌, ◌≢◌, refl, ◌∙◌, true, false, Option, none, some, List, [], ◌∷◌, ◌++◌, ◌==◌, All,
  All-imp, All-append, Bool-cases, inl, inr, length, length-append, arith,
}
use oidc_agent.Text.{Str, codes, same_text, IsText}
use oidc_agent.Text.Laws.{same_text_iff}
use oidc_agent.Text.Tokens.{strtok-append, strtok_last, strtok_skips}
use oidc_agent.Uri.{
  is_char, cut_first, urldecode, search_parameter, found_parameter,
  extract_parameter_value_from_uri, get_base_uri, code_state_from_uri,
}
use oidc_agent.Uri.Decode.{
  percent_encode, urldecode-percent_encode, percent_encode-IsPlain, percent_encode-not_empty,
}
use oidc_agent.Uri.Search.{
  Lacks, search_next, query_of, value_of, IsPair, search_parameter-query_of,
}

pub cut_first-append : (c : ℕ) (a b : Str) → Lacks c a → cut_first c (a ++ c ∷ b) ≡ some (a, b)
unfolding cut_first
cut_first-append c [] b h = let same : (c == c) ≡ true = ground arith in rw same refl
cut_first-append c (x ∷ a) b h = rw (h.0, cut_first-append c a b h.1) refl

-- Names and the texts that their values stand for.
abbrev pub IsParameter : Str × Str → Type 0
IsParameter p = (p.0 ≢ []) × Lacks b'=' p.0 × (p.1 ≢ []) × IsText p.1

unfoldable pub encoded : List (Str × Str) → List (Str × Str)
encoded [] = []
encoded ((k, v) ∷ ps) = (k, percent_encode v) ∷ encoded ps

Lacks-of_query : (c : ℕ) (s : Str) → All (λ x. x ≢ c) s → Lacks c s
Lacks-of_query c s h = All-imp s (λ x k. ground (arith, k)) h

encoded-IsPair : (ps : List (Str × Str)) → All IsParameter ps → All IsPair (encoded ps)
unfolding encoded
encoded-IsPair [] h = tt
encoded-IsPair ((k, v) ∷ ps) h =
    let (n, kk, m, t) = h.0 in
    let plain = percent_encode-IsPlain v (All-imp v (λ c q. q.1) t) in
    (
      (n, kk, percent_encode-not_empty v m, Lacks-of_query b'&' _ (All-imp _ (λ c q. q.1) plain)),
      encoded-IsPair ps h.1,
    )

urldecode-value_of :
    (name : Str) (ps : List (Str × Str))
    → All IsParameter ps
    → urldecode (value_of name (encoded ps)) ≡ value_of name ps
unfolding encoded value_of
urldecode-value_of name [] h = unfold urldecode in refl
urldecode-value_of name ((k, v) ∷ ps) h = elim (Bool-cases (same_text name k)) [
  | inl y ↦ rw y (urldecode-percent_encode v h.0.3)
  | inr y ↦ rw y (urldecode-value_of name ps h.1)
]

found_parameter-value :
    (base q p : Str) (v : Option Str)
    → search_parameter (suc (length q)) p q ≡ some v
    → found_parameter (some (base, q)) p ≡ urldecode v
unfolding found_parameter
found_parameter-value base q p v e = rw (e, found_parameter) refl

-- What the loop finds in the text behind the question mark.
extract-search :
    (base q p : Str) (v : Option Str)
    → Lacks b'?' base
    → search_parameter (suc (length q)) p q ≡ some v
    → extract_parameter_value_from_uri (some (base ++ b'?' ∷ q)) (some p) ≡ urldecode v
unfolding extract_parameter_value_from_uri
extract-search base q p v h e =
    rw (cut_first-append b'?' base q h) (found_parameter-value base q p v e)

differs : (a b : Str) → a ≢ b → same_text a b ≡ false
differs a b n = elim (Bool-cases (same_text a b)) [
  | inl e ↦ absurd (n ((same_text_iff a b).0 e))
  | inr e ↦ e
]

not_empty : (a b : Str) → a ≢ [] → a ++ b ≢ []
not_empty [] b n = absurd (n refl)
not_empty (x ∷ a) b n = ground arith

-- The parameters of a uri are read back: if a uri is made of a text without a question mark, one, and
-- parameters whose names are not empty and hold no equals sign and whose values are percent-encoded
-- from texts that are not empty, then extractParameterValueFromUri gives for every name the text of the
-- first parameter of the name, and NULL for a name that no parameter has.
pub extract_parameter_value_from_uri-query_of :
    (base name : Str) (ps : List (Str × Str))
    → Lacks b'?' base
    → All IsParameter ps
    → extract_parameter_value_from_uri (some (base ++ b'?' ∷ query_of (encoded ps))) (some name)
      ≡ value_of name ps
extract_parameter_value_from_uri-query_of base name ps h w =
    let q = query_of (encoded ps) in
    extract-search base q name (value_of name (encoded ps)) h (
      search_parameter-query_of (suc (length q)) name (encoded ps) (omega arith)
        (encoded-IsPair ps w))
    ∙ urldecode-value_of name ps w

-- A redirect uri is read back: if a uri is made of a percent-encoded text that is not empty, a question
-- mark, and parameters whose names are not empty and hold no equals sign and whose values are
-- percent-encoded from texts that are not empty, then codeStateFromURI gives the text and those of the
-- first parameters named state and code, NULL for one that is not there.
pub code_state_from_uri-query_of :
    (base : Str) (ps : List (Str × Str))
    → base ≢ []
    → IsText base
    → All IsParameter ps
    → (code_state_from_uri (some (percent_encode base ++ b'?' ∷ query_of (encoded ps)))).0
      ≡ record {
        uri = some base;
        state = value_of (codes "state") ps;
        code = value_of (codes "code") ps;
      }
unfolding code_state_from_uri get_base_uri
code_state_from_uri-query_of base ps n t w =
    let e = percent_encode base in
    let q = query_of (encoded ps) in
    let no_mark =
      Lacks-of_query b'?' e
        (All-imp e (λ c k. k.0) (percent_encode-IsPlain base (All-imp base (λ c k. k.1) t))) in
    let first =
      strtok-append (is_char b'?') e q b'?' (percent_encode-not_empty base n) no_mark refl in
    let state = extract_parameter_value_from_uri-query_of e (codes "state") ps no_mark w in
    let code = extract_parameter_value_from_uri-query_of e (codes "code") ps no_mark w in
    rw (first, urldecode-percent_encode base t, state, code) refl

-- A parameter behind an empty one is not found: if the value of a parameter is empty, then the next one,
-- of another name, is taken for its value with its name, and extractParameterValueFromUri gives NULL for
-- the next one's name where it is the last.
pub extract_parameter_value_from_uri-empty_value :
    (base k name v : Str)
    → Lacks b'?' base
    → k ≢ []
    → Lacks b'=' k
    → name ≢ []
    → Lacks b'&' name
    → Lacks b'&' v
    → name ≢ k
    → let uri = base ++ b'?' ∷ (k ++ b'=' ∷ (b'&' ∷ (name ++ b'=' ∷ v))) in
      (extract_parameter_value_from_uri (some uri) (some name) ≡ none)
      × (extract_parameter_value_from_uri (some uri) (some k) ≡ urldecode (some (name ++ b'=' ∷ v)))
unfolding urldecode query_of value_of
extract_parameter_value_from_uri-empty_value base k name v h n kk m nn vv differ =
    let r = name ++ b'=' ∷ v in
    let q = k ++ b'=' ∷ (b'&' ∷ r) in
    let first = strtok-append (is_char b'=') k (b'&' ∷ r) b'=' n kk refl in
    let second =
      strtok_skips (is_char b'&') (b'&' ∷ []) r (refl, tt)
      ∙ strtok_last (is_char b'&') r (not_empty name (b'=' ∷ v) m)
          (All-append (λ x. is_char b'&' x ≡ false) name (b'=' ∷ v) nn (refl, vv)) in
    let turn = λ (p : Str). search_next (length q) p q k (b'&' ∷ r) r [] first second in
    let other : same_text name k ≡ false = differs name k differ in
    let same : same_text k k ≡ true = (same_text_iff k k).1 refl in
    (
      extract-search base q name none h (
          turn name
          ∙ rw other (
              search_parameter-query_of (length q) name []
                (omega (arith, length-append k (b'=' ∷ (b'&' ∷ r)))) tt)),
      extract-search base q k (some r) h (turn k ∙ rw same refl),
    )
