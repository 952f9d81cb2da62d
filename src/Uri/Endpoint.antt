-- ===== src/Uri/Endpoint.antt =====
-- Which urls are taken for an authorization endpoint.
use mathlib.Core.List.{map-append}
use mathlib.Core.Path.{ap₂}
use oidc_agent.Prelude.{
  ℕ, ◌+◌, ◌<◌, ◌≡◌, ◌≢◌, ◌↔◌, ◌⊎◌, refl, sym, ap, ◌∙◌, subst, true, false, some, [], ◌∷◌, ◌++◌,
  ◌==◌, All, Bool-cases, inl, inr, length, length-append, length-map, map, arith,
}
use oidc_agent.Text.{Str, codes, same_text, str_valid}
use oidc_agent.Text.Laws.{same_text_iff}
use oidc_agent.Text.Edit.{is_prefix, strstarts}
use oidc_agent.Text.Edit.Laws.{is_prefix_to, is_prefix-append}
use oidc_agent.Text.Case.{lower, strlower}
use oidc_agent.Uri.{has_scheme, is_url_char, all_url_chars, is_valid_auth_endpoint_url}

-- No control character, no blank, and none of the five that end or break a url.
abbrev pub IsUrlChar : ℕ → Type 0
IsUrlChar c =
    (0x20 < c) × (c ≢ 0x7f) × (c ≢ b'<') × (c ≢ b'>') × (c ≢ b'"') × (c ≢ b'`') × (c ≢ b'|')

all_url_chars_iff : (s : Str) → (all_url_chars s ≡ true) ↔ All IsUrlChar s
unfolding all_url_chars
all_url_chars_iff [] = (λ e. tt, λ h. refl)
all_url_chars_iff (c ∷ s) =
    let (to, from) = all_url_chars_iff s in
    let (here, back) = url_char c in
    elim (Bool-cases (is_url_char c)) [
      | inl y ↦ rw y (λ h. (here y, to h), λ k. from k.1)
      | inr n ↦ rw n (λ h. cc, λ k. (let yes' = back k.0 in cc))
    ]
  where
    url_char : (x : ℕ) → (is_url_char x ≡ true) ↔ IsUrlChar x
    url_char x = unfold is_url_char in (λ h. ground arith, λ k. ground arith)

-- A text in lower case that splits, splits.
split_lower :
    (a b s : Str) → strlower s ≡ a ++ b → (x : Str) × (y : Str) × (s ≡ x ++ y) × (strlower x ≡ a)
unfolding strlower
split_lower [] b s e = ([], s, refl, refl)
split_lower (c ∷ a) b [] e = cc
split_lower (c ∷ a) b (z ∷ s) e =
    let same : lower z ≡ c = cc in
    let more : map lower s ≡ a ++ b = cc in
    let (x, y, split, low) = split_lower a b s more in
    (z ∷ x, y, ap (◌∷◌ z) split, ap₂ ◌∷◌ same low)

-- Parts of a url: a scheme in letters of any case, and a rest.
abbrev pub HasScheme : Str → Str → Type 0
HasScheme pre url = (scheme : Str) × (rest : Str) × (url ≡ scheme ++ rest) × (strlower scheme ≡ pre)

has_scheme_iff : (pre url : Str) → (has_scheme pre url ≡ true) ↔ HasScheme pre url
unfolding has_scheme
has_scheme_iff pre url = (
  λ h. let (rest, e) = is_prefix_to pre (strlower url) h in split_lower pre rest url e,
  λ (scheme, rest, e, l).
      subst (λ u. is_prefix pre (strlower u) ≡ true) (sym e)
        (subst (λ t. is_prefix pre t ≡ true)
          (sym (lower-append scheme rest ∙ ap (λ t. t ++ strlower rest) l))
          (is_prefix-append pre (strlower rest))),
)
  where
    lower-append : (a b : Str) → strlower (a ++ b) ≡ strlower a ++ strlower b
    lower-append a b = unfold strlower in map-append lower a b

abbrev https : Str
https = codes "https://"

abbrev http : Str
http = codes "http://"

-- A url with a scheme, a rest that is not empty, and no character that is not allowed.
abbrev pub IsEndpoint : Str → Type 0
IsEndpoint url =
    (scheme : Str) × (rest : Str) × (url ≡ scheme ++ rest)
    × ((strlower scheme ≡ https) ⊎ (strlower scheme ≡ http))
    × (rest ≢ [])
    × All IsUrlChar url

length-strlower : (a : Str) → length (strlower a) ≡ length a
unfolding strlower
length-strlower a = length-map a lower

rest_length :
    (n : ℕ) (pre url scheme rest : Str)
    → length pre ≡ n
    → url ≡ scheme ++ rest
    → strlower scheme ≡ pre
    → length url ≡ n + length rest
rest_length n pre url scheme rest p e l =
    omega (arith, ap length e, length-append scheme rest, ap length l, length-strlower scheme)

not_empty : (rest : Str) → (length rest ≡ 0 → ⊥) → rest ≢ []
not_empty rest h e = h (ap length e)

-- A long text is none of the three that are not valid.
differs : (a b : Str) → length a < length b → same_text a b ≡ false
differs a b h = elim (Bool-cases (same_text a b)) [
  | inl e ↦ absurd (omega (arith, ap length ((same_text_iff a b).0 e)))
  | inr e ↦ e
]

long_valid : (url : Str) → 6 < length url → str_valid (some url) ≡ true
unfolding str_valid
long_valid url h =
    rw
      (
        differs (codes "") url (omega arith),
        differs (codes "(null)") url (omega arith),
        differs (codes "null") url (omega arith),
      )
      refl

-- The scheme decides which test is made.
has_scheme-other :
    (scheme rest : Str) → strlower scheme ≡ http → has_scheme https (scheme ++ rest) ≡ false
unfolding has_scheme strstarts strlower
has_scheme-other scheme rest l = rw (map-append, l) refl

length_nonzero : (rest : Str) → rest ≢ [] → 0 < length rest
length_nonzero [] n = absurd (n refl)
length_nonzero (c ∷ rest) n = omega arith

of_rest :
    (n : ℕ) (pre url : Str)
    → length pre ≡ n
    → (pre ≡ https) ⊎ (pre ≡ http)
    → has_scheme pre url ≡ true
    → (length url == n) ≡ false
    → all_url_chars url ≡ true
    → IsEndpoint url
of_rest n pre url p which h len chars =
    let (scheme, rest, e, l) = (has_scheme_iff pre url).0 h in
    let long = rest_length n pre url scheme rest p e l in
    (
      scheme,
      rest,
      e,
      elim which [ inl k ↦ inl (l ∙ k) | inr k ↦ inr (l ∙ k) ],
      not_empty rest (λ z. ground arith),
      (all_url_chars_iff url).0 chars,
    )

-- The branches that accept.
PassesAs : Str → ℕ → Str → Type 0
PassesAs pre n url =
    (has_scheme pre url ≡ true) × ((length url == n) ≡ false) × (all_url_chars url ≡ true)

branches :
    (url : Str)
    → is_valid_auth_endpoint_url (some url) ≡ true
    → PassesAs https 8 url ⊎ PassesAs http 7 url
unfolding is_valid_auth_endpoint_url PassesAs
branches url h = ground arith

passes :
    (url : Str)
    → str_valid (some url) ≡ true
    → PassesAs https 8 url ⊎ ((has_scheme https url ≡ false) × PassesAs http 7 url)
    → is_valid_auth_endpoint_url (some url) ≡ true
unfolding is_valid_auth_endpoint_url PassesAs
passes url v h = ground arith

-- Which urls are accepted: isValidAuthEndpointUrl accepts a url exactly when it is https:// or http://,
-- in letters of any case, and a rest that is not empty, and no character of it is a control character, a
-- blank, or one of < > " ` and |.
pub is_valid_auth_endpoint_url_iff :
    (url : Str) → (is_valid_auth_endpoint_url (some url) ≡ true) ↔ IsEndpoint url
unfolding PassesAs
is_valid_auth_endpoint_url_iff url = (
  λ h. elim (branches url h) [
    | inl (s, l, c) ↦ of_rest 8 https url refl (inl refl) s l c
    | inr (s, l, c) ↦ of_rest 7 http url refl (inr refl) s l c
  ],
  λ (scheme, rest, e, which, n, chars).
      let url_chars = (all_url_chars_iff url).1 chars in
      let more = length_nonzero rest n in
      elim which [
        | inl l ↦
            let long = rest_length 8 https url scheme rest refl e l in
            passes url (long_valid url (omega arith))
              (inl ((has_scheme_iff https url).1 (scheme, rest, e, l), ground arith, url_chars))
        | inr l ↦
            let long = rest_length 7 http url scheme rest refl e l in
            passes url (long_valid url (omega arith)) (
              inr (
                subst (λ u. has_scheme https u ≡ false) (sym e) (has_scheme-other scheme rest l),
                ((has_scheme_iff http url).1 (scheme, rest, e, l), ground arith, url_chars),
              ))
      ],
)
