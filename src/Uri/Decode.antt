-- ===== src/Uri/Decode.antt =====
-- Decoding of percent-encoded texts.
use oidc_agent.Prelude.{
  ℕ, ◌+◌, ◌*◌, ◌/◌, ◌%◌, ◌≤◌, ◌<◌, ◌≡◌, ◌≢◌, refl, ap, ◌∙◌, Bool, true, false, ◌&&◌, ◌||◌, some, [],
  ◌∷◌, ◌==◌, ltb, leb, All, All-imp, Bool-cases, inl, inr, length, arith, if◌then◌else◌,
}
use mathlib.Core.Path.{ap₂}
use oidc_agent.Text.{Str, IsText}
use oidc_agent.Text.Number.{is_digit}
use oidc_agent.Crypt.Memory.{c_string}
use oidc_agent.Crypt.Memory.Laws.{c_string-text}
use oidc_agent.Uri.{is_xdigit, hex_value, plain, decode, urldecode}

-- The encoding of RFC 3986: every byte that is not unreserved is a percent sign and two digits.
unfoldable pub is_unreserved : ℕ → Bool
unfolding is_digit
is_unreserved c =
    is_digit c
    || (leb b'a' c && leb c b'z')
    || (leb b'A' c && leb c b'Z')
    || (c == b'-' || c == b'.' || c == b'_' || c == b'~')

unfoldable pub hex_char : ℕ → ℕ
hex_char n = if ltb n 10 then 48 + n else 55 + n

unfoldable pub percent_encode : Str → Str
unfolding is_unreserved hex_char
percent_encode [] = []
percent_encode (c ∷ s) =
    let rest = percent_encode s in
    if is_unreserved c then c ∷ rest else b'%' ∷ (hex_char (c / 16) ∷ (hex_char (c % 16) ∷ rest))

decode-plain : (c : ℕ) (s : Str) → (c == b'%') ≡ false → decode (c ∷ s) ≡ plain c ∷ decode s
unfolding decode
decode-plain c [] h = refl
decode-plain c (a ∷ []) h = refl
decode-plain c (a ∷ (b ∷ s)) h = rw h refl

decode-escape :
    (a b : ℕ) (s : Str)
    → is_xdigit a ≡ true
    → is_xdigit b ≡ true
    → decode (b'%' ∷ (a ∷ (b ∷ s))) ≡ (16 * hex_value a + hex_value b) ∷ decode s
unfolding decode
decode-escape a b s h k = rw (h, k) refl

hex_char-lem : (n : ℕ) → n < 16 → (is_xdigit (hex_char n) ≡ true) × (hex_value (hex_char n) ≡ n)
unfolding hex_char is_xdigit hex_value
hex_char-lem n h = ground arith

unreserved_plain : (c : ℕ) → is_unreserved c ≡ true → ((c == b'%') ≡ false) × (plain c ≡ c)
unfolding is_unreserved plain
unreserved_plain c h = ground arith

pub decode-percent_encode : (s : Str) → All (λ c. c < 256) s → decode (percent_encode s) ≡ s
unfolding percent_encode
decode-percent_encode [] h = unfold decode in refl
decode-percent_encode (c ∷ s) h = elim (Bool-cases (is_unreserved c)) [
  | inl u ↦
      let (other, same) = unreserved_plain c u in
      rw u (decode-plain c (percent_encode s) other ∙ ap₂ ◌∷◌ same (decode-percent_encode s h.1))
  | inr u ↦
      let (x, hi) = hex_char-lem (c / 16) (omega arith) in
      let (y, lo) = hex_char-lem (c % 16) (omega arith) in
      rw u (
        decode-escape (hex_char (c / 16)) (hex_char (c % 16)) (percent_encode s) x y
        ∙ ap₂ ◌∷◌ (rw (hi, lo) (omega arith)) (decode-percent_encode s h.1))
]

-- What is written in place stays behind what is read.
pub length-decode-le : (s : Str) → length (decode s) ≤ length s
unfolding decode
length-decode-le [] = omega arith
length-decode-le (c ∷ []) = omega arith
length-decode-le (c ∷ (a ∷ [])) = omega arith
length-decode-le (c ∷ (a ∷ (b ∷ s))) =
    ground (arith, length-decode-le s, length-decode-le (a ∷ (b ∷ s)))

pub urldecode-percent_encode : (s : Str) → IsText s → urldecode (some (percent_encode s)) ≡ some s
unfolding urldecode
urldecode-percent_encode s h =
    ap some (ap c_string (decode-percent_encode s (All-imp s (λ c k. k.1) h)) ∙ c_string-text s h)

-- The characters of an encoded text.
encoded_char : (c : ℕ) → is_unreserved c ≡ true → (c ≢ b'?') × (c ≢ b'&') × (c ≢ b'=')
unfolding is_unreserved
encoded_char c h = ground arith

abbrev pub IsPlain : ℕ → Type 0
IsPlain c = (c ≢ b'?') × (c ≢ b'&')

hex_char-IsPlain : (n : ℕ) → n < 16 → IsPlain (hex_char n)
unfolding hex_char
hex_char-IsPlain n h = ground arith

pub percent_encode-IsPlain : (s : Str) → All (λ c. c < 256) s → All IsPlain (percent_encode s)
unfolding percent_encode
percent_encode-IsPlain [] h = tt
percent_encode-IsPlain (c ∷ s) h = elim (Bool-cases (is_unreserved c)) [
  | inl u ↦ let (q, a, e) = encoded_char c u in rw u ((q, a), percent_encode-IsPlain s h.1)
  | inr u ↦ rw u (
    (omega arith, omega arith),
    (
      hex_char-IsPlain (c / 16) (omega arith),
      (hex_char-IsPlain (c % 16) (omega arith), percent_encode-IsPlain s h.1),
    ),
  )
]

pub percent_encode-not_empty : (s : Str) → s ≢ [] → percent_encode s ≢ []
unfolding percent_encode
percent_encode-not_empty [] n = absurd (n refl)
percent_encode-not_empty (c ∷ s) n = ground arith
