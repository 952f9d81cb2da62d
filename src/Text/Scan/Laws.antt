-- ===== src/Text/Scan/Laws.antt =====
-- Printed numbers are scanned back, whatever follows them.
use oidc_agent.Prelude.{
  ℕ, suc, ◌+◌, ◌-◌, ◌*◌, ◌^◌, ◌<◌, ◌≡◌, refl, ap, ◌∙◌, subst, true, false, some, [], ◌∷◌, ◌++◌,
  ◌==◌, All, arith, ℤ, pos,
}
use mathlib.Core.List.{append-nil}
use oidc_agent.Text.{Str}
use oidc_agent.Text.Number.{
  is_digit, read_digits, skip_space, read_number, print_lu, print_lu-digits, print_lu-cons,
  read_digits-print_lu, is_space,
}
use oidc_agent.Text.Scan.{skip_digits, scan_number, scan_fields, to_ulong, str_to_u_long}

-- The text does not go on with a digit.
abbrev pub NoDigit : Str → Type 0
NoDigit [] = Unit
NoDigit (c ∷ s) = is_digit c ≡ false

read_digits-append :
    (acc : ℕ) (ds rest : Str)
    → All (λ c. is_digit c ≡ true) ds
    → NoDigit rest
    → read_digits acc (ds ++ rest) ≡ read_digits acc ds
unfolding read_digits
read_digits-append acc [] [] h k = refl
read_digits-append acc [] (c ∷ rest) h k = rw k
read_digits-append acc (d ∷ ds) rest h k =
    rw (h.0) (read_digits-append (acc * 10 + (d - 48)) ds rest h.1 k)

skip_digits-append :
    (ds rest : Str)
    → All (λ c. is_digit c ≡ true) ds
    → NoDigit rest
    → skip_digits (ds ++ rest) ≡ rest
unfolding skip_digits
skip_digits-append [] [] h k = refl
skip_digits-append [] (c ∷ rest) h k = rw k
skip_digits-append (d ∷ ds) rest h k = rw (h.0) (skip_digits-append ds rest h.1 k)

digit_not_sign :
    (c : ℕ)
    → is_digit c ≡ true
    → ((c == b'-') ≡ false) × ((c == b'+') ≡ false) × (is_space c ≡ false)
unfolding is_digit is_space
digit_not_sign c h = ground arith

scan_number-digit :
    (c : ℕ) (s : Str)
    → is_digit c ≡ true
    → scan_number (c ∷ s) ≡ some (pos (read_digits 0 (c ∷ s)), skip_digits s)
unfolding scan_number skip_space
scan_number-digit c s h = let (m, p, w) = digit_not_sign c h in rw (w, m, p, h)

pub scan_number-print_lu :
    (n : ℕ) (rest : Str) → NoDigit rest → scan_number (print_lu n ++ rest) ≡ some (pos n, rest)
scan_number-print_lu n rest k =
    let (c, s, e, d) = print_lu-cons n in
    let digits : All (λ x. is_digit x ≡ true) (c ∷ s) =
      subst (All (λ x. is_digit x ≡ true)) e (print_lu-digits n) in
    let value : read_digits 0 (c ∷ s) ≡ n = rw e at (read_digits-print_lu n) in
    rw e (
      scan_number-digit c (s ++ rest) d
      ∙ rw (read_digits-append 0 (c ∷ s) rest digits k, value, skip_digits-append s rest digits.1 k)
          refl)

-- A field with a separator behind it, and the last field.
fields-next :
    (n c : ℕ) (s rest : Str) (v : ℤ)
    → scan_number s ≡ some (v, c ∷ rest)
    → scan_fields (suc n) c s ≡ v ∷ scan_fields n c rest
unfolding scan_fields
fields-next n c s rest v e =
    let same : (c == c) ≡ true = ground arith in simp (e, scan_fields, same) refl

pub scan_fields-next :
    (n c v : ℕ) (rest : Str)
    → is_digit c ≡ false
    → scan_fields (suc n) c (print_lu v ++ c ∷ rest) ≡ pos v ∷ scan_fields n c rest
scan_fields-next n c v rest h =
    fields-next n c (print_lu v ++ c ∷ rest) rest (pos v) (scan_number-print_lu v (c ∷ rest) h)

fields-end :
    (n c : ℕ) (s : Str) (v : ℤ) → scan_number s ≡ some (v, []) → scan_fields (suc n) c s ≡ v ∷ []
unfolding scan_fields
fields-end n c s v e = simp (e, scan_fields) refl

pub scan_fields_last : (n c v : ℕ) → scan_fields (suc n) c (print_lu v) ≡ pos v ∷ []
scan_fields_last n c v = fields-end n c (print_lu v) (pos v) (
    subst (λ s. scan_number s ≡ some (pos v, [])) (append-nil (print_lu v))
      (scan_number-print_lu v [] tt))

read_number-digit :
    (c : ℕ) (s : Str) → is_digit c ≡ true → read_number (c ∷ s) ≡ pos (read_digits 0 (c ∷ s))
unfolding read_number skip_space
read_number-digit c s h = let (m, p, w) = digit_not_sign c h in rw (w, m, p)

pub read_number-print_lu : (n : ℕ) → read_number (print_lu n) ≡ pos n
read_number-print_lu n =
    let (c, s, e, d) = print_lu-cons n in
    let value : read_digits 0 (c ∷ s) ≡ n = rw e at (read_digits-print_lu n) in
    rw e (read_number-digit c s d ∙ ap pos value)

-- Reading a printed number that fits an unsigned long gives it back.
pub str_to_u_long-print_lu : (n : ℕ) → n < 2 ^ 64 → str_to_u_long (some (print_lu n)) ≡ n
unfolding str_to_u_long to_ulong
str_to_u_long-print_lu n h = rw (read_number-print_lu n) (ground arith)
