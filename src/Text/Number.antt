-- ===== src/Text/Number.antt =====
-- Decimal numbers in C strings: `%lu` of printf, and strToInt of src/utils/string/stringUtils.c.
use oidc_agent.Prelude.{
  ℕ, zero, suc, ◌+◌, ◌-◌, ◌*◌, ◌/◌, ◌%◌, ◌^◌, ◌<◌, ◌≡◌, refl, ◌∙◌, ap, subst, length, ◌≤◌, inl, inr,
  Bool, true, ◌&&◌, ◌||◌, Option, none, some, [], ◌∷◌, arith, ltb, leb, ◌==◌, if◌then◌else◌, All,
  Bool-cases, ℤ, pos, negsuc, neg_ℕ,
}
use oidc_agent.Text.{Str}

unfoldable pub is_digit : ℕ → Bool
is_digit c = leb b'0' c && leb c b'9'

-- The digits of `n` before `acc`; the fuel is more than `n`.
dec_digits : ℕ → ℕ → Str → Str
dec_digits zero n acc = acc
dec_digits (suc fuel) n acc =
    let rest = dec_digits fuel (n / 10) ((48 + n % 10) ∷ acc) in
    if ltb n 10 then (48 + n) ∷ acc else rest

-- printf's `%lu`
unfoldable pub print_lu : ℕ → Str
unfolding dec_digits
print_lu n = dec_digits (suc n) n []

unfoldable pub read_digits : ℕ → Str → ℕ
unfolding is_digit
read_digits acc [] = acc
read_digits acc (c ∷ s) = if is_digit c then read_digits (acc * 10 + (c - 48)) s else acc

unfoldable pub is_space : ℕ → Bool
is_space c = c == 32 || (leb 9 c && leb c 13)

unfoldable pub skip_space : Str → Str
unfolding is_space
skip_space [] = []
skip_space (c ∷ s) = if is_space c then skip_space s else c ∷ s

read_signed : Str → ℤ
unfolding read_digits
read_signed [] = pos 0
read_signed (c ∷ s) =
    if c == b'-'
    then neg_ℕ (read_digits 0 s)
    else if c == b'+'
    then pos (read_digits 0 s)
    else pos (read_digits 0 (c ∷ s))

-- The low 32 bits as an int.
wrap_int : ℕ → ℤ
wrap_int n = let m = n % 2 ^ 32 in if ltb m (2 ^ 31) then pos m else neg_ℕ (2 ^ 32 - m)

-- What glibc makes of a number for an int: strtol keeps it in the range of a 64-bit long, and the
-- assignment keeps its low 32 bits.
unfoldable pub to_int : ℤ → ℤ
unfolding wrap_int
to_int (pos n) = wrap_int (if ltb n (2 ^ 63) then n else 2 ^ 63 - 1)
to_int (negsuc n) = wrap_int (2 ^ 64 - (if ltb n (2 ^ 63) then n + 1 else 2 ^ 63))

-- `sscanf(str, "%d", &i)` with `i` 0 before
unfoldable pub str_to_int : Option Str → ℤ
unfolding skip_space read_signed to_int
str_to_int none = pos 0
str_to_int (some s) = to_int (read_signed (skip_space s))

-- The number at the start of a text, as the conversions of scanf read it.
unfoldable pub read_number : Str → ℤ
unfolding skip_space read_signed
read_number s = read_signed (skip_space s)

-- atol: strtol keeps the number in the range of a 64-bit long.
to_long : ℤ → ℤ
to_long (pos n) = pos (if ltb n (2 ^ 63) then n else 2 ^ 63 - 1)
to_long (negsuc n) = negsuc (if ltb n (2 ^ 63) then n else 2 ^ 63 - 1)

unfoldable pub atol : Str → ℤ
unfolding skip_space read_signed to_long
atol s = to_long (read_signed (skip_space s))

dec_digits-digits :
    (fuel n : ℕ) (acc : Str)
    → All (λ c. is_digit c ≡ true) acc
    → All (λ c. is_digit c ≡ true) (dec_digits fuel n acc)
unfolding dec_digits is_digit
dec_digits-digits zero n acc h = h
dec_digits-digits (suc fuel) n acc h = elim (Bool-cases (ltb n 10)) [
  | inl e ↦ rw e (ground arith, h)
  | inr e ↦ rw e (dec_digits-digits fuel (n / 10) ((48 + n % 10) ∷ acc) (ground arith, h))
]

pub print_lu-digits : (n : ℕ) → All (λ c. is_digit c ≡ true) (print_lu n)
unfolding print_lu
print_lu-digits n = dec_digits-digits (suc n) n [] tt

read_digits_step : (n : ℕ) (l : Str) → read_digits (n / 10) ((48 + n % 10) ∷ l) ≡ read_digits n l
unfolding read_digits
read_digits_step n l =
    let digit : is_digit (48 + n % 10) ≡ true = unfold is_digit in ground arith in
    rw digit (ap (λ k. read_digits k l) (omega arith))

-- Reading what is printed gives the number back, and goes on with what follows.
read_digits-dec_digits :
    (fuel n : ℕ) (acc : Str) → n < fuel → read_digits 0 (dec_digits fuel n acc) ≡ read_digits n acc
unfolding dec_digits
read_digits-dec_digits zero n acc h = absurd (omega arith)
read_digits-dec_digits (suc fuel) n acc h = elim (Bool-cases (ltb n 10)) [
  | inl e ↦ rw e (
      subst (λ k. read_digits k ((48 + n) ∷ acc) ≡ read_digits n acc) (small n e)
        (subst (λ k. read_digits (n / 10) ((48 + k) ∷ acc) ≡ read_digits n acc) (mod_small n e)
          (read_digits_step n acc)))
  | inr e ↦ rw e (
      read_digits-dec_digits fuel (n / 10) ((48 + n % 10) ∷ acc) (ground arith)
      ∙ read_digits_step n acc)
]
  where
    small : (m : ℕ) → ltb m 10 ≡ true → m / 10 ≡ 0
    small m e = ground arith

    mod_small : (m : ℕ) → ltb m 10 ≡ true → m % 10 ≡ m
    mod_small m e = ground arith

dec_digits_grows : (fuel n : ℕ) (acc : Str) → length acc ≤ length (dec_digits fuel n acc)
unfolding dec_digits
dec_digits_grows zero n acc = omega arith
dec_digits_grows (suc fuel) n acc =
    ground (arith, dec_digits_grows fuel (n / 10) ((48 + n % 10) ∷ acc))

print_lu_long : (n : ℕ) → 0 < length (print_lu n)
unfolding print_lu dec_digits
print_lu_long n = ground (arith, dec_digits_grows n (n / 10) ((48 + n % 10) ∷ []))

str_to_int_digits :
    (c : ℕ) (s : Str)
    → is_digit c ≡ true
    → str_to_int (some (c ∷ s)) ≡ to_int (pos (read_digits 0 (c ∷ s)))
unfolding str_to_int is_digit to_int
str_to_int_digits c s h = ground arith

-- A number is printed as a digit and more.
pub print_lu-cons : (n : ℕ) → (c : ℕ) × (s : Str) × (print_lu n ≡ c ∷ s) × (is_digit c ≡ true)
print_lu-cons n = go (print_lu n) (print_lu-digits n) (print_lu_long n)
  where
    go :
        (l : Str)
        → All (λ c. is_digit c ≡ true) l
        → 0 < length l
        → (c : ℕ) × (s : Str) × (l ≡ c ∷ s) × (is_digit c ≡ true)
    go [] h k = absurd (omega arith)
    go (c ∷ s) h k = (c, s, refl, h.0)

pub read_digits-print_lu : (n : ℕ) → read_digits 0 (print_lu n) ≡ n
unfolding print_lu read_digits
read_digits-print_lu n = read_digits-dec_digits (suc n) n [] (omega arith)

pub to_int-small : (n : ℕ) → n < 2 ^ 31 → to_int (pos n) ≡ pos n
unfolding to_int
to_int-small n h =
    let long : ltb n (2 ^ 63) ≡ true = ground arith in
    let low : n % 2 ^ 32 ≡ n = omega arith in
    let int : ltb n (2 ^ 31) ≡ true = ground arith in rw (long, low, int) refl

-- Reading a printed number that fits an int gives the number back.
pub str_to_int-print_lu : (n : ℕ) → n < 2 ^ 31 → str_to_int (some (print_lu n)) ≡ pos n
str_to_int-print_lu n h =
    let (c, s, e, d) = print_lu-cons n in
    let reads : read_digits 0 (c ∷ s) ≡ n = rw e at (read_digits-print_lu n) in
    rw e (str_to_int_digits c s d ∙ ap (λ k. to_int (pos k)) reads ∙ to_int-small n h)
