-- ===== src/Text/Scan.antt =====
-- The conversions of sscanf for numbers, with what follows them, and strToLong, strToULong and
-- strToUShort of src/utils/string/stringUtils.c.
pub mod Laws
use oidc_agent.Prelude.{
  ℕ, zero, suc, ◌+◌, ◌-◌, ◌%◌, ◌^◌, Option, none, some, List, [], ◌∷◌, ◌==◌, ltb, if◌then◌else◌, ℤ,
  pos, negsuc, neg_ℕ,
}
use oidc_agent.Text.{Str}
use oidc_agent.Text.Number.{is_digit, read_digits, skip_space, read_number, print_lu, atol}

pub skip_digits : Str → Str
skip_digits [] = []
skip_digits (c ∷ s) = if is_digit c then skip_digits s else c ∷ s

scan_unsigned : (ℕ → ℤ) → Str → Option (ℤ × Str)
unfolding skip_digits
scan_unsigned sign [] = none
scan_unsigned sign (c ∷ s) =
    if is_digit c then some (sign (read_digits 0 (c ∷ s)), skip_digits s) else none

scan_signed : Str → Option (ℤ × Str)
unfolding scan_unsigned
scan_signed [] = none
scan_signed (c ∷ s) =
    if c == b'-'
    then scan_unsigned neg_ℕ s
    else if c == b'+'
    then scan_unsigned pos s
    else scan_unsigned pos (c ∷ s)

-- A conversion of sscanf: white space, a sign and digits; `none` where there is no digit.
unfoldable pub scan_number : Str → Option (ℤ × Str)
unfolding scan_signed
scan_number s = scan_signed (skip_space s)

-- At most `n` numbers with the character `c` of the format between them. The first text that does
-- not fit ends it.
unfoldable pub scan_fields : ℕ → ℕ → Str → List ℤ
scan_fields zero c s = []
scan_fields (suc n) c s = elim (scan_number s) [
  | none ↦ []
  | some (v, []) ↦ v ∷ []
  | some (v, x ∷ r) ↦ (let more = scan_fields n c r in if x == c then v ∷ more else v ∷ [])
]

-- strtoul: a number is kept in the range of a 64-bit unsigned long, where a negative one wraps around.
unfoldable pub to_ulong : ℤ → ℕ
to_ulong (pos n) = if ltb n (2 ^ 64) then n else 2 ^ 64 - 1
to_ulong (negsuc n) = if ltb (n + 1) (2 ^ 64) then 2 ^ 64 - (n + 1) else 2 ^ 64 - 1

-- `%hu` keeps the low 16 bits.
unfoldable pub to_ushort : ℤ → ℕ
unfolding to_ulong
to_ushort z = to_ulong z % 2 ^ 16

unfoldable pub str_to_long : Option Str → ℤ
str_to_long none = pos 0
str_to_long (some str) = atol str

unfoldable pub str_to_u_long : Option Str → ℕ
unfolding to_ulong
str_to_u_long none = 0
str_to_u_long (some str) = to_ulong (read_number str)

unfoldable pub str_to_u_short : Option Str → ℕ
unfolding to_ushort
str_to_u_short none = 0
str_to_u_short (some str) = to_ushort (read_number str)

-- printf's `%d`
unfoldable pub print_d : ℤ → Str
print_d (pos n) = print_lu n
print_d (negsuc n) = b'-' ∷ print_lu (suc n)
