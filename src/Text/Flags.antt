-- ===== src/Text/Flags.antt =====
-- src/utils/string/stringUtils.c: strToUChar and strToBit.
use oidc_agent.Prelude.{
  ℕ, ◌+◌, ◌-◌, ◌%◌, ◌^◌, Bool, not, Option, none, some, ◌==◌, ltb, if◌then◌else◌, ℤ, pos, negsuc,
}
use oidc_agent.Text.{Str, codes}
use oidc_agent.Text.Case.{strcaseequal}
use oidc_agent.Text.Number.{read_number}

-- What glibc makes of a number for an unsigned char: strtoul keeps it in the range of a 64-bit unsigned
-- long, where a negative number wraps around, and the assignment keeps its low 8 bits.
to_uchar : ℤ → ℕ
to_uchar (pos n) = (if ltb n (2 ^ 64) then n else 2 ^ 64 - 1) % 256
to_uchar (negsuc n) = (if ltb (n + 1) (2 ^ 64) then 2 ^ 64 - (n + 1) else 2 ^ 64 - 1) % 256

unfoldable pub str_to_u_char : Option Str → ℕ
unfolding to_uchar
str_to_u_char none = 0
str_to_u_char (some str) =
    if strcaseequal (some (codes "false")) (some str)
    then 0
    else if strcaseequal (some (codes "true")) (some str)
    then 1
    else to_uchar (read_number str)

unfoldable pub str_to_bit : Option Str → Bool
unfolding str_to_u_char
str_to_bit str = not (str_to_u_char str == 0)
