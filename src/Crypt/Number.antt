-- ===== src/Crypt/Number.antt =====
-- src/utils/string/numberString.c: numbers in base 96, written with the printable characters of ASCII.
pub mod Laws
use oidc_agent.Prelude.{
  ℕ, zero, suc, ◌+◌, ◌-◌, ◌*◌, ◌/◌, ◌%◌, ◌^◌, Bool, Option, none, some, List, [], ◌∷◌, ◌++◌, ◌==◌,
  ltb, length, get_elem?, if◌then◌else◌,
}
use oidc_agent.Text.{Str, codes}

-- The characters from b' ' to b'~', in their order.
abbrev pub table : Str
table =
    codes " !\"#$%&'()*+,-./"
    ++ codes "0123456789:;<=>?@ABCDEFGHIJKLMNOPQRSTUVWXYZ[\\]^_`"
    ++ codes "abcdefghijklmnopqrstuvwxyz{|}~"

-- The loop over the table from the index `i` on; -1 as an unsigned short is 65535.
number_from : ℕ → Str → ℕ → ℕ
number_from i [] c = 65535
number_from i (t ∷ ts) c = let rest = number_from (i + 1) ts c in if t == c then i + 1 else rest

unfoldable pub char_to_number : ℕ → ℕ
unfolding number_from
char_to_number c = number_from 0 table c

-- `none` where the code reads in front of the table or behind it.
unfoldable pub number_to_char : ℕ → Option ℕ
number_to_char zero = none
number_to_char (suc n) = get_elem? table n

-- The loop ends when the exponent is 0: 64 rounds are enough for 64 bits.
pub lpow_loop : ℕ → ℕ → ℕ → ℕ → ℕ
lpow_loop zero result base exp = result
lpow_loop (suc fuel) result base exp =
    let rest =
      lpow_loop fuel (if exp % 2 == 1 then result * base % 2 ^ 64 else result)
        (base * base % 2 ^ 64) (exp / 2) in
    if exp == 0 then result else rest

unfoldable pub lpow : ℕ → ℕ → ℕ
unfolding lpow_loop
lpow base exp = lpow_loop 64 1 base exp

-- The sum wraps around at 64 bits.
pub number_loop : ℕ → Str → ℕ
unfolding lpow char_to_number
number_loop i [] = i
number_loop i (c ∷ str) = number_loop ((i + lpow 96 (length str) * char_to_number c) % 2 ^ 64) str

unfoldable pub string_to_number : Option Str → ℕ
unfolding number_loop
string_to_number none = 0
string_to_number (some str) = number_loop 0 str

-- The loop with `i` free places in front of what is written; `none` where it writes or reads outside of
-- an array. With no place left it would write in front of the buffer.
pub string_loop : ℕ → ℕ → Str → Option Str
unfolding number_to_char
string_loop zero l acc = if l == 0 then some acc else none
string_loop (suc i) l acc =
    let rest : Option Str = elim (number_to_char (l % 96)) [
      | none ↦ none
      | some c ↦ string_loop i (l / 96) (c ∷ acc)
    ] in
    if l == 0 then some acc else rest

-- The buffer has room for nine characters.
unfoldable pub number_to_string : ℕ → Option Str
unfolding string_loop
number_to_string l = string_loop 9 l []
