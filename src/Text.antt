-- ===== src/Text.antt =====
-- src/utils/string/stringUtils.c over C strings, and the library calls that its clients make. A C string
-- is the list of its bytes before the terminating NUL; a `char*` is `none` for NULL.
pub mod Laws
pub mod Tokens
pub mod Number
pub mod Scan
pub mod Edit
pub mod Remove
pub mod Case
pub mod Flags
mod Examples
use Prim.Native.Char.{code}
use Prim.Native.String.{String}
use oidc_agent.Prelude.{
  ℕ, ◌<◌, Bool, true, false, not, ◌&&◌, Option, none, some, List, [], ◌∷◌, ◌==◌, All,
}

abbrev pub Str : Type 0
Str = List ℕ

-- The bytes of a literal of the source, which is ASCII.
abbrev pub codes : String → Str
codes String.[] = []
codes (String.◌∷◌ c s) = code c ∷ codes s

-- The bytes of a C string are not NUL and fit a byte.
abbrev pub IsText : Str → Type 0
IsText = All (λ c. (0 < c) × (c < 256))

-- `strcmp(a, b) == 0`
unfoldable pub same_text : Str → Str → Bool
same_text [] [] = true
same_text [] (y ∷ ys) = false
same_text (x ∷ xs) [] = false
same_text (x ∷ xs) (y ∷ ys) = x == y && same_text xs ys

unfoldable pub strequal : Option Str → Option Str → Bool
unfolding same_text
strequal none none = true
strequal none (some b) = false
strequal (some a) none = false
strequal (some a) (some b) = same_text a b

unfoldable pub str_valid : Option Str → Bool
unfolding strequal
str_valid none = false
str_valid (some c) =
    not (strequal (some (codes "")) (some c))
    && not (strequal (some (codes "(null)")) (some c))
    && not (strequal (some (codes "null")) (some c))
