-- ===== src/Text/Edit.antt =====
-- src/utils/string/stringUtils.c: tests for parts of a string, and changes by character.
pub mod Laws
use oidc_agent.Prelude.{
  ℕ, suc, ◌+◌, Bool, true, false, not, ◌&&◌, ◌||◌, Option, none, some, List, [], ◌∷◌, ◌++◌, ◌==◌,
  if◌then◌else◌,
}
use oidc_agent.Text.{Str}

-- `strncmp(pre, str, strlen(pre)) == 0`
pub is_prefix : Str → Str → Bool
is_prefix [] str = true
is_prefix (x ∷ pre) [] = false
is_prefix (x ∷ pre) (y ∷ str) = x == y && is_prefix pre str

unfoldable pub strstarts : Option Str → Option Str → Bool
unfolding is_prefix
strstarts none pre = false
strstarts (some str) none = false
strstarts (some str) (some pre) = is_prefix pre str

-- `strstr(h, n) != NULL`
pub contains : Str → Str → Bool
unfolding is_prefix
contains [] n = is_prefix n []
contains (x ∷ h) n = is_prefix n (x ∷ h) || contains h n

unfoldable pub str_sub_string : Option Str → Option Str → Bool
unfolding contains
str_sub_string none n = false
str_sub_string (some h) none = false
str_sub_string (some h) (some n) = contains h n

-- The loop of strelim. After a removal the next character has moved to the index that was looked at,
-- and the index goes on, so that this character is kept unseen. The flag says that it is so.
pub elim_from : ℕ → Bool → Str → Str
elim_from c unseen [] = []
elim_from c true (x ∷ s) = x ∷ elim_from c false s
elim_from c false (x ∷ s) =
    let removed = elim_from c true s in
    let kept = elim_from c false s in if x == c then removed else x ∷ kept

unfoldable pub strelim : Option Str → ℕ → Option Str
unfolding elim_from
strelim none c = none
strelim (some str) c = some (elim_from c false str)

pub count_char : ℕ → Str → ℕ
count_char c [] = 0
count_char c (x ∷ s) = let rest = count_char c s in if x == c then suc rest else rest

unfoldable pub str_count_char : Option Str → ℕ → ℕ
unfolding count_char
str_count_char none c = 0
str_count_char (some s) c = count_char c s

pub escape_from : ℕ → Str → Str
escape_from c [] = []
escape_from c (x ∷ s) = let rest = escape_from c s in if x == c then b'\\' ∷ x ∷ rest else x ∷ rest

unfoldable pub escape_char_in_str : Option Str → ℕ → Option Str
unfolding escape_from
escape_char_in_str none c = none
escape_char_in_str (some str) c = some (escape_from c str)

pub str_replace_char : Str → ℕ → ℕ → Str
str_replace_char [] orig rep = []
str_replace_char (x ∷ str) orig rep =
    let rest = str_replace_char str orig rep in if x == orig then rep ∷ rest else x ∷ rest

pub strcutafterfirst : Str → ℕ → Str
strcutafterfirst [] c = []
strcutafterfirst (x ∷ str) c = let rest = strcutafterfirst str c in if x == c then [] else x ∷ rest

pub last_char : ℕ → Str → ℕ
last_char x [] = x
last_char x (y ∷ s) = last_char y s

-- The character before an empty string is read by the code; there is no result for it here.
unfoldable pub with_trailing_slash : Str → Option Str
unfolding last_char
with_trailing_slash [] = none
with_trailing_slash (x ∷ s) =
    if last_char x s == b'/' then some (x ∷ s) else some ((x ∷ s) ++ b'/' ∷ [])
