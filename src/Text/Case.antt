-- ===== src/Text/Case.antt =====
-- src/utils/string/stringUtils.c: comparisons that do not look at the case of letters, in the C locale.
use oidc_agent.Prelude.{
  ℕ, ◌+◌, Bool, true, false, ◌&&◌, Option, none, some, map, leb, if◌then◌else◌,
}
use oidc_agent.Text.{Str, same_text}
use oidc_agent.Text.Edit.{contains}

-- tolower
unfoldable pub lower : ℕ → ℕ
lower c = if leb b'A' c && leb c b'Z' then c + 32 else c

unfoldable pub strlower : Str → Str
unfolding lower
strlower str = map lower str

-- strcasecmp compares the lower case texts.
unfoldable pub strcaseequal : Option Str → Option Str → Bool
unfolding strlower
strcaseequal none none = true
strcaseequal none (some b) = false
strcaseequal (some a) none = false
strcaseequal (some a) (some b) = same_text (strlower a) (strlower b)

-- strcasestr searches for the lower case text in the lower case text.
unfoldable pub str_sub_string_case : Option Str → Option Str → Bool
unfolding strlower
str_sub_string_case none n = false
str_sub_string_case (some h) none = false
str_sub_string_case (some h) (some n) = contains (strlower h) (strlower n)
