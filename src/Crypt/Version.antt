-- ===== src/Crypt/Version.antt =====
-- src/utils/versionUtils.c: the version line of encrypted files, and the comparison of versions.
pub mod Laws
use oidc_agent.Prelude.{
  ℕ, Bool, true, false, Option, none, some, List, ◌++◌, ◌==◌, ltb, leb, has, length, get_or,
  get_elem?, if◌then◌else◌, ℤ, pos,
}
use oidc_agent.Text.{Str, codes}
use oidc_agent.Text.Tokens.{strtok}
use oidc_agent.Text.Scan.{scan_fields, to_ushort}
use oidc_agent.Crypt.Answer.{Answer, ok, undefined, ◌>>=◌, deref}
use oidc_agent.Crypt.Format.{shown}

abbrev pub version_line_fmt : Str
version_line_fmt = codes "Generated using version: "

-- Each character of the text is a delimiter for the strtok of the code.
abbrev pub in_version_line_fmt : ℕ → Bool
in_version_line_fmt c = has (λ x. x == c) version_line_fmt

unfoldable pub version_line_to_simple_version : Option Str → Option Str
version_line_to_simple_version none = none
version_line_to_simple_version (some version_line) =
    elim (strtok in_version_line_fmt version_line) [
      | none ↦ none
      | some (version, _) ↦ some version
    ]

unfoldable pub simple_version_to_version_line : Option Str → Str
simple_version_to_version_line version = version_line_fmt ++ shown version

-- A number that sscanf does not reach is not initialised, but for the patch number.
number_at : List ℤ → ℕ → Answer ℕ
number_at v i = elim (get_elem? v i) [ none ↦ undefined | some z ↦ ok (to_ushort z) ]

compare_patch : List ℤ → List ℤ → Bool
compare_patch v m = leb (to_ushort (get_or m 2 (pos 0))) (to_ushort (get_or v 2 (pos 0)))

compare_minor : List ℤ → List ℤ → Answer Bool
unfolding number_at compare_patch
compare_minor v m = do
  v_min ← number_at v 1
  m_min ← number_at m 1
  ok (if ltb m_min v_min then true else if ltb v_min m_min then false else compare_patch v m)

compare_major : List ℤ → List ℤ → Answer Bool
unfolding number_at compare_minor
compare_major v m = do
  v_maj ← number_at v 0
  m_maj ← number_at m 0
  if ltb m_maj v_maj then ok true else if ltb v_maj m_maj then ok false else compare_minor v m

unfoldable pub version_at_least : Option Str → Str → Answer Bool
unfolding compare_major
version_at_least none min_version = ok false
version_at_least (some version) min_version =
    if ltb (length version) 5
    then ok false
    else compare_major (scan_fields 3 b'.' version) (scan_fields 3 b'.' min_version)
