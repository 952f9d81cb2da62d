-- ===== src/Text/Examples.antt =====
-- Tests of src/utils/string/stringUtils.c.
use oidc_agent.Prelude.{◌≡◌, refl, some, none, []}
use oidc_agent.Text.Remove.{remove_scope, strremove}
use oidc_agent.Text.Remove.Laws.{remove_scope-only}
use oidc_agent.Text.{Str, codes}
use oidc_agent.Text.Edit.{strelim}
use oidc_agent.Text.Edit.Laws.{has_char, has_double, strelim_leaves}

abbrev word : Str
word = codes "xaab/c"

strelim_leaves_example :
    (out : Str) × (strelim (some word) b'a' ≡ some out) × (has_char b'a' out ≡ has_double b'a' word)
strelim_leaves_example = strelim_leaves word b'a'

remove_scope-only_example :
    remove_scope (some (codes "offline_access")) (codes "offline_access") ≡ none
remove_scope-only_example =
    remove_scope-only (codes "offline_access") [] (λ e. cc) (unfold strremove in refl)
