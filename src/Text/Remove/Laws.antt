-- ===== src/Text/Remove/Laws.antt =====
-- What is left of a string.
use oidc_agent.Prelude.{zero, ◌≡◌, ◌≢◌, refl, ap, ◌∙◌, none, some, [], ◌∷◌, ◌++◌, length}
use oidc_agent.Text.{Str}
use oidc_agent.Text.Edit.Laws.{is_prefix-append}
use oidc_agent.Text.Remove.{remove_from, strremove, strelim_if_after, remove_scope}

passed_over : (sub s r : Str) → remove_from sub (length s) (s ++ r) ≡ remove_from sub zero r
unfolding remove_from
passed_over sub [] r = refl
passed_over sub (c ∷ s) r = passed_over sub s r

-- An occurrence at the front is removed.
pub strremove-append : (sub r : Str) → sub ≢ [] → strremove (sub ++ r) sub ≡ strremove r sub
unfolding strremove remove_from
strremove-append [] r h = absurd (h refl)
strremove-append (c ∷ sub) r h = rw (is_prefix-append (c ∷ sub) r) (passed_over (c ∷ sub) sub r)

append_nil : (s : Str) → s ++ [] ≡ s
append_nil [] = refl
append_nil (c ∷ s) = ap (λ t. c ∷ t) (append_nil s)

scope_left :
    (t : Str)
    → t ≡ []
    → elim (strelim_if_after t b' ' b' ') [ none ↦ none | some s ↦ some (some s) ] ≡ none
unfolding strelim_if_after
scope_left t e =
    ap (λ t. elim (strelim_if_after t b' ' b' ') [ none ↦ none | some s ↦ some (some s) ]) e

-- Removing a scope from scopes that hold nothing but it, once or more often in a row, has no defined
-- result: the code leaves the bounds of the string that is empty by then.
pub remove_scope-only :
    (rem r : Str) → rem ≢ [] → strremove r rem ≡ [] → remove_scope (some (rem ++ r)) rem ≡ none
unfolding remove_scope
remove_scope-only rem r h e = scope_left (strremove (rem ++ r) rem) (strremove-append rem r h ∙ e)
