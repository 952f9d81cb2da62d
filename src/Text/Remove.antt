-- ===== src/Text/Remove.antt =====
-- src/utils/string/stringUtils.c: strremove and strelimIfAfter, and removeScope of
-- src/utils/oidc/oidcUtils.c.
pub mod Laws
use oidc_agent.Prelude.{
  ℕ, zero, suc, ◌-◌, Bool, true, false, ◌&&◌, Option, none, some, List, [], ◌∷◌, ◌==◌, length, map,
  if◌then◌else◌,
}
use oidc_agent.Text.{Str}
use oidc_agent.Text.Edit.{is_prefix}

-- `strlen(sub) - 1`, for a string that is not empty.
abbrev pub behind_first : Str → ℕ
behind_first [] = 0
behind_first (c ∷ sub) = length sub

-- What is left without the occurrences of `sub`, of which each is searched behind the one before; the
-- counter says how many characters of an occurrence are still to be passed over.
pub remove_from : Str → ℕ → Str → Str
remove_from sub n [] = []
remove_from sub (suc n) (c ∷ s) = remove_from sub n s
remove_from sub zero (c ∷ s) =
    let removed = remove_from sub (behind_first sub) s in
    let kept = remove_from sub zero s in if is_prefix sub (c ∷ s) then removed else c ∷ kept

-- The loop of the code does not end for an empty `sub`.
unfoldable pub strremove : Str → Str → Str
unfolding remove_from
strremove str sub = remove_from sub zero str

-- The loop of strelimIfAfter with `n` turns left, behind `prev`. After a removal the next character is
-- kept unseen.
pub elim_after : ℕ → ℕ → ℕ → Bool → ℕ → Str → Str
elim_after c f n unseen prev [] = []
elim_after c f n true prev (x ∷ s) = x ∷ elim_after c f n false x s
elim_after c f zero false prev (x ∷ s) = x ∷ s
elim_after c f (suc n) false prev (x ∷ s) =
    let removed = elim_after c f n true prev s in
    let kept = elim_after c f n false x s in if x == c && prev == f then removed else x ∷ kept

-- The last character is not looked at. For an empty string the bound `len - 1` wraps around, and the
-- code reads and writes behind the string; there is no result for it here.
unfoldable pub strelim_if_after : Str → ℕ → ℕ → Option Str
unfolding elim_after
strelim_if_after [] c f = none
strelim_if_after (x ∷ s) c f = some (x ∷ elim_after c f (length s - 1) false x s)

-- `none` where strelimIfAfter has no result, and otherwise the scopes, which may be NULL.
unfoldable pub remove_scope : Option Str → Str → Option (Option Str)
unfolding strremove strelim_if_after
remove_scope none rem = some none
remove_scope (some scopes) rem = elim (strelim_if_after (strremove scopes rem) b' ' b' ') [
  | none ↦ none
  | some s ↦ some (some s)
]
