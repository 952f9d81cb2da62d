-- ===== src/Text/Laws.antt =====
-- Comparison of C strings decides equality.
use oidc_agent.Prelude.{◌≡◌, ◌↔◌, true, Option, none, some, [], ◌∷◌, arith}
use oidc_agent.Text.{Str, same_text, strequal}

pub same_text_iff : (a b : Str) → (same_text a b ≡ true) ↔ (a ≡ b)
unfolding same_text
same_text_iff [] [] = ground arith
same_text_iff [] (y ∷ ys) = ground arith
same_text_iff (x ∷ xs) [] = ground arith
same_text_iff (x ∷ xs) (y ∷ ys) = ground (arith, same_text_iff xs ys)

-- `strequal` decides equality of strings, two NULLs counting as equal.
pub strequal_iff : (a b : Option Str) → (strequal a b ≡ true) ↔ (a ≡ b)
unfolding strequal
strequal_iff none none = ground arith
strequal_iff none (some b) = ground arith
strequal_iff (some a) none = ground arith
strequal_iff (some a) (some b) = ground (arith, same_text_iff a b)
