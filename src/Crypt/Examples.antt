-- ===== src/Crypt/Examples.antt =====
-- A coding that fills the place of libsodium's, two letters for a byte, and tests of
-- src/utils/crypt/memoryCrypt.c.
use oidc_agent.Prelude.{
  ℕ, suc, ◌+◌, ◌-◌, ◌*◌, ◌/◌, ◌%◌, ◌<◌, ◌≡◌, ◌≢◌, refl, false, some, List, [], ◌∷◌, arith, length,
  All,
}
use oidc_agent.Text.{Str, codes}
use oidc_agent.Crypt.Memory.{Base64, IsCoding, is_colon, memory_encrypt, memory_decrypt}
use oidc_agent.Crypt.Memory.Laws.{memory_decrypt-memory_encrypt}

unfoldable pub to_letters : List ℕ → Str
to_letters [] = []
to_letters (c ∷ s) = (97 + c / 16) ∷ (97 + c % 16) ∷ to_letters s

from_letters : Str → ℕ → List ℕ
from_letters (x ∷ y ∷ s) (suc n) = ((x - 97) * 16 + (y - 97)) ∷ from_letters s n
from_letters s n = []

unfoldable pub letters : Base64
unfolding to_letters from_letters
letters = record { to_base64 = to_letters; from_base64 = from_letters }

letters-decodes :
    (bin : List ℕ) → All (λ c. c < 256) bin → from_letters (to_letters bin) (length bin) ≡ bin
unfolding to_letters from_letters
letters-decodes [] h = refl
letters-decodes (c ∷ s) h = ground (arith, letters-decodes s h.1)

letters-no_colon : (bin : List ℕ) → All (λ c. is_colon c ≡ false) (to_letters bin)
unfolding to_letters
letters-no_colon [] = tt
letters-no_colon (c ∷ s) = (ground arith, (ground arith, letters-no_colon s))

letters-not_empty : (bin : List ℕ) → bin ≢ [] → to_letters bin ≢ []
unfolding to_letters
letters-not_empty [] h e = h refl
letters-not_empty (c ∷ s) h e = cc

pub letters-IsCoding : IsCoding letters
unfolding letters
letters-IsCoding = record {
  decodes = letters-decodes;
  no_colon = letters-no_colon;
  not_empty = letters-not_empty;
}

memory_decrypt-memory_encrypt_example :
    memory_decrypt letters 77 (memory_encrypt letters 77 (some (codes "rt"))) ≡ some (codes "rt")
memory_decrypt-memory_encrypt_example =
    memory_decrypt-memory_encrypt letters letters-IsCoding 77 (codes "rt")
      (unfold oidc_agent.Text.str_valid in refl)
      ((omega arith, omega arith), ((omega arith, omega arith), tt)) (omega arith)
