-- ===== src/Crypt/Memory.antt =====
-- src/utils/crypt/memoryCrypt.c. The base64 coding is libsodium's, reached through toBase64 and
-- fromBase64 of crypt.c, and is a parameter: `to_base64 bin` is the text that codes `bin`, and
-- `from_base64 text n` are the `n` bytes that decoding leaves in the buffer.
pub mod Laws
use Prim.Native.Nat.{bit_xor}
use oidc_agent.Prelude.{
  ℕ, zero, suc, ◌+◌, ◌-◌, ◌/◌, ◌%◌, ◌^◌, ◌<◌, ◌≡◌, ◌≢◌, Bool, true, false, Option, none, some, List,
  [], ◌∷◌, ◌++◌, ◌==◌, ◌||◌, length, All, if◌then◌else◌, ℤ, pos, negsuc,
}
use oidc_agent.Text.{Str, str_valid}
use oidc_agent.Text.Tokens.{strtok}
use oidc_agent.Text.Number.{print_lu, str_to_int}

-- `*((unsigned char*)&key + i)` on a little-endian machine.
key_byte : ℕ → ℕ → ℕ
key_byte key i = key / 256 ^ i % 256

xor_from : ℕ → ℕ → List ℕ → List ℕ
unfolding key_byte
xor_from key i [] = []
xor_from key i (c ∷ s) = bit_xor c (key_byte key (i % 8)) ∷ xor_from key (i + 1) s

-- The list holds the `len` bytes that are read.
unfoldable pub xor_crypt : List ℕ → ℕ → List ℕ
unfolding xor_from
xor_crypt string key = xor_from key 0 string

-- A buffer read as a C string ends at its first NUL.
unfoldable pub c_string : List ℕ → Str
c_string [] = []
c_string (c ∷ s) = if c == 0 then [] else c ∷ c_string s

-- The conversion of an int to `size_t`.
abbrev pub to_size : ℤ → ℕ
to_size (pos n) = n
to_size (negsuc n) = 2 ^ 64 - (n + 1)

abbrev pub is_colon : ℕ → Bool
is_colon c = c == b':'

pub record Base64 : Type 0 where
  pub to_base64 : List ℕ → Str
  pub from_base64 : Str → ℕ → List ℕ

-- What is documented of the coding.
pub record IsCoding (b : Base64) : Type 0 where
  pub decodes :
      (bin : List ℕ) → All (λ c. c < 256) bin → b.from_base64 (b.to_base64 bin) (length bin) ≡ bin
  pub no_colon : (bin : List ℕ) → All (λ c. is_colon c ≡ false) (b.to_base64 bin)
  pub not_empty : (bin : List ℕ) → bin ≢ [] → b.to_base64 bin ≢ []

module _ (b : Base64) (memory_pass : ℕ) where
  unfoldable pub memory_encrypt : Option Str → Option Str
  unfolding xor_crypt
  memory_encrypt none = none
  memory_encrypt (some text) =
      if str_valid (some text)
      then some (print_lu (length text) ++ b':' ∷ b.to_base64 (xor_crypt text memory_pass))
      else none

  decrypt_parts : Str → Option (Str × Str) → Option Str
  unfolding xor_crypt c_string
  decrypt_parts number none = none
  decrypt_parts number (some (cipher, _)) =
      let len = to_size (str_to_int (some number)) in
      if len == 0 then none else some (c_string (xor_crypt (b.from_base64 cipher len) memory_pass))

  decrypt_tokens : Option (Str × Str) → Option Str
  unfolding decrypt_parts
  decrypt_tokens none = none
  decrypt_tokens (some (number, rest)) = decrypt_parts number (strtok is_colon rest)

  unfoldable pub memory_decrypt : Option Str → Option Str
  unfolding decrypt_tokens
  memory_decrypt none = none
  memory_decrypt (some cipher) =
      if str_valid (some cipher) then decrypt_tokens (strtok is_colon cipher) else none
