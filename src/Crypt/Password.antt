-- ===== src/Crypt/Password.antt =====
-- src/utils/crypt/passwordCrypt.c: the encryption of the passwords that the agent keeps. The calls of
-- libsodium are parameters.
use oidc_agent.Prelude.{
  ℕ, ◌+◌, ◌-◌, ◌*◌, ◌%◌, ◌^◌, ◌≤◌, ◌<◌, ◌≡◌, Option, some, List, ◌++◌, length, arith,
}
use oidc_agent.Text.{Str, IsText}
use oidc_agent.Crypt.Answer.{Answer, ok, arg_null, unset, ◌>>=◌, deref, non_null}
use oidc_agent.Crypt.Format.{Sodium, shown, crypt_encrypt, crypt_decrypt}
use oidc_agent.Crypt.Format.Sealed.{IsSodium, IsRandom, hash_of, encryption_part}
use oidc_agent.Crypt.Format.Round.{crypt_decrypt-crypt_encrypt}
use oidc_agent.Crypt.Number.{number_to_string}

abbrev pub max_supported_pass : ℕ
max_supported_pass = 692533995824480255

-- `uniform bound` is what randombytes_uniform gives, and `b` what randombytes_random gives. The bound is
-- passed as a 32-bit number. The low half of the shifted number is 0, so that `|` adds `b`.
unfoldable pub init_password_crypt : (ℕ → ℕ) → ℕ → ℕ
init_password_crypt uniform b =
    let limit = max_supported_pass - 0xffff_ffff in
    let a = uniform (limit % 2 ^ 32) in (a * 2 ^ 32 % 2 ^ 64) + b

-- What is documented of randombytes_uniform.
abbrev pub IsUniform : (ℕ → ℕ) → Type 0
IsUniform uniform =
    (bound : ℕ) → (bound < 2 → uniform bound ≡ 0) × (2 ≤ bound → uniform bound < bound)

-- The bound does not fit its type, and is 0: if randombytes_uniform is as it is documented, then the
-- number that initPasswordCrypt sets is the one of 32 random bits, whatever the other call gives.
pub init_password_crypt_lem :
    (uniform : ℕ → ℕ) (b : ℕ) → IsUniform uniform → init_password_crypt uniform b ≡ b
unfolding init_password_crypt
init_password_crypt_lem uniform b h = let zero = (h 0).0 (omega arith) in rw zero (omega arith)

module _ (s : Sodium) (password_pass : ℕ) where
  unfoldable pub encrypt_password : Option Str → Option Str → List ℕ → List ℕ → Answer Str
  encrypt_password password salt new_salt nonce = do
    text ← non_null arg_null password
    pass ← deref (number_to_string password_pass)
    crypt_encrypt s (some text) (some (shown salt ++ pass)) new_salt nonce

  -- A number that cannot be written has no text here.
  unfoldable pub decrypt_password : Option Str → Option Str → Answer Str
  decrypt_password cypher salt = do
    text ← non_null unset cypher
    pass ← deref (number_to_string password_pass)
    crypt_decrypt s (some text) (some (shown salt ++ pass))

  -- An encrypted password is decrypted for the same account: if the number of the agent can be written,
  -- the hash of the account's name with it and the secret box are computed, the random bytes have their
  -- lengths, and the password is a C string whose length fits, then decryptPassword gives back the
  -- password that encryptPassword was given for the same name.
  pub decrypt_password-encrypt_password :
      IsSodium s
      → (password name pass : Str) (salt nonce key box : List ℕ)
      → number_to_string password_pass ≡ some pass
      → IsText password
      → IsRandom s salt nonce
      → length password + s.mac_bytes < 2 ^ 64
      → hash_of s (name ++ pass) salt ≡ some key
      → s.secretbox password nonce (encryption_part s key) ≡ some box
      → (cypher : Str) × (encrypt_password (some password) (some name) salt nonce ≡ ok cypher)
        × (decrypt_password (some cypher) (some name) ≡ ok password)
  unfolding encrypt_password decrypt_password
  decrypt_password-encrypt_password h password name pass salt nonce key box n t r l e f =
      let (cypher, encrypts, decrypts) =
        crypt_decrypt-crypt_encrypt s h password (name ++ pass) salt nonce key box r e f t l in
      (cypher, rw n encrypts, rw n decrypts)
