-- ===== src/Crypt/Hex.antt =====
-- src/utils/crypt/hexCrypt.c: texts that were encrypted before version 2.1.0.
use oidc_agent.Prelude.{ℕ, Option, none, some, List, ltb, if◌then◌else◌, pos}
use oidc_agent.Text.{Str}
use oidc_agent.Crypt.Memory.{c_string}
use oidc_agent.Crypt.Answer.{
  Answer, ok, err, undefined, CryptError, arg_null, out_of_memory, wrong_password, decrypt_failed,
  malformed, malformed_ipc, unset, internal, ◌>>=◌, non_null,
}
use oidc_agent.Crypt.Format.{Sodium, CryptParameter}

abbrev pub legacy_18_crypt_params : CryptParameter
legacy_18_crypt_params = record {
  nonce_len = 24;
  salt_len = 16;
  mac_len = 16;
  key_len = 32;
  base64_variant = pos 0;
  hash_ops_limit = pos 4;
  hash_mem_limit = pos 33554432;
  hash_alg = pos 1;
}

abbrev pub legacy_23_crypt_params : CryptParameter
legacy_23_crypt_params = record legacy_18_crypt_params {
  hash_ops_limit = pos 2;
  hash_mem_limit = pos 67108864;
  hash_alg = pos 2;
}

same_error : CryptError → CryptError → CryptError
same_error arg_null arg_null = arg_null
same_error out_of_memory out_of_memory = out_of_memory
same_error decrypt_failed decrypt_failed = decrypt_failed
same_error malformed malformed = malformed
same_error malformed_ipc malformed_ipc = malformed_ipc
same_error unset unset = unset
same_error internal internal = internal
same_error error18 error23 = wrong_password

module _ (s : Sodium) where
  -- Without the branch for a new salt, which no caller takes.
  unfoldable pub crypt_key_derivation_hex : Str → Str → CryptParameter → Answer (List ℕ)
  crypt_key_derivation_hex password salt_hex params = non_null out_of_memory (
      s.pwhash params.key_len password (s.hex2bin salt_hex params.salt_len) params.hash_ops_limit
        params.hash_mem_limit params.hash_alg)

  opened_hex : Option (List ℕ) → Answer Str
  opened_hex none = err wrong_password
  opened_hex (some text) = ok (c_string text)

  unfoldable pub crypt_decrypt_hex_with_params :
      Str → ℕ → Str → Str → Str → CryptParameter → Answer Str
  unfolding crypt_key_derivation_hex opened_hex
  crypt_decrypt_hex_with_params ciphertext_hex cipher_len password nonce_hex salt_hex params =
      if ltb cipher_len params.mac_len then err malformed else do
        key ← crypt_key_derivation_hex password salt_hex params
        opened_hex (
            s.secretbox_open (s.hex2bin ciphertext_hex cipher_len)
              (s.hex2bin nonce_hex params.nonce_len) key)

  second_error : CryptError → Answer Str → Answer Str
  unfolding same_error
  second_error error18 (ok res23) = ok res23
  second_error error18 (err error23) = err (same_error error18 error23)
  second_error error18 undefined = undefined

  first_answer : Answer Str → Answer Str → Answer Str
  unfolding second_error
  first_answer (ok res18) res23 = ok res18
  first_answer (err error18) res23 = second_error error18 res23
  first_answer undefined res23 = undefined

  unfoldable pub crypt_decrypt_hex : Str → ℕ → Str → Str → Str → Answer Str
  unfolding crypt_decrypt_hex_with_params first_answer
  crypt_decrypt_hex ciphertext_hex cipher_len password nonce_hex salt_hex =
      first_answer
        (crypt_decrypt_hex_with_params ciphertext_hex cipher_len password nonce_hex salt_hex
          legacy_18_crypt_params)
        (crypt_decrypt_hex_with_params ciphertext_hex cipher_len password nonce_hex salt_hex
          legacy_23_crypt_params)
