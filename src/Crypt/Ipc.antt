-- ===== src/Crypt/Ipc.antt =====
-- src/utils/crypt/ipcCryptUtils.c: messages between client and agent, encrypted with the key that both
-- have agreed on.
use oidc_agent.Prelude.{
  ℕ, ◌+◌, ◌%◌, ◌^◌, ◌<◌, ◌≡◌, refl, ap, Option, none, some, List, [], ◌∷◌, ◌++◌, length, arith,
}
use oidc_agent.Text.{Str, codes, IsText}
use oidc_agent.Text.Number.{print_lu, is_digit}
use oidc_agent.Text.Tokens.{strtok, first_of, rest_of, strtok-append, strtok_last}
use oidc_agent.Text.Scan.{str_to_u_long}
use oidc_agent.Text.Scan.Laws.{str_to_u_long-print_lu}
use oidc_agent.ListUtils.Delimited.{joined}
use oidc_agent.Crypt.Memory.{is_colon}
use oidc_agent.Crypt.Answer.{Answer, ok, arg_null, malformed_ipc, ◌>>=◌, deref, non_null}
use oidc_agent.Crypt.Format.{
  Sodium, shown, new_crypt_parameters, crypt_encrypt_with_key, crypt_decrypt_with_key,
}
use oidc_agent.Crypt.Format.Sealed.{
  IsSodium, IsBytes, crypt_encrypt_with_key-some, crypt_decrypt_with_key-boxed,
}
use oidc_agent.Crypt.Format.Written.{print_lu-IsToken}

module _ (s : Sodium) where
  unfoldable pub encrypt_for_ipc : Str → List ℕ → List ℕ → Answer Str
  encrypt_for_ipc msg nonce key = do
    result ← deref (crypt_encrypt_with_key s msg nonce key)
    ok (
        joined (print_lu (length msg)) (codes ":")
          (shown result.nonce_base64 ∷ shown result.encrypted_base64 ∷ []))

  unfoldable pub decrypt_for_ipc : Option Str → List ℕ → Answer Str
  decrypt_for_ipc msg key = do
    text ← non_null arg_null msg
    let len_str = strtok is_colon text
    let nonce = strtok is_colon (rest_of len_str)
    let encrypted = strtok is_colon (rest_of nonce)
    nonce_base64 ← non_null malformed_ipc (first_of nonce)
    encrypted_base64 ← non_null malformed_ipc (first_of encrypted)
    crypt_decrypt_with_key s
        (record {
          encrypted_base64 = some encrypted_base64;
          nonce_base64 = some nonce_base64;
          salt_base64 = none;
          hash_key_base64 = none;
          crypt_parameter = new_crypt_parameters s;
        })
        ((str_to_u_long (first_of len_str) + s.mac_bytes) % 2 ^ 64) key

  -- A message is decrypted with the key that it was encrypted with: if the secret box is computed, the
  -- nonce has its length, and the message is a C string whose length fits, then decryptForIpc gives back
  -- the message that encryptForIpc was given.
  pub decrypt_for_ipc-encrypt_for_ipc :
      IsSodium s
      → (msg : Str) (nonce key box : List ℕ) → IsText msg
      → (length nonce ≡ s.nonce_bytes) × IsBytes nonce
      → length msg + s.mac_bytes < 2 ^ 64
      → s.secretbox msg nonce key ≡ some box
      → (cipher : Str) × (encrypt_for_ipc msg nonce key ≡ ok cipher)
        × (decrypt_for_ipc (some cipher) key ≡ ok msg)
  unfolding encrypt_for_ipc decrypt_for_ipc joined new_crypt_parameters
  decrypt_for_ipc-encrypt_for_ipc h msg nonce key box t r l f =
      let number = print_lu (length msg) in
      let n = s.base64.to_base64 nonce in
      let c = s.base64.to_base64 box in
      let (digits, plain) = print_lu-IsToken b':' (length msg) (unfold is_digit in refl) in
      let first : strtok is_colon (number ++ b':' ∷ (n ++ b':' ∷ c))
          ≡ some (number, n ++ b':' ∷ c) =
        strtok-append is_colon number (n ++ b':' ∷ c) b':' digits plain refl in
      let second : strtok is_colon (n ++ b':' ∷ c) ≡ some (n, c) =
        strtok-append is_colon n c b':'
          (h.coding.not_empty nonce (λ e. absurd (omega (arith, ap length e, r.0, h.nonce_fits.0))))
          (h.coding.no_colon nonce) refl in
      let third : strtok is_colon c ≡ some (c, []) =
        strtok_last is_colon c
          (h.coding.not_empty box (λ e.
            absurd (omega (arith, ap length e, h.box_length msg nonce key box f, h.mac_fits.0))))
          (h.coding.no_colon box) in
      let size : (str_to_u_long (some number) + s.mac_bytes) % 2 ^ 64 ≡ length msg + s.mac_bytes =
        rw (str_to_u_long-print_lu (length msg) (omega arith)) (omega arith) in
      (
        number ++ b':' ∷ (n ++ b':' ∷ c),
        rw (crypt_encrypt_with_key-some s msg nonce key box f) refl,
        rw (first, second, third, size)
            (crypt_decrypt_with_key-boxed s h msg nonce key box t r.0 r.1 f _ refl refl refl),
      )
