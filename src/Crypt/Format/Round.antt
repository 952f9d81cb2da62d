-- ===== src/Crypt/Format/Round.antt =====
-- A text that is encrypted with a password is decrypted with it, and not with another one.
use oidc_agent.Prelude.{
  ℕ, ◌+◌, ◌*◌, ◌^◌, ◌<◌, ◌≡◌, refl, ap, ◌∙◌, some, List, All, length, length-take, length-drop,
  drop, arith,
}
use oidc_agent.Text.{Str, IsText}
use oidc_agent.Text.Number.{print_lu, read_number}
use oidc_agent.Text.Scan.{to_ulong}
use oidc_agent.Text.Scan.Laws.{read_number-print_lu}
use oidc_agent.ListUtils.Delimited.Laws.{IsToken}
use oidc_agent.Crypt.Answer.{ok}
use oidc_agent.Crypt.Format.{
  Sodium, scan_parameters, print_parameters, format_lines, new_crypt_parameters, crypt_encrypt,
  crypt_decrypt, crypt_decrypt_from_list, crypt_decrypt_base64,
}
use oidc_agent.Crypt.Format.Sealed.{
  IsSodium, IsRandom, hash_of, encryption_part, hash_part, sealed_info, read_info, with_lengths,
  encrypt_info-ok, crypt_decrypt_base64-sealed,
}
use oidc_agent.Crypt.Format.Written.{
  lines_of, lines_of-IsToken, format_lines-read, scan_parameters-print_parameters, to_ulong-pos,
}

module _ (s : Sodium) (h : IsSodium s) where
  -- What sscanf makes of the line of the parameters has the lengths in use.
  pub scanned :
      let q = scan_parameters (print_parameters (new_crypt_parameters s)) in
      q ≡ with_lengths s q.base64_variant q.hash_ops_limit q.hash_mem_limit q.hash_alg
  unfolding new_crypt_parameters
  scanned =
      let (n, t, m, k) =
        scan_parameters-print_parameters (new_crypt_parameters s) (omega (arith, h.nonce_fits.1))
          (omega (arith, h.salt_fits.1)) (omega (arith, h.mac_fits.1))
          (omega (arith, h.key_fits.1)) in
      λ i. record (scan_parameters (print_parameters (new_crypt_parameters s))) {
        nonce_len = n i;
        salt_len = t i;
        mac_len = m i;
        key_len = k i;
      }

  pub crypt_decrypt_from_list-read :
      (text : Str) (salt nonce key box : List ℕ)
      → length text + s.mac_bytes < 2 ^ 64
      → (password : Str)
      → crypt_decrypt_from_list s
          (some (lines_of s h salt nonce key box (length text + s.mac_bytes)))
          (some password)
        ≡ crypt_decrypt_base64 s
            (read_info s
              (scan_parameters (print_parameters (new_crypt_parameters s)))
              salt
              nonce
              key
              box)
            (length text + s.mac_bytes)
            (some password)
  unfolding crypt_decrypt_from_list
  crypt_decrypt_from_list-read text salt nonce key box l password =
      let n = length text + s.mac_bytes in
      let q = scan_parameters (print_parameters (new_crypt_parameters s)) in
      let number : to_ulong (read_number (print_lu n)) ≡ n =
        rw (read_number-print_lu n) (to_ulong-pos n l) in
      ap (λ k. crypt_decrypt_base64 s (read_info s q salt nonce key box) k (some password)) number

  pub crypt_decrypt_from_list-lines_of :
      (text password : Str) (salt nonce key box : List ℕ)
      → IsText text
      → IsRandom s salt nonce
      → length text + s.mac_bytes < 2 ^ 64
      → hash_of s password salt ≡ some key
      → s.secretbox text nonce (encryption_part s key) ≡ some box
      → crypt_decrypt_from_list s
          (some (lines_of s h salt nonce key box (length text + s.mac_bytes)))
          (some password)
        ≡ ok text
  crypt_decrypt_from_list-lines_of text password salt nonce key box t r l e f =
      let n = length text + s.mac_bytes in
      let q = scan_parameters (print_parameters (new_crypt_parameters s)) in
      crypt_decrypt_from_list-read text salt nonce key box l password
      ∙ ap (λ p. crypt_decrypt_base64 s (read_info s p salt nonce key box) n (some password))
          scanned
      ∙ crypt_decrypt_base64-sealed s h q.base64_variant q.hash_ops_limit q.hash_mem_limit
          q.hash_alg text password salt nonce key box t r e f

  long_key :
      (password : Str) (salt key : List ℕ)
      → hash_of s password salt ≡ some key
      → 0 < length (hash_part s key)
  long_key password salt key e =
      let (len, bytes) =
        h.hash_length (2 * s.key_bytes) password salt key s.ops_limit s.mem_limit s.alg_default e in
      omega (
        arith,
        length-take s.key_bytes (drop s.key_bytes key),
        length-drop s.key_bytes key,
        h.key_fits.0,
      )

  module _ (text password : Str) (salt nonce key box : List ℕ) (r : IsRandom s salt nonce)
      (e : hash_of s password salt ≡ some key)
      (f : s.secretbox text nonce (encryption_part s key) ≡ some box) where
    abbrev pub written : Str
    written = format_lines s (length text + s.mac_bytes) (sealed_info s salt nonce key box)

    pub crypt_encrypt-written : crypt_encrypt s (some text) (some password) salt nonce ≡ ok written
    unfolding crypt_encrypt new_crypt_parameters
    crypt_encrypt-written = rw (encrypt_info-ok s text password salt nonce key box e f) refl

    pub written-tokens :
        All (IsToken b'\n') (lines_of s h salt nonce key box (length text + s.mac_bytes))
    written-tokens =
        let boxed = h.box_length text nonce (encryption_part s key) box f in
        lines_of-IsToken s h salt nonce key box (length text + s.mac_bytes)
          (omega (arith, r.salt_length, h.salt_fits.0))
          (omega (arith, r.nonce_length, h.nonce_fits.0)) (omega (arith, boxed, h.mac_fits.0))
          (long_key password salt key e)

    pub crypt_decrypt-written :
        (other : Str)
        → crypt_decrypt s (some written) (some other)
          ≡ crypt_decrypt_from_list s
              (some (lines_of s h salt nonce key box (length text + s.mac_bytes)))
              (some other)
    unfolding crypt_decrypt
    crypt_decrypt-written other =
        rw (format_lines-read s h salt nonce key box (length text + s.mac_bytes) written-tokens)
          refl

    pub crypt_decrypt-crypt_encrypt :
        IsText text
        → length text + s.mac_bytes < 2 ^ 64
        → (cipher : Str) × (crypt_encrypt s (some text) (some password) salt nonce ≡ ok cipher)
          × (crypt_decrypt s (some cipher) (some password) ≡ ok text)
    crypt_decrypt-crypt_encrypt t l = (
      written,
      crypt_encrypt-written,
      crypt_decrypt-written password
          ∙ crypt_decrypt_from_list-lines_of text password salt nonce key box t r l e f,
    )
