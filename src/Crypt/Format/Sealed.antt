-- ===== src/Crypt/Format/Sealed.antt =====
-- What is documented of libsodium, and decryption of what was encrypted with the same password, before
-- it is written down.
use mathlib.Core.List.{append-nil}
use oidc_agent.Prelude.{
  ℕ, ◌+◌, ◌*◌, ◌^◌, ◌<◌, ◌≡◌, refl, subst, true, false, Option, some, none, List, [], ◌==◌, ltb,
  All, All-imp, length, take, drop, arith, ℤ,
}
use oidc_agent.Text.{Str, IsText}
use oidc_agent.Text.Edit.{is_prefix}
use oidc_agent.Text.Edit.Laws.{is_prefix-append}
use oidc_agent.Crypt.Memory.{IsCoding}
use oidc_agent.Crypt.Memory.Laws.{c_string-text}
use oidc_agent.Crypt.Answer.{undefined, ok, err, out_of_memory}
use oidc_agent.Crypt.Format.{
  Sodium, CryptParameter, EncryptionInfo, crypt_key_derivation_base64, crypt_encrypt_with_key,
  encrypt_info, split_key, crypt_decrypt_with_key, crypt_decrypt_base64, new_crypt_parameters,
}

abbrev pub IsBytes : List ℕ → Type 0
IsBytes = All (λ c. c < 256)

-- A secret box opens with the nonce and the key that it was made with, and is longer than the message
-- by the bytes of the authentication code. Texts of base64 have no line break, and their length
-- depends on the number of bytes only.
pub record IsSodium (s : Sodium) : Type 0 where
  pub coding : IsCoding s.base64
  pub no_newline : (bin : List ℕ) → All (λ c. (c == b'\n') ≡ false) (s.base64.to_base64 bin)
  pub coded_length :
      (a b : List ℕ)
      → length a ≡ length b
      → length (s.base64.to_base64 a) ≡ length (s.base64.to_base64 b)
  pub nonce_fits : (0 < s.nonce_bytes) × (s.nonce_bytes < 2 ^ 16)
  pub salt_fits : (0 < s.salt_bytes) × (s.salt_bytes < 2 ^ 16)
  pub mac_fits : (0 < s.mac_bytes) × (s.mac_bytes < 2 ^ 16)
  pub key_fits : (0 < s.key_bytes) × (s.key_bytes < 2 ^ 16)
  pub hash_length :
      (len : ℕ) (password : Str) (salt key : List ℕ) (ops mem alg : ℤ)
      → s.pwhash len password salt ops mem alg ≡ some key
      → (length key ≡ len) × IsBytes key
  pub box_length :
      (message nonce key box : List ℕ)
      → s.secretbox message nonce key ≡ some box
      → length box ≡ length message + s.mac_bytes
  pub box_bytes :
      (message nonce key box : List ℕ)
      → IsBytes message
      → s.secretbox message nonce key ≡ some box
      → IsBytes box
  pub opens :
      (message nonce key box : List ℕ)
      → s.secretbox message nonce key ≡ some box
      → s.secretbox_open box nonce key ≡ some message

text-IsBytes : (t : Str) → IsText t → IsBytes t
text-IsBytes t h = All-imp t (λ c k. k.1) h

-- The random bytes of a salt and a nonce.
pub record IsRandom (s : Sodium) (salt nonce : List ℕ) : Type 0 where
  pub salt_length : length salt ≡ s.salt_bytes
  pub salt_bytes : IsBytes salt
  pub nonce_length : length nonce ≡ s.nonce_bytes
  pub nonce_bytes : IsBytes nonce

module _ (s : Sodium) where
  -- The hash that gives the two keys of a password.
  abbrev pub hash_of : Str → List ℕ → Option (List ℕ)
  hash_of password salt =
      s.pwhash (2 * s.key_bytes) password salt s.ops_limit s.mem_limit s.alg_default

  abbrev pub encryption_part : List ℕ → List ℕ
  encryption_part key = take s.key_bytes key

  abbrev pub hash_part : List ℕ → List ℕ
  hash_part key = take s.key_bytes (drop s.key_bytes key)

  abbrev pub sealed_info : List ℕ → List ℕ → List ℕ → List ℕ → EncryptionInfo
  sealed_info salt nonce key box = record {
    encrypted_base64 = some (s.base64.to_base64 box);
    nonce_base64 = some (s.base64.to_base64 nonce);
    salt_base64 = some (s.base64.to_base64 salt);
    hash_key_base64 = some (s.base64.to_base64 (hash_part key));
    crypt_parameter = new_crypt_parameters s;
  }

  abbrev pub boxed_info : List ℕ → List ℕ → EncryptionInfo
  boxed_info nonce box = record {
    encrypted_base64 = some (s.base64.to_base64 box);
    nonce_base64 = some (s.base64.to_base64 nonce);
    salt_base64 = none;
    hash_key_base64 = none;
    crypt_parameter = new_crypt_parameters s;
  }

  pub crypt_encrypt_with_key-some :
      (text : Str) (nonce key box : List ℕ)
      → s.secretbox text nonce key ≡ some box
      → crypt_encrypt_with_key s text nonce key ≡ some (boxed_info nonce box)
  unfolding crypt_encrypt_with_key
  crypt_encrypt_with_key-some text nonce key box f = rw (f, crypt_encrypt_with_key) refl

  pub encrypt_info-ok :
      (text password : Str) (salt nonce key box : List ℕ)
      → hash_of password salt ≡ some key
      → s.secretbox text nonce (encryption_part key) ≡ some box
      → encrypt_info s (some text) (some password) salt nonce ≡ ok (sealed_info salt nonce key box)
  unfolding encrypt_info crypt_key_derivation_base64 new_crypt_parameters split_key
  encrypt_info-ok text password salt nonce key box e f =
      rw (e, crypt_encrypt_with_key-some text nonce (encryption_part key) box f) refl

  pub encrypt_info-out_of_memory :
      (text password : Str) (salt nonce : List ℕ)
      → hash_of password salt ≡ none
      → encrypt_info s (some text) (some password) salt nonce ≡ err out_of_memory
  unfolding encrypt_info crypt_key_derivation_base64 new_crypt_parameters
  encrypt_info-out_of_memory text password salt nonce e = rw e refl

  pub crypt_encrypt_with_key-none :
      (text : Str) (nonce key : List ℕ)
      → s.secretbox text nonce key ≡ none
      → crypt_encrypt_with_key s text nonce key ≡ none
  unfolding crypt_encrypt_with_key
  crypt_encrypt_with_key-none text nonce key f = rw (f, crypt_encrypt_with_key) refl

  pub encrypt_info-undefined :
      (text password : Str) (salt nonce key : List ℕ)
      → hash_of password salt ≡ some key
      → s.secretbox text nonce (encryption_part key) ≡ none
      → encrypt_info s (some text) (some password) salt nonce ≡ undefined
  unfolding encrypt_info crypt_key_derivation_base64 new_crypt_parameters split_key
  encrypt_info-undefined text password salt nonce key e f =
      rw (e, crypt_encrypt_with_key-none text nonce (encryption_part key) f) refl

  -- What is read from the lines: the texts of `sealed_info`, and parameters of which only the lengths
  -- are looked at.
  abbrev pub read_info : CryptParameter → List ℕ → List ℕ → List ℕ → List ℕ → EncryptionInfo
  read_info p salt nonce key box = record (sealed_info salt nonce key box) { crypt_parameter = p }

  abbrev pub with_lengths : ℤ → ℤ → ℤ → ℤ → CryptParameter
  with_lengths v o m a = record {
    nonce_len = s.nonce_bytes;
    salt_len = s.salt_bytes;
    mac_len = s.mac_bytes;
    key_len = s.key_bytes;
    base64_variant = v;
    hash_ops_limit = o;
    hash_mem_limit = m;
    hash_alg = a;
  }

  module _ (h : IsSodium s) where
    pub decodes_to :
        (bin : List ℕ) (n : ℕ)
        → IsBytes bin
        → length bin ≡ n
        → s.base64.from_base64 (s.base64.to_base64 bin) n ≡ bin
    decodes_to bin n bytes e =
        subst (λ k. s.base64.from_base64 (s.base64.to_base64 bin) k ≡ bin) e
          (h.coding.decodes bin bytes)

  module _ (h : IsSodium s) where
    -- The box and the nonce of an encryption open with its key.
    pub crypt_decrypt_with_key-boxed :
        (text : Str) (nonce key box : List ℕ)
        → IsText text
        → length nonce ≡ s.nonce_bytes
        → IsBytes nonce
        → s.secretbox text nonce key ≡ some box
        → (crypt : EncryptionInfo) → crypt.nonce_base64 ≡ some (s.base64.to_base64 nonce)
        → crypt.encrypted_base64 ≡ some (s.base64.to_base64 box)
        → crypt.crypt_parameter.nonce_len ≡ s.nonce_bytes
        → crypt_decrypt_with_key s crypt (length text + s.mac_bytes) key ≡ ok text
    unfolding crypt_decrypt_with_key
    crypt_decrypt_with_key-boxed text nonce key box t l b f crypt n c p =
        let nonced = decodes_to h nonce s.nonce_bytes b l in
        let len = h.box_length text nonce key box f in
        let bytes = h.box_bytes text nonce key box (text-IsBytes text t) f in
        let boxed = decodes_to h box (length text + s.mac_bytes) bytes len in
        let opened = h.opens text nonce key box f in
        rw (n, c, p, boxed, nonced, opened, c_string-text text t) refl

  module _ (h : IsSodium s) (v o m a : ℤ) where
    is_prefix_self : (t : Str) → is_prefix t t ≡ true
    is_prefix_self t = subst (λ u. is_prefix t u ≡ true) (append-nil t) (is_prefix-append t [])

    pub crypt_decrypt_base64-sealed :
        (text password : Str) (salt nonce key box : List ℕ)
        → IsText text
        → IsRandom s salt nonce
        → hash_of password salt ≡ some key
        → s.secretbox text nonce (encryption_part key) ≡ some box
        → crypt_decrypt_base64 s
            (read_info (with_lengths v o m a) salt nonce key box)
            (length text + s.mac_bytes)
            (some password)
          ≡ ok text
    unfolding crypt_decrypt_base64 crypt_key_derivation_base64 crypt_decrypt_with_key
    crypt_decrypt_base64-sealed text password salt nonce key box t r e f =
        let long : ltb (length text + s.mac_bytes) s.mac_bytes ≡ false = ground arith in
        let salted = decodes_to h salt s.salt_bytes r.salt_bytes r.salt_length in
        let nonced = decodes_to h nonce s.nonce_bytes r.nonce_bytes r.nonce_length in
        let len = h.box_length text nonce (encryption_part key) box f in
        let bytes = h.box_bytes text nonce (encryption_part key) box (text-IsBytes text t) f in
        let boxed = decodes_to h box (length text + s.mac_bytes) bytes len in
        let opened = h.opens text nonce (encryption_part key) box f in
        let same = is_prefix_self (s.base64.to_base64 (hash_part key)) in
        rw (long, salted, e, same, nonced, boxed, opened, c_string-text text t) refl
