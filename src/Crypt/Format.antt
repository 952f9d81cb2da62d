-- ===== src/Crypt/Format.antt =====
-- src/utils/crypt/crypt.c: texts encrypted with a password, and the lines they are written in. The calls
-- of libsodium are parameters; random bytes are arguments.
pub mod Sealed
pub mod Written
pub mod Round
pub mod Refused
use oidc_agent.Prelude.{
  ℕ, suc, ◌+◌, ◌*◌, Bool, true, Option, none, some, List, [], ◌∷◌, ltb, length, take, drop, get_or,
  get_elem?, if◌then◌else◌, ℤ, pos,
}
use oidc_agent.Text.{Str, codes}
use oidc_agent.Text.Edit.{is_prefix}
use oidc_agent.Text.Number.{print_lu, to_int, read_number}
use oidc_agent.Text.Scan.{scan_fields, to_ulong, print_d}
use oidc_agent.ListUtils.Delimited.{joined, delimited_string_to_list}
use oidc_agent.Crypt.Memory.{Base64, c_string}
use oidc_agent.Crypt.Answer.{
  Answer, ok, err, undefined, CryptError, arg_null, out_of_memory, wrong_password, decrypt_failed,
  malformed, ◌>>=◌, deref, non_null,
}

pub record CryptParameter : Type 0 where
  pub nonce_len : ℕ
  pub salt_len : ℕ
  pub mac_len : ℕ
  pub key_len : ℕ
  pub base64_variant : ℤ
  pub hash_ops_limit : ℤ
  pub hash_mem_limit : ℤ
  pub hash_alg : ℤ

pub record EncryptionInfo : Type 0 where
  pub encrypted_base64 : Option Str
  pub nonce_base64 : Option Str
  pub salt_base64 : Option Str
  pub hash_key_base64 : Option Str
  pub crypt_parameter : CryptParameter

pub record KeySet : Type 0 where
  pub encryption_key : List ℕ
  pub hash_key : List ℕ

-- libsodium: its constants and functions. `pwhash len password salt ops mem alg` is `none` where the
-- memory does not suffice, and the other two where they do not return 0. `hex2bin text n` are the `n`
-- bytes that decoding leaves in the buffer.
pub record Sodium : Type 0 where
  pub nonce_bytes : ℕ
  pub salt_bytes : ℕ
  pub mac_bytes : ℕ
  pub key_bytes : ℕ
  pub variant_original : ℤ
  pub ops_limit : ℤ
  pub mem_limit : ℤ
  pub alg_default : ℤ
  pub base64 : Base64
  pub hex2bin : Str → ℕ → List ℕ
  pub pwhash : ℕ → Str → List ℕ → ℤ → ℤ → ℤ → Option (List ℕ)
  pub secretbox : List ℕ → List ℕ → List ℕ → Option (List ℕ)
  pub secretbox_open : List ℕ → List ℕ → List ℕ → Option (List ℕ)

-- `%s` of glibc's printf
abbrev pub shown : Option Str → Str
shown none = codes "(null)"
shown (some s) = s

-- The numbers that sscanf reads from the line of the parameters; those it does not reach are 0.
unfoldable pub scan_parameters : Str → CryptParameter
scan_parameters line =
    let v = scan_fields 8 b':' line in
    record {
      nonce_len = to_ulong (get_or v 0 (pos 0));
      salt_len = to_ulong (get_or v 1 (pos 0));
      mac_len = to_ulong (get_or v 2 (pos 0));
      key_len = to_ulong (get_or v 3 (pos 0));
      base64_variant = to_int (get_or v 4 (pos 0));
      hash_ops_limit = to_int (get_or v 5 (pos 0));
      hash_mem_limit = to_int (get_or v 6 (pos 0));
      hash_alg = to_int (get_or v 7 (pos 0));
    }

-- The line of the parameters, with the separators of the format between the conversions.
unfoldable pub print_parameters : CryptParameter → Str
unfolding joined
print_parameters p = joined (print_lu p.nonce_len) (codes ":") (
    print_lu p.salt_len
    ∷ print_lu p.mac_len
    ∷ print_lu p.key_len
    ∷ print_d p.base64_variant
    ∷ print_d p.hash_ops_limit
    ∷ print_d p.hash_mem_limit
    ∷ print_d p.hash_alg
    ∷ [])

module _ (s : Sodium) where
  unfoldable pub new_crypt_parameters : CryptParameter
  new_crypt_parameters = record {
    nonce_len = s.nonce_bytes;
    salt_len = s.salt_bytes;
    mac_len = s.mac_bytes;
    key_len = s.key_bytes;
    base64_variant = s.variant_original;
    hash_ops_limit = s.ops_limit;
    hash_mem_limit = s.mem_limit;
    hash_alg = s.alg_default;
  }

  -- The salt is the text of `fresh`, the random bytes of a new salt, or else the one that is given.
  salt_text : Str → Option (List ℕ) → Str
  salt_text salt_base64 none = salt_base64
  salt_text salt_base64 (some fresh) = s.base64.to_base64 fresh

  salt_bytes_of : Str → Option (List ℕ) → CryptParameter → List ℕ
  salt_bytes_of salt_base64 none p = s.base64.from_base64 salt_base64 p.salt_len
  salt_bytes_of salt_base64 (some fresh) p = fresh

  pub split_key : ℕ → Option (List ℕ) → Answer KeySet
  split_key key_len none = err out_of_memory
  split_key key_len (some key) =
      ok (record { encryption_key = take key_len key; hash_key = take key_len (drop key_len key) })

  -- The two keys, and the salt that is left in the buffer.
  unfoldable pub crypt_key_derivation_base64 :
      Str → Str → Option (List ℕ) → CryptParameter → Str × Answer KeySet
  unfolding salt_text salt_bytes_of split_key
  crypt_key_derivation_base64 password salt_base64 fresh p = (
    salt_text salt_base64 fresh,
    split_key p.key_len (
        s.pwhash (2 * p.key_len) password (salt_bytes_of salt_base64 fresh p) s.ops_limit
          s.mem_limit s.alg_default),
  )

  unfoldable pub crypt_encrypt_with_key : Str → List ℕ → List ℕ → Option EncryptionInfo
  unfolding new_crypt_parameters
  crypt_encrypt_with_key text nonce key = elim (s.secretbox text nonce key) [
    | none ↦ none
    | some ciphertext ↦ some (record {
      encrypted_base64 = some (s.base64.to_base64 ciphertext);
      nonce_base64 = some (s.base64.to_base64 nonce);
      salt_base64 = none;
      hash_key_base64 = none;
      crypt_parameter = new_crypt_parameters;
    })
  ]

  -- `_crypt_encrypt` with the random salt and nonce. It writes to the result of crypt_encryptWithKey
  -- without a test.
  unfoldable pub encrypt_info : Option Str → Option Str → List ℕ → List ℕ → Answer EncryptionInfo
  unfolding crypt_key_derivation_base64 new_crypt_parameters
  encrypt_info text password salt nonce = do
    t ← non_null arg_null text
    pw ← non_null arg_null password
    let derived = crypt_key_derivation_base64 pw [] (some salt) new_crypt_parameters
    keys ← derived.1
    result ← deref (crypt_encrypt_with_key t nonce keys.encryption_key)
    ok (record result {
      salt_base64 = some derived.0;
      hash_key_base64 = some (s.base64.to_base64 keys.hash_key);
      crypt_parameter = new_crypt_parameters;
    })

  -- The six lines, the last one not ended.
  unfoldable pub format_lines : ℕ → EncryptionInfo → Str
  unfolding print_parameters joined
  format_lines cipher_len cry = joined (print_lu cipher_len) (codes "\n") (
      shown cry.nonce_base64
      ∷ shown cry.salt_base64
      ∷ print_parameters cry.crypt_parameter
      ∷ shown cry.encrypted_base64
      ∷ shown cry.hash_key_base64
      ∷ [])

  unfoldable pub crypt_encrypt : Option Str → Option Str → List ℕ → List ℕ → Answer Str
  crypt_encrypt text password salt nonce = do
    cry ← encrypt_info text password salt nonce
    t ← non_null arg_null text
    ok (format_lines (length t + cry.crypt_parameter.mac_len) cry)

  opened : Option (List ℕ) → Answer Str
  opened none = err decrypt_failed
  opened (some text) = ok (c_string text)

  -- The buffer is one byte longer than the text and zeroed.
  unfoldable pub crypt_decrypt_with_key : EncryptionInfo → ℕ → List ℕ → Answer Str
  unfolding opened
  crypt_decrypt_with_key crypt cipher_len key = do
    nonce ← deref crypt.nonce_base64
    encrypted ← deref crypt.encrypted_base64
    opened (
        s.secretbox_open (s.base64.from_base64 encrypted cipher_len)
          (s.base64.from_base64 nonce crypt.crypt_parameter.nonce_len) key)

  -- sodium_memcmp looks at as many bytes as the stored text has.
  check_password : Str → Str → Answer (Unit {0})
  check_password stored computed = if is_prefix stored computed then ok tt else err wrong_password

  unfoldable pub crypt_decrypt_base64 : EncryptionInfo → ℕ → Option Str → Answer Str
  unfolding crypt_key_derivation_base64 crypt_decrypt_with_key check_password
  crypt_decrypt_base64 crypt cipher_len password = do
    _ ← non_null arg_null crypt.encrypted_base64
    stored ← non_null arg_null crypt.hash_key_base64
    pw ← non_null arg_null password
    _ ← non_null arg_null crypt.nonce_base64
    salt ← non_null arg_null crypt.salt_base64
    _ ← if ltb cipher_len crypt.crypt_parameter.mac_len then err malformed else ok (tt {0})
    keys ← (crypt_key_derivation_base64 pw salt none crypt.crypt_parameter).1
    _ ← check_password stored (s.base64.to_base64 keys.hash_key)
    crypt_decrypt_with_key crypt cipher_len keys.encryption_key

  -- The lines are read without a test whether they are there.
  unfoldable pub crypt_decrypt_from_list : Option (List Str) → Option Str → Answer Str
  unfolding crypt_decrypt_base64
  crypt_decrypt_from_list lines password = do
    ls ← non_null arg_null lines
    _ ← non_null arg_null password
    number ← deref (get_elem? ls 0)
    nonce ← deref (get_elem? ls 1)
    salt ← deref (get_elem? ls 2)
    encrypted ← deref (get_elem? ls 4)
    hash ← deref (get_elem? ls 5)
    parameters ← deref (get_elem? ls 3)
    crypt_decrypt_base64
        (record {
          encrypted_base64 = some encrypted;
          nonce_base64 = some nonce;
          salt_base64 = some salt;
          hash_key_base64 = some hash;
          crypt_parameter = scan_parameters parameters;
        })
        (to_ulong (read_number number)) password

  unfoldable pub crypt_decrypt : Option Str → Option Str → Answer Str
  crypt_decrypt crypt_str password = do
    text ← non_null arg_null crypt_str
    _ ← non_null arg_null password
    lines ← non_null arg_null (delimited_string_to_list (some text) b'\n')
    if ltb (length lines) 5 then err malformed else crypt_decrypt_from_list (some lines) password
