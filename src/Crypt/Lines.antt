-- ===== src/Crypt/Lines.antt =====
-- src/utils/crypt/cryptUtils.c: encrypted files, with the version that wrote them in the last line.
pub mod Round
pub mod Lost
use oidc_agent.Prelude.{
  ℕ, Bool, true, false, Option, none, some, List, [], ◌∷◌, ◌==◌, ltb, length, get_elem?,
  if◌then◌else◌, ℤ, pos, negsuc,
}
use oidc_agent.Text.{Str, codes}
use oidc_agent.Text.Number.{str_to_int}
use oidc_agent.Text.Tokens.{strtok, first_of, rest_of}
use oidc_agent.ListUtils.Delimited.{joined, delimited_string_to_list}
use oidc_agent.Crypt.Memory.{to_size, is_colon}
use oidc_agent.Crypt.Answer.{
  Answer, ok, err, undefined, CryptError, arg_null, malformed, ◌>>=◌, deref, non_null,
}
use oidc_agent.Crypt.Format.{Sodium, shown, crypt_encrypt, crypt_decrypt_from_list}
use oidc_agent.Crypt.Version.{
  version_at_least, version_line_to_simple_version, simple_version_to_version_line,
}
use oidc_agent.Crypt.Hex.{crypt_decrypt_hex}

abbrev pub min_base64_version : Str
min_base64_version = codes "2.1.0"

pub last_line : List Str → Option Str
last_line [] = none
last_line (x ∷ []) = some x
last_line (x ∷ (y ∷ ys)) = last_line (y ∷ ys)

-- `lines->len > 1 ? node ? node->val : NULL : NULL` with the last node.
pub version_line_of : List Str → Option Str
unfolding last_line
version_line_of lines = if ltb 1 (length lines) then last_line lines else none

-- The pointer that crypt_encrypt gives, NULL where it fails.
abbrev pub pointer : Answer Str → Answer (Option Str)
pointer (ok t) = ok (some t)
pointer (err e) = ok none
pointer undefined = undefined

module _ (s : Sodium) where
  unfoldable pub decrypt_hex_file_content : Option Str → Str → Answer Str
  decrypt_hex_file_content none password = undefined
  decrypt_hex_file_content (some cipher) password =
      let number = strtok is_colon cipher in
      let salt = strtok is_colon (rest_of number) in
      let nonce = strtok is_colon (rest_of salt) in
      let encoded = strtok is_colon (rest_of nonce) in
      let cipher_len = to_size (str_to_int (first_of number)) in
      if cipher_len == 0 then err malformed else do
        salt_encoded ← non_null malformed (first_of salt)
        nonce_encoded ← non_null malformed (first_of nonce)
        cipher_encoded ← non_null malformed (first_of encoded)
        crypt_decrypt_hex s cipher_encoded cipher_len password nonce_encoded salt_encoded

  -- A NULL password is passed to strlen once the lengths fit; there is no result for it here.
  decrypt_hex_with : Option Str → Option Str → Answer Str
  decrypt_hex_with cipher none = undefined
  decrypt_hex_with cipher (some password) = decrypt_hex_file_content cipher password

  unfoldable pub decrypt_lines_list : Option (List Str) → Option Str → Answer Str
  unfolding version_line_of decrypt_hex_with
  decrypt_lines_list none password = err arg_null
  decrypt_lines_list (some lines) password = do
    base64 ←
        version_at_least (version_line_to_simple_version (version_line_of lines)) min_base64_version
    if base64
        then crypt_decrypt_from_list s (some lines) password
        else decrypt_hex_with (get_elem? lines 0) password

  unfoldable pub decrypt_file_content : Option Str → Option Str → Answer Str
  unfolding decrypt_lines_list
  decrypt_file_content file_content password =
      decrypt_lines_list (delimited_string_to_list file_content b'\n') password

  unfoldable pub encrypt_text : Option Str → Option Str → List ℕ → List ℕ → Answer Str
  encrypt_text text password salt nonce = crypt_encrypt s text password salt nonce

  -- The version of the program, VERSION, is an argument. A NULL is printed as any text.
  unfoldable pub encrypt_with_version_line :
      Str → Option Str → Option Str → List ℕ → List ℕ → Answer Str
  unfolding encrypt_text
  encrypt_with_version_line version text password salt nonce = do
    crypt ← pointer (encrypt_text text password salt nonce)
    ok (joined (shown crypt) (codes "\n") (simple_version_to_version_line (some version) ∷ []))
