-- ===== src/Crypt/Lines/Lost.antt =====
-- What becomes of a file whose encryption failed, and of a text of five lines.
use oidc_agent.Prelude.{ℕ, ◌<◌, ◌≡◌, refl, true, false, some, List, [], ◌∷◌, ltb, length, arith}
use oidc_agent.Text.{Str, codes}
use oidc_agent.ListUtils.Delimited.{joined, delimited_string_to_list, list_to_delimited_string}
use oidc_agent.ListUtils.Delimited.Laws.{delimited_string_to_list-list_to_delimited_string}
use oidc_agent.Crypt.Answer.{ok, err, undefined, CryptError, malformed}
use oidc_agent.Crypt.Format.{Sodium, crypt_encrypt, crypt_decrypt, crypt_decrypt_from_list}
use oidc_agent.Crypt.Version.{simple_version_to_version_line}
use oidc_agent.Crypt.Version.Laws.{version_line_to_simple_version-simple_version_to_version_line}
use oidc_agent.Crypt.Lines.{
  encrypt_text, encrypt_with_version_line, decrypt_file_content, decrypt_lines_list,
  version_line_of, last_line,
}
use oidc_agent.Crypt.Lines.Round.{IsRelease, version_line-IsToken}

module _ (s : Sodium) where
  -- The content that is written where encryptText gives NULL.
  abbrev pub lost : Str → Str
  lost version =
      joined (codes "(null)") (codes "\n") (simple_version_to_version_line (some version) ∷ [])

  lost-lines :
      (version : Str)
      → IsRelease version
      → delimited_string_to_list (some (lost version)) b'\n'
        ≡ some (codes "(null)" ∷ simple_version_to_version_line (some version) ∷ [])
  unfolding list_to_delimited_string joined
  lost-lines version v =
      delimited_string_to_list-list_to_delimited_string b'\n'
        (codes "(null)" ∷ simple_version_to_version_line (some version) ∷ [])
        (
          ((λ e. cc), (refl, (refl, (refl, (refl, (refl, (refl, tt))))))),
          (version_line-IsToken version v.no_newline, tt),
        )

  -- A failed encryption is not reported: if the encryption of a text fails with an error, such as too
  -- little memory for the hash of the password, then encryptWithVersionLine gives a text all the same,
  -- and decryptFileContent has no result for that text with any password, since it reads a line that is
  -- not there.
  pub encrypt_with_version_line-lost :
      (version text password : Str) (salt nonce : List ℕ) (e : CryptError)
      → IsRelease version
      → crypt_encrypt s (some text) (some password) salt nonce ≡ err e
      → (file : Str) × (encrypt_with_version_line s version (some text) (some password) salt nonce
          ≡ ok file)
        × ((other : Str) → decrypt_file_content s (some file) (some other) ≡ undefined)
  unfolding encrypt_with_version_line encrypt_text decrypt_file_content decrypt_lines_list
      version_line_of last_line crypt_decrypt_from_list
  encrypt_with_version_line-lost version text password salt nonce e v failed =
      let found =
        version_line_to_simple_version-simple_version_to_version_line version v.not_empty
          v.no_letters in
      (lost version, rw failed refl, λ other. rw (lost-lines version v, found, v.base64) refl)

  five_lines :
      (password : Str) (lines : List Str)
      → length lines ≡ 5
      → crypt_decrypt_from_list s (some lines) (some password) ≡ undefined
  unfolding crypt_decrypt_from_list
  five_lines password [] h = absurd (omega arith)
  five_lines password (a ∷ []) h = absurd (omega arith)
  five_lines password (a ∷ (b ∷ [])) h = absurd (omega arith)
  five_lines password (a ∷ (b ∷ (c ∷ []))) h = absurd (omega arith)
  five_lines password (a ∷ (b ∷ (c ∷ (d ∷ [])))) h = absurd (omega arith)
  five_lines password (a ∷ (b ∷ (c ∷ (d ∷ (e ∷ []))))) h = refl
  five_lines password (a ∷ (b ∷ (c ∷ (d ∷ (e ∷ (f ∷ ls)))))) h = absurd (omega arith)

  -- The number of lines is tested for less than the lines that are read: a text with fewer than five
  -- lines is refused as malformed, but for a text of exactly five lines crypt_decrypt has no result,
  -- since it reads the sixth.
  pub crypt_decrypt-short :
      (text password : Str) (lines : List Str)
      → delimited_string_to_list (some text) b'\n' ≡ some lines
      → (length lines < 5 → crypt_decrypt s (some text) (some password) ≡ err malformed)
        × (length lines ≡ 5 → crypt_decrypt s (some text) (some password) ≡ undefined)
  unfolding crypt_decrypt
  crypt_decrypt-short text password lines split = (
    λ few. (let short : ltb (length lines) 5 ≡ true = ground arith in rw (split, short) refl),
    λ five.
        (let enough : ltb (length lines) 5 ≡ false = ground arith in
          rw (split, enough) (five_lines password lines five)),
  )
