-- ===== src/Crypt/Lines/Round.antt =====
-- An encrypted file is decrypted with its password.
use mathlib.Core.List.{append_assoc}
use oidc_agent.Prelude.{
  ℕ, ◌+◌, ◌^◌, ◌<◌, ◌≡◌, ◌≢◌, refl, ap, ◌∙◌, true, false, some, List, [], ◌∷◌, ◌++◌, ◌==◌, All,
  All-append, length, drop, arith, Bool, not, ◌&&◌,
}
use oidc_agent.Text.{Str, codes, IsText}
use oidc_agent.Text.Number.{print_lu}
use oidc_agent.ListUtils.Delimited.{joined, delimited_string_to_list, list_to_delimited_string}
use oidc_agent.ListUtils.Delimited.Laws.{IsToken, delimited_string_to_list-list_to_delimited_string}
use oidc_agent.Crypt.Answer.{ok}
use oidc_agent.Crypt.Format.{Sodium, crypt_decrypt_from_list, format_lines}
use oidc_agent.Crypt.Format.Sealed.{IsSodium, IsRandom, hash_of, encryption_part}
use oidc_agent.Crypt.Format.Written.{lines_of, Lacks}
use oidc_agent.Crypt.Format.Round.{
  written, crypt_encrypt-written, written-tokens, crypt_decrypt_from_list-lines_of,
}
use oidc_agent.Crypt.Version.{
  in_version_line_fmt, version_line_fmt, version_at_least, simple_version_to_version_line,
}
use oidc_agent.Crypt.Version.Laws.{version_line_to_simple_version-simple_version_to_version_line}
use oidc_agent.Crypt.Lines.{
  encrypt_text, encrypt_with_version_line, decrypt_file_content, decrypt_lines_list,
  min_base64_version, version_line_of, last_line,
}

-- A version with base64 that is found again in its line.
pub record IsRelease (version : Str) : Type 0 where
  pub not_empty : version ≢ []
  pub no_letters : All (λ c. in_version_line_fmt c ≡ false) version
  pub no_newline : Lacks b'\n' version
  pub base64 : version_at_least (some version) min_base64_version ≡ ok true

none_of : ℕ → Str → Bool
none_of d [] = true
none_of d (c ∷ s) = not (c == d) && none_of d s

none_of-All : (d : ℕ) (s : Str) → none_of d s ≡ true → Lacks d s
unfolding none_of
none_of-All d [] h = tt
none_of-All d (c ∷ s) h = (ground arith, none_of-All d s (ground arith))

pub version_line-IsToken :
    (version : Str)
    → Lacks b'\n' version
    → IsToken b'\n' (simple_version_to_version_line (some version))
unfolding simple_version_to_version_line
version_line-IsToken version h = ((λ e. cc), All-append _ version_line_fmt version fmt h)
  where
    fmt : Lacks b'\n' version_line_fmt
    fmt = none_of-All b'\n' version_line_fmt (unfold none_of in refl)

joined-joined :
    (x d v : Str) (xs : List Str) → joined (joined x d xs) d (v ∷ []) ≡ joined x d (xs ++ v ∷ [])
unfolding joined
joined-joined x d v [] = refl
joined-joined x d v (y ∷ ys) =
    append_assoc x (d ++ joined y d ys) (d ++ v)
    ∙ ap (λ t. x ++ t) (append_assoc d (joined y d ys) (d ++ v))
    ∙ ap (λ t. x ++ (d ++ t)) (joined-joined y d v ys)

pub split_lines :
    (x v : Str) (xs : List Str)
    → All (IsToken b'\n') (x ∷ (xs ++ v ∷ []))
    → delimited_string_to_list
        (some (joined (joined x (codes "\n") xs) (codes "\n") (v ∷ [])))
        b'\n'
      ≡ some (x ∷ (xs ++ v ∷ []))
unfolding list_to_delimited_string
split_lines x v xs h =
    ap (λ u. delimited_string_to_list (some u) b'\n') (joined-joined x (codes "\n") v xs)
    ∙ delimited_string_to_list-list_to_delimited_string b'\n' (x ∷ (xs ++ v ∷ [])) h

module _ (s : Sodium) (h : IsSodium s) where
  -- Lines behind the sixth are not read.
  more_lines :
      (salt nonce key box : List ℕ) (n : ℕ) (more : List Str) (password : Str)
      → crypt_decrypt_from_list s (some (lines_of s h salt nonce key box n ++ more)) (some password)
        ≡ crypt_decrypt_from_list s (some (lines_of s h salt nonce key box n)) (some password)
  unfolding crypt_decrypt_from_list
  more_lines salt nonce key box n more password = refl

  -- An encrypted file is decrypted with its password: if the hash of a password with a new salt and the
  -- secret box are computed, the random bytes have their lengths, the text is a C string whose length
  -- fits, and the version is not older than 2.1.0 and has no character of "Generated using version: ",
  -- then encryptWithVersionLine gives a text that decryptFileContent decrypts to the text again.
  pub decrypt_file_content-encrypt_with_version_line :
      (version text password : Str) (salt nonce key box : List ℕ)
      → IsRelease version
      → IsText text
      → IsRandom s salt nonce
      → length text + s.mac_bytes < 2 ^ 64
      → hash_of s password salt ≡ some key
      → s.secretbox text nonce (encryption_part s key) ≡ some box
      → (file : Str) × (encrypt_with_version_line s version (some text) (some password) salt nonce
          ≡ ok file)
        × (decrypt_file_content s (some file) (some password) ≡ ok text)
  unfolding encrypt_with_version_line encrypt_text decrypt_file_content decrypt_lines_list
      version_line_of last_line format_lines
  decrypt_file_content-encrypt_with_version_line version text password salt nonce key box v t r l e
        f =
      let vline = simple_version_to_version_line (some version) in
      let lines = lines_of s h salt nonce key box (length text + s.mac_bytes) in
      let body = written s h text password salt nonce key box r e f in
      let tokens : All (IsToken b'\n') (lines ++ vline ∷ []) =
        All-append (IsToken b'\n') lines (vline ∷ [])
          (written-tokens s h text password salt nonce key box r e f)
          (version_line-IsToken version v.no_newline, tt) in
      let split : delimited_string_to_list (some (joined body (codes "\n") (vline ∷ []))) b'\n'
          ≡ some (lines ++ vline ∷ []) =
        split_lines (print_lu (length text + s.mac_bytes)) vline (drop 1 lines) tokens in
      let found =
        version_line_to_simple_version-simple_version_to_version_line version v.not_empty
          v.no_letters in
      (
        joined body (codes "\n") (vline ∷ []),
        rw (crypt_encrypt-written s h text password salt nonce key box r e f) refl,
        rw (split, found, v.base64)
            (more_lines salt nonce key box (length text + s.mac_bytes) (vline ∷ []) password
              ∙ crypt_decrypt_from_list-lines_of s h text password salt nonce key box t r l e f),
      )
