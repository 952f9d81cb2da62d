-- ===== src/Crypt/ToyExamples.antt =====
-- Tests of src/utils/crypt with the functions of `Toy`.
use oidc_agent.Prelude.{
  ℕ, ◌+◌, ◌^◌, ◌<◌, ◌≡◌, ◌≢◌, refl, some, none, List, [], ◌∷◌, arith, inl, length, ap, get_or,
}
use oidc_agent.Text.{Str, codes, IsText}
use oidc_agent.ListUtils.Delimited.{delimited_string_to_list, tokens}
use oidc_agent.Text.Number.{print_lu}
use oidc_agent.Text.Tokens.{strtok}
use oidc_agent.Crypt.Answer.{ok, err, undefined, out_of_memory, wrong_password, malformed}
use oidc_agent.Crypt.Format.{
  Sodium, crypt_encrypt, crypt_decrypt, crypt_key_derivation_base64, encrypt_info,
}
use oidc_agent.Crypt.Format.Sealed.{IsRandom, hash_of}
use oidc_agent.Crypt.Format.Refused.{crypt_decrypt-wrong_password}
use oidc_agent.Crypt.Version.{version_at_least}
use oidc_agent.Crypt.Version.Laws.{rendered, not_older, version_at_least-rendered}
use oidc_agent.Crypt.Lines.{encrypt_with_version_line, decrypt_file_content}
use oidc_agent.Crypt.Lines.Round.{IsRelease, decrypt_file_content-encrypt_with_version_line}
use oidc_agent.Crypt.Lines.Lost.{encrypt_with_version_line-lost, crypt_decrypt-short}
use oidc_agent.Crypt.Ipc.{encrypt_for_ipc, decrypt_for_ipc, decrypt_for_ipc-encrypt_for_ipc}
use oidc_agent.Crypt.Number.{number_to_string}
use oidc_agent.Crypt.Number.Laws.{number_to_string-none}
use oidc_agent.Crypt.Password.{init_password_crypt, init_password_crypt_lem}
use oidc_agent.Crypt.Toy.{toy, toy-IsSodium}

abbrev text : Str
text = codes "rt"

text-IsText : IsText text
text-IsText = ((omega arith, omega arith), ((omega arith, omega arith), tt))

random : IsRandom toy (5 ∷ []) (6 ∷ [])
unfolding toy
random = record {
  salt_length = refl;
  salt_bytes = (omega arith, tt);
  nonce_length = refl;
  nonce_bytes = (omega arith, tt);
}

-- The hash of a password that begins with "p", and with "q".
abbrev key_p : List ℕ
key_p = b'p' ∷ b'p' ∷ []

abbrev key_q : List ℕ
key_q = b'q' ∷ b'q' ∷ []

abbrev box : List ℕ
box = 7 ∷ text

hash_p : hash_of toy (codes "p") (5 ∷ []) ≡ some key_p
unfolding toy
hash_p = refl

hash_q : hash_of toy (codes "q") (5 ∷ []) ≡ some key_q
unfolding toy
hash_q = refl

boxed : toy.secretbox text (6 ∷ []) (b'p' ∷ []) ≡ some box
unfolding toy
boxed = refl

fits : length text + toy.mac_bytes < 2 ^ 64
unfolding toy
fits = omega arith

release : IsRelease (codes "5.3.8")
unfolding print_lu
release = record {
  not_empty = λ e. cc;
  no_letters = (refl, (refl, (refl, (refl, (refl, tt)))));
  no_newline = (refl, (refl, (refl, (refl, (refl, tt)))));
  base64 = version_at_least-rendered 5 3 8 2 1 0 (omega arith) (omega arith);
}

apart : ◌≢◌ {A = List ℕ} (b'p' ∷ []) (b'q' ∷ [])
apart e = absurd (omega (arith, ap (λ l. get_or l 0 0) e))

crypt_decrypt-wrong_password_example :
    (cipher : Str) × (crypt_encrypt toy (some text) (some (codes "p")) (5 ∷ []) (6 ∷ [])
      ≡ ok cipher)
    × (crypt_decrypt toy (some cipher) (some (codes "q")) ≡ err wrong_password)
unfolding toy
crypt_decrypt-wrong_password_example =
    crypt_decrypt-wrong_password toy toy-IsSodium text (codes "p") (5 ∷ []) (6 ∷ []) key_p box
      random hash_p boxed (codes "q") key_q hash_q apart fits

decrypt_file_content-encrypt_with_version_line_example :
    (file : Str) × (encrypt_with_version_line toy
        (codes "5.3.8")
        (some text)
        (some (codes "p"))
        (5 ∷ [])
        (6 ∷ [])
      ≡ ok file)
    × (decrypt_file_content toy (some file) (some (codes "p")) ≡ ok text)
unfolding toy
decrypt_file_content-encrypt_with_version_line_example =
    decrypt_file_content-encrypt_with_version_line toy toy-IsSodium (codes "5.3.8") text (codes "p")
      (5 ∷ []) (6 ∷ []) key_p box release text-IsText random fits hash_p boxed

version_at_least-rendered_example :
    version_at_least (some (rendered 5 3 8)) (rendered 2 1 0) ≡ ok (not_older 5 3 8 2 1 0)
version_at_least-rendered_example =
    version_at_least-rendered 5 3 8 2 1 0 (omega arith) (omega arith)

-- The memory does not suffice for a hash.
abbrev exhausted : Sodium
exhausted = record toy { pwhash = λ len password salt ops mem alg. none }

fails : crypt_encrypt exhausted (some text) (some (codes "p")) (5 ∷ []) (6 ∷ []) ≡ err out_of_memory
unfolding crypt_encrypt encrypt_info crypt_key_derivation_base64
fails = refl

encrypt_with_version_line-lost_example :
    (file : Str) × (encrypt_with_version_line exhausted
        (codes "5.3.8")
        (some text)
        (some (codes "p"))
        (5 ∷ [])
        (6 ∷ [])
      ≡ ok file)
    × ((other : Str) → decrypt_file_content exhausted (some file) (some other) ≡ undefined)
encrypt_with_version_line-lost_example =
    encrypt_with_version_line-lost exhausted (codes "5.3.8") text (codes "p") (5 ∷ []) (6 ∷ [])
      out_of_memory release fails

abbrev five : List Str
five = codes "a" ∷ codes "b" ∷ codes "c" ∷ codes "d" ∷ codes "e" ∷ []

five_split : delimited_string_to_list (some (codes "a\nb\nc\nd\ne")) b'\n' ≡ some five
unfolding delimited_string_to_list tokens strtok
five_split = refl

crypt_decrypt-short_example :
    (length five < 5 → crypt_decrypt toy (some (codes "a\nb\nc\nd\ne")) (some text) ≡ err malformed)
    × (length five ≡ 5 → crypt_decrypt toy (some (codes "a\nb\nc\nd\ne")) (some text) ≡ undefined)
crypt_decrypt-short_example = crypt_decrypt-short toy (codes "a\nb\nc\nd\ne") text five five_split

decrypt_for_ipc-encrypt_for_ipc_example :
    (cipher : Str) × (encrypt_for_ipc toy text (6 ∷ []) (b'p' ∷ []) ≡ ok cipher)
    × (decrypt_for_ipc toy (some cipher) (b'p' ∷ []) ≡ ok text)
unfolding toy
decrypt_for_ipc-encrypt_for_ipc_example =
    decrypt_for_ipc-encrypt_for_ipc toy toy-IsSodium text (6 ∷ []) (b'p' ∷ []) box text-IsText
      (refl, (omega arith, tt)) fits boxed

-- 34 * 96 + 34 is written "AA".
written_pass : number_to_string 3298 ≡ some (codes "AA")
unfolding number_to_string
written_pass = refl

number_to_string-none_example : number_to_string 96 ≡ none
number_to_string-none_example = number_to_string-none 96 (omega arith) (inl refl)

-- A random source that always gives the least number that its bound allows.
init_password_crypt_lem_example : init_password_crypt (λ bound. 0) 3298 ≡ 3298
init_password_crypt_lem_example =
    init_password_crypt_lem (λ bound. 0) 3298 (λ bound. ((λ h. refl), (λ h. omega arith)))
