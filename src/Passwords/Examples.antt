-- ===== src/Passwords/Examples.antt =====
-- Tests of the passwords, with the functions of `Toy` in place of libsodium's.
use oidc_agent.Prelude.{
  ℕ, suc, ◌^◌, ◌<◌, ◌+◌, ◌≡◌, ◌≢◌, refl, false, true, Option, none, some, List, [], ◌∷◌, ◌++◌,
  length, map, arith, All, find_first, pos,
}
use oidc_agent.Text.{Str, codes, IsText, same_text}
use oidc_agent.Text.Flags.{str_to_u_char}
use oidc_agent.Text.Case.{strcaseequal}
use oidc_agent.Text.Number.{read_number}
use oidc_agent.Crypt.Answer.{Answer, ok, err, undefined}
use oidc_agent.Crypt.Format.{crypt_encrypt, encrypt_info, crypt_encrypt_with_key}
use oidc_agent.Crypt.Password.{encrypt_password}
use oidc_agent.Crypt.Format.Sealed.{IsRandom, hash_of, encryption_part}
use oidc_agent.Crypt.Number.{number_to_string}
use oidc_agent.Crypt.Toy.{toy, toy-IsSodium}
use oidc_agent.Passwords.Entry.{PasswordEntry, EntryValues, start_lifetime, password_entry_of}
use oidc_agent.Passwords.Store.{
  Passwords, Sources, has_name, expired, save_password, pw_handle_save, expire_password_for,
  get_password_for, remove_death_passwords,
}
use oidc_agent.Passwords.Store.Names.{DistinctNames}
use oidc_agent.Passwords.Store.Lookup.{get_password_for-save_password}
use oidc_agent.Passwords.Store.Death.{remove_death_passwords_lem, is_dead, after_death}
use oidc_agent.Passwords.Store.Invariant.{Inv}
use oidc_agent.Passwords.Store.Runs.{Reachable-Inv, empty, after, handle_save, expires}

abbrev text : Str
text = codes "rt"

-- Memory for 60 seconds.
abbrev entry : PasswordEntry
entry = record {
  shortname = some (codes "p");
  type_bits = 1;
  password = some text;
  expires_at = pos 0;
  command = none;
  expires_after = pos 60;
  filepath = none;
  gpg_key = none;
}

abbrev dead : PasswordEntry
dead = record entry { shortname = some (codes "q"); expires_at = pos 5 }

abbrev random : ℕ → List ℕ × List ℕ
random i = (5 ∷ [], 6 ∷ [])

abbrev stored_in : Answer Passwords → Passwords
stored_in (ok l) = l
stored_in (err e) = []
stored_in undefined = []

abbrev before : Passwords
before = dead ∷ record entry { password = none } ∷ []

abbrev stored : Passwords
stored = stored_in (save_password toy 3298 100 random entry before)

saved : save_password toy 3298 100 random entry before ≡ ok stored
unfolding save_password encrypt_password crypt_encrypt encrypt_info number_to_string toy
    crypt_encrypt_with_key
saved = refl

before-DistinctNames : DistinctNames before
before-DistinctNames = (((λ e. differ e), tt), (tt, tt))
  where
    differ : ◌≢◌ {A = Option Str} (some (codes "p")) (some (codes "q"))
    differ e = ground arith

living : expired 120 (start_lifetime 100 entry).expires_at ≡ false
unfolding expired start_lifetime
living = refl

get_password_for-save_password_example :
    ((w : Sources) (r : List ℕ × List ℕ)
      → get_password_for toy 3298 w 120 r (some (codes "p")) stored ≡ ok (stored, some text))
    × ((other : Option Str)
        → other ≢ some (codes "p")
        → find_first (has_name other) stored ≡ find_first (has_name other) before)
get_password_for-save_password_example =
    get_password_for-save_password toy 3298 toy-IsSodium 100 120 random entry before stored
      (codes "p") text (codes "AA") (b'p' ∷ b'p' ∷ []) (7 ∷ text) before-DistinctNames saved refl
      refl refl living written_pass text-IsText random_bytes fits hashed boxed
  where
    written_pass : number_to_string 3298 ≡ some (codes "AA")
    written_pass = unfold number_to_string in refl

    text-IsText : IsText text
    text-IsText = ((omega arith, omega arith), ((omega arith, omega arith), tt))

    random_bytes : IsRandom toy (5 ∷ []) (6 ∷ [])
    random_bytes =
        unfold toy in
        record {
          salt_length = refl;
          salt_bytes = (omega arith, tt);
          nonce_length = refl;
          nonce_bytes = (omega arith, tt);
        }

    fits : length text + toy.mac_bytes < 2 ^ 64
    fits = unfold toy in omega arith

    hashed : hash_of toy (codes "p" ++ codes "AA") (5 ∷ []) ≡ some (b'p' ∷ b'p' ∷ [])
    hashed = unfold toy in refl

    boxed : toy.secretbox text (6 ∷ []) (encryption_part toy (b'p' ∷ b'p' ∷ [])) ≡ some (7 ∷ text)
    boxed = unfold toy in refl

-- The lifetime of `dead` is over at 10.
remove_death_passwords_lem_example :
    (remove_death_passwords (suc (length before)) 10 before ≡ some (map (after_death 10) before))
    × All (λ pw. is_dead 10 pw ≡ false) (map (after_death 10) before)
    × All
        (λ pw.
          is_dead 10 pw ≡ true
          → ((after_death 10 pw).password ≡ none) × ((after_death 10 pw).expires_at ≡ pos 0))
        before
remove_death_passwords_lem_example =
    remove_death_passwords_lem 10 before before-DistinctNames ((λ e. cc), ((λ e. cc), tt))

values : EntryValues
values = record {
  shortname = some (codes "p");
  type_text = some (codes "1");
  password = some text;
  filepath = none;
  gpg_key = none;
  expires_at = none;
  expires_after = some (codes "60");
  command = none;
}

abbrev handled : Passwords
handled = stored_in (pw_handle_save toy 3298 (λ t. some values) 100 random (some (codes "{}")) [])

handled_saved :
    pw_handle_save toy 3298 (λ t. some values) 100 random (some (codes "{}")) [] ≡ ok handled
unfolding pw_handle_save values password_entry_of encrypt_password crypt_encrypt encrypt_info
    number_to_string toy str_to_u_char strcaseequal same_text read_number crypt_encrypt_with_key
handled_saved = refl

Reachable-Inv_example : Inv toy 3298 (expire_password_for 200 (some (codes "p")) handled)
Reachable-Inv_example = Reachable-Inv toy 3298 (
    after
      (after empty (handle_save (λ t. some values) 100 random (some (codes "{}")) handled_saved))
      (expires 200 (some (codes "p"))))
