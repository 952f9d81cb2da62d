-- ===== src/Passwords/Store.antt =====
-- src/oidc-agent/oidcp/passwords/password_store.c and password_handler.c: the list of the passwords, in
-- which a password is encrypted. The list is empty before its first use. The time, the random bytes,
-- the JSON parser, and what is got from the user, a command or a file are parameters.
pub mod Names
pub mod Death
pub mod Invariant
pub mod Runs
pub mod Lookup
use oidc_agent.Prelude.{
  ℕ, zero, suc, Bool, true, false, not, ◌&&◌, ◌||◌, Option, none, some, List, [], ◌∷◌, ◌++◌, ◌==◌,
  ltb, find_first, remove_first, if◌then◌else◌, ℤ, pos, negsuc,
}
use oidc_agent.Text.{Str, strequal}
use oidc_agent.ListUtils.{is_none}
use oidc_agent.Accounts.{is_over}
use oidc_agent.Agent.Add.{same_time}
use oidc_agent.Crypt.Answer.{
  Answer, ok, err, undefined, CryptError, arg_null, internal, ◌>>=◌, deref, non_null,
}
use oidc_agent.Crypt.Format.{Sodium}
use oidc_agent.Crypt.Lines.{pointer}
use oidc_agent.Crypt.Password.{encrypt_password, decrypt_password}
use oidc_agent.Passwords.Entry.{
  PasswordEntry, EntryValues, password_entry_of, pwe_set_password, pwe_set_expires_at, pw_type_mem,
  pw_type_cmd, pw_type_prmt, pw_type_file,
}

abbrev pub Passwords : Type 0
Passwords = List PasswordEntry

unfoldable pub match_password_entry_by_shortname : PasswordEntry → PasswordEntry → Bool
match_password_entry_by_shortname a b = strequal a.shortname b.shortname

-- The test with a key that has the name alone.
abbrev pub has_name : Option Str → PasswordEntry → Bool
has_name name b = strequal name b.shortname

-- The change of the first entry that passes the test, which is found by its pointer.
abbrev pub update_first :
    (PasswordEntry → Bool) → (PasswordEntry → PasswordEntry) → Passwords → Passwords
update_first t f [] = []
update_first t f (x ∷ xs) = let rest = update_first t f xs in if t x then f x ∷ xs else x ∷ rest

-- `pwe->expires_at && pwe->expires_at < time(NULL)`
unfoldable pub expired : ℕ → ℤ → Bool
expired now (pos t) = ltb 0 t && ltb t now
expired now (negsuc t) = true

unfoldable pub memory_get_password_for : ℕ → PasswordEntry → Option Str
unfolding expired
memory_get_password_for now pwe = if expired now pwe.expires_at then none else pwe.password

-- What is got from outside: the answer of the user, the output of a command, the line of a file.
pub record Sources : Type 0 where
  pub ask : Str → Option Str
  pub run : Option Str → Option Str
  pub line_of : Option Str → Option Str

unfoldable pub remove_password_for : Option Str → Passwords → Passwords
unfolding match_password_entry_by_shortname
remove_password_for none l = l
remove_password_for (some name) l = elim (find_first (has_name (some name)) l) [
  | none ↦ l
  | some pw ↦ remove_first (match_password_entry_by_shortname pw) l
]

unfoldable pub expire : ℕ → PasswordEntry → PasswordEntry
unfolding pwe_set_password pwe_set_expires_at
expire now pw = pwe_set_expires_at (pwe_set_password now pw none) (pos 0)

unfoldable pub expire_password_for : ℕ → Option Str → Passwords → Passwords
unfolding expire
expire_password_for now none l = l
expire_password_for now (some name) l = update_first (has_name (some name)) (expire now) l

unfoldable pub remove_all_passwords : Passwords → Passwords
remove_all_passwords l = []

unfoldable pub get_death_password_entry : ℕ → Passwords → Option PasswordEntry
get_death_password_entry now l = find_first (λ pw. is_over now pw.expires_at) l

-- The loop, with fuel; `none` means that it ran out.
unfoldable pub remove_death_passwords : ℕ → ℕ → Passwords → Option Passwords
unfolding get_death_password_entry expire_password_for
remove_death_passwords zero now l = none
remove_death_passwords (suc fuel) now l = elim (get_death_password_entry now l) [
  | none ↦ some l
  | some pw ↦ remove_death_passwords fuel now (expire_password_for now pw.shortname l)
]

-- The setter is called for a password that was not NULL.
pub set_encrypted : ℕ → PasswordEntry → Option Str → PasswordEntry
unfolding pwe_set_password
set_encrypted now pw none = pw
set_encrypted now pw (some c) = pwe_set_password now pw (some c)

-- The entry with its encrypted fields, and the store with it in place of an older one of its name.
pub saved_entry :
    ℕ → PasswordEntry → Option Str → Option Str → Option Str → Option Str → PasswordEntry
unfolding set_encrypted
saved_entry now pw password command filepath gpg_key = record (set_encrypted now pw password) {
  command = command;
  filepath = filepath;
  gpg_key = gpg_key;
}

pub replaced : PasswordEntry → Passwords → Passwords
unfolding match_password_entry_by_shortname
replaced pw l = remove_first (match_password_entry_by_shortname pw) l ++ pw ∷ []

module _ (s : Sodium) (password_pass : ℕ) where
  -- The test for NULL before each encryption; `r` are the random bytes.
  encrypt_field : Option Str → List ℕ × List ℕ → Option Str → Answer (Option Str)
  encrypt_field name r none = ok none
  encrypt_field name r (some t) = do
    c ← encrypt_password s password_pass (some t) name r.0 r.1
    ok (some c)

  unfoldable pub save_password :
      ℕ → (ℕ → List ℕ × List ℕ) → PasswordEntry → Passwords → Answer Passwords
  unfolding encrypt_field saved_entry replaced
  save_password now random pw l = do
    password ← encrypt_field pw.shortname (random 0) pw.password
    command ← encrypt_field pw.shortname (random 1) pw.command
    filepath ← encrypt_field pw.shortname (random 2) pw.filepath
    gpg_key ← encrypt_field pw.shortname (random 3) pw.gpg_key
    ok (replaced (saved_entry now pw password command filepath gpg_key) l)

  -- A text that is not a JSON object gives NULL, which is read without a test.
  unfoldable pub pw_handle_save :
      (Str → Option EntryValues)
      → ℕ
      → (ℕ → List ℕ × List ℕ)
      → Option Str
      → Passwords
      → Answer Passwords
  unfolding save_password
  pw_handle_save parse now random entry l = do
    text ← non_null arg_null entry
    values ← deref (parse text)
    let pw = password_entry_of values
    _ ← non_null internal pw.shortname
    _ ← if pw.type_bits == 0 then err internal else ok (tt {0})
    _ ← if is_none pw.password && pw_type_mem pw.type_bits then err internal else ok (tt {0})
    save_password now random pw l

  unfoldable pub get_gpg_key_for : Option Str → Passwords → Answer Str
  get_gpg_key_for shortname l = do
    name ← non_null arg_null shortname
    pw ← non_null arg_null (find_first (has_name (some name)) l)
    if pw_type_mem pw.type_bits
        then decrypt_password s password_pass pw.gpg_key (some name)
        else err arg_null

  -- One source after the other, while there is no result.
  from_memory : ℕ → Str → PasswordEntry → Answer (Option Str)
  from_memory now name pw =
      if pw_type_mem pw.type_bits
      then pointer (decrypt_password s password_pass (memory_get_password_for now pw) (some name))
      else ok none

  from_command : Sources → Str → PasswordEntry → Option Str → Answer (Option Str)
  from_command w name pw (some res) = ok (some res)
  from_command w name pw none =
      if pw_type_cmd pw.type_bits
      then (do
        cmd ← pointer (decrypt_password s password_pass pw.command (some name))
        ok (w.run cmd))
      else ok none

  from_file : Sources → Str → PasswordEntry → Option Str → Answer (Option Str)
  from_file w name pw (some res) = ok (some res)
  from_file w name pw none =
      if pw_type_file pw.type_bits
      then (do
        file ← pointer (decrypt_password s password_pass pw.filepath (some name))
        ok (w.line_of file))
      else ok none

  -- The answer of the user is kept if the type has memory, too.
  keep_answer :
      ℕ
      → List ℕ × List ℕ
      → Str
      → PasswordEntry
      → Option Str
      → Passwords
      → Answer (Passwords × Option Str)
  keep_answer now r name pw none l = ok (l, none)
  keep_answer now r name pw (some answer) l =
      if pw_type_mem pw.type_bits
      then (do
        c ← pointer (encrypt_password s password_pass (some answer) (some name) r.0 r.1)
        ok (update_first (has_name (some name)) (λ e. pwe_set_password now e c) l, some answer))
      else ok (l, some answer)

  from_prompt :
      Sources
      → ℕ
      → List ℕ × List ℕ
      → Str
      → PasswordEntry
      → Passwords
      → Option Str
      → Answer (Passwords × Option Str)
  unfolding keep_answer
  from_prompt w now r name pw l (some res) = ok (l, some res)
  from_prompt w now r name pw l none =
      if pw_type_prmt pw.type_bits then keep_answer now r name pw (w.ask name) l else ok (l, none)

  got_from :
      Sources
      → ℕ
      → List ℕ × List ℕ
      → Str
      → Passwords
      → PasswordEntry
      → Answer (Passwords × Option Str)
  unfolding from_memory from_command from_file from_prompt
  got_from w now r name l pw = do
    memory ← from_memory now name pw
    command ← from_command w name pw memory
    file ← from_file w name pw command
    from_prompt w now r name pw l file

  unfoldable pub get_password_for :
      Sources → ℕ → List ℕ × List ℕ → Option Str → Passwords → Answer (Passwords × Option Str)
  unfolding got_from
  get_password_for w now r none l = ok (l, none)
  get_password_for w now r (some name) l = elim (find_first (has_name (some name)) l) [
    | none ↦ ok (l, w.ask name)
    | some pw ↦ got_from w now r name l pw
  ]
