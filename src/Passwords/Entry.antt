-- ===== src/Passwords/Entry.antt =====
-- src/utils/password_entry.c: one password, or how to get it. Fresh pointers differ, so that the setters
-- return at once only for NULL in place of NULL, where it makes no difference but for the password.
use oidc_agent.Prelude.{
  ℕ, ◌-◌, ◌/◌, ◌%◌, ◌^◌, Bool, true, false, not, ◌&&◌, Option, none, some, ltb, ◌==◌, if◌then◌else◌,
  ℤ, pos, negsuc,
}
use oidc_agent.Text.{Str}
use oidc_agent.Text.Flags.{str_to_u_char}
use oidc_agent.Text.Scan.{str_to_u_long}
use oidc_agent.Agent.Add.{same_time, add_time}

pub record PasswordEntry : Type 0 where
  pub shortname : Option Str
  pub type_bits : ℕ
  pub password : Option Str
  pub expires_at : ℤ
  pub command : Option Str
  pub expires_after : ℤ
  pub filepath : Option Str
  pub gpg_key : Option Str

-- The bits of the type: PW_TYPE_MEM, PW_TYPE_CMD, PW_TYPE_PRMT and PW_TYPE_FILE.
abbrev bit : ℕ → ℕ → Bool
bit k n = n / 2 ^ k % 2 == 1

abbrev pub pw_type_mem : ℕ → Bool
pw_type_mem = bit 0

abbrev pub pw_type_cmd : ℕ → Bool
pw_type_cmd = bit 2

abbrev pub pw_type_prmt : ℕ → Bool
pw_type_prmt = bit 3

abbrev pub pw_type_file : ℕ → Bool
pw_type_file = bit 4

-- A new lifetime starts where none is running and there is one to start.
unfoldable pub start_lifetime : ℕ → PasswordEntry → PasswordEntry
start_lifetime now pw =
    if same_time pw.expires_at (pos 0) && not (same_time pw.expires_after (pos 0))
    then record pw { expires_at = add_time now pw.expires_after }
    else pw

-- `pw->password == password` for fresh pointers
unfoldable pub both_null : Option Str → Option Str → Bool
both_null none none = true
both_null none (some b) = false
both_null (some a) b = false

unfoldable pub pwe_set_password : ℕ → PasswordEntry → Option Str → PasswordEntry
unfolding start_lifetime both_null
pwe_set_password now pw password =
    if both_null pw.password password
    then pw
    else start_lifetime now (record pw { password = password })

unfoldable pub pwe_set_expires_at : PasswordEntry → ℤ → PasswordEntry
pwe_set_expires_at pw expires_at = record pw { expires_at = expires_at }

unfoldable pub pwe_set_expires_after : PasswordEntry → ℤ → PasswordEntry
pwe_set_expires_after pw expires_after = record pw { expires_after = expires_after }

unfoldable pub pwe_set_expires_in : ℕ → PasswordEntry → ℤ → PasswordEntry
unfolding pwe_set_expires_at pwe_set_expires_after
pwe_set_expires_in now pw expires_in =
    pwe_set_expires_after
      (pwe_set_expires_at pw
        (if same_time expires_in (pos 0) then pos 0 else add_time now expires_in))
      expires_in

-- An unsigned long as a `time_t`.
to_time : ℕ → ℤ
to_time n = if ltb n (2 ^ 63) then pos n else negsuc (2 ^ 64 - n - 1)

-- The values of the keys of a JSON object, NULL for a key that it does not have.
pub record EntryValues : Type 0 where
  pub shortname : Option Str
  pub type_text : Option Str
  pub password : Option Str
  pub filepath : Option Str
  pub gpg_key : Option Str
  pub expires_at : Option Str
  pub expires_after : Option Str
  pub command : Option Str

-- What JSONStringToPasswordEntry makes of the values: the password is set before the times are, so that
-- no lifetime starts.
unfoldable pub password_entry_of : EntryValues → PasswordEntry
unfolding to_time
password_entry_of v = record {
  shortname = v.shortname;
  type_bits = str_to_u_char v.type_text;
  password = v.password;
  expires_at = to_time (str_to_u_long v.expires_at);
  command = v.command;
  expires_after = to_time (str_to_u_long v.expires_after);
  filepath = v.filepath;
  gpg_key = v.gpg_key;
}
