-- ===== src/Accounts.antt =====
-- The list of loaded accounts: src/utils/db/account_db.h over src/utils/db/db.c, with the encryption of
-- src/utils/crypt/dbCryptUtils.c and the lookups of src/utils/accountUtils.c. Accounts are shared objects,
-- so the list holds pointers into a heap, and a change through a pointer shows in the list. What is
-- removed from the list is freed; its heap cell is not read again.
pub mod Distinct
pub mod Names
pub mod Lookup
pub mod Sealed
pub mod Death
pub mod Examples
use oidc_agent.Prelude.{
  ℤ, pos, negsuc, ℕ, suc, ◌+◌, ◌<◌, Bool, true, false, ◌&&◌, ◌||◌, Option, none, some, List, [],
  ◌∷◌, ◌++◌, ◌==◌, ltb, leb, find_first, remove_first, if◌then◌else◌,
}
use oidc_agent.Text.{Str, str_valid}
use oidc_agent.Crypt.Memory.{Base64, memory_encrypt, memory_decrypt}
use oidc_agent.Account.{
  Account, blank, account_match_by_name, account_match_by_state, account_match_by_issuer_url,
}

pub record Accounts : Type 0 where
  pub heap : ℕ → Account
  pub loaded : List ℕ
  pub match : Account → Account → Bool

-- A write through the pointer `p`.
unfoldable pub store : Accounts → ℕ → Account → Accounts
store s p a = record s { heap = λ q. if q == p then a else s.heap q }

-- db_findValue
unfoldable pub account_db_find_value : Accounts → Account → Option ℕ
account_db_find_value s key = find_first (λ p. s.match key (s.heap p)) s.loaded

-- db_removeIfFound
unfoldable pub account_db_remove_if_found : Accounts → Account → Accounts
account_db_remove_if_found s key = record s {
  loaded = remove_first (λ p. s.match key (s.heap p)) s.loaded;
}

-- db_addValue
unfoldable pub account_db_add_value : Accounts → ℕ → Accounts
account_db_add_value s p = record s { loaded = s.loaded ++ p ∷ [] }

-- db_reset
unfoldable pub account_db_reset : Accounts → Accounts
account_db_reset s = record s { loaded = [] }

-- db_findAllValues; an empty result is NULL.
unfoldable pub all_matching : (ℕ → Bool) → List ℕ → List ℕ
all_matching p [] = []
all_matching p (x ∷ xs) = let rest = all_matching p xs in if p x then x ∷ rest else rest

unfoldable pub account_db_find_all_values : Accounts → Account → Option (List ℕ)
unfolding all_matching
account_db_find_all_values s key = elim (all_matching (λ p. s.match key (s.heap p)) s.loaded) [
  | [] ↦ none
  | x ∷ xs ↦ some (x ∷ xs)
]

unfoldable pub db_find_account_by_shortname : Accounts → Option Str → Option ℕ
unfolding account_db_find_value
db_find_account_by_shortname s none = none
db_find_account_by_shortname s (some name) =
    account_db_find_value s (record blank { shortname = some name })

-- The match function is replaced for the search and put back after it.
unfoldable pub db_find_accounts_by_issuer_url : Accounts → Option Str → Accounts × Option (List ℕ)
unfolding account_db_find_all_values
db_find_accounts_by_issuer_url s none = (s, none)
db_find_accounts_by_issuer_url s (some url) =
    let old = s.match in
    let s1 : Accounts = record s { match = account_match_by_issuer_url } in
    let found = account_db_find_all_values s1 (record blank { issuer_url = some url }) in
    (record s1 { match = old }, found)

-- A death time that is not positive is no death.
abbrev pub sooner : ℕ → ℤ → ℕ → ℕ
sooner now (pos d) min = if ltb 0 d && (ltb d min || min == 0) && ltb now d then d else min
sooner now (negsuc d) min = min

min_death : ℕ → List ℕ → (ℕ → ℤ) → ℕ → ℕ
min_death now [] death min = min
min_death now (p ∷ ps) death min = min_death now ps death (sooner now (death p) min)

unfoldable pub get_min_account_death : Accounts → ℕ → ℕ
unfolding min_death
get_min_account_death s now = min_death now s.loaded (λ p. (s.heap p).death) 0

-- `death > 0 && death <= now`
abbrev pub is_over : ℕ → ℤ → Bool
is_over now (pos d) = ltb 0 d && leb d now
is_over now (negsuc d) = false

unfoldable pub get_death_account : Accounts → ℕ → Option ℕ
get_death_account s now = find_first (λ p. is_over now (s.heap p).death) s.loaded

-- `if (tmp != NULL) account_set...(account, tmp)`
abbrev pub or_keep : Option Str → Option Str → Option Str
or_keep none old = old
or_keep (some t) old = some t

-- What db_addAccountEncrypted does with the list after the search for a similar account.
unfoldable pub replace_found : Accounts → ℕ → Option ℕ → Accounts
unfolding account_db_add_value account_db_remove_if_found
replace_found s p none = account_db_add_value s p
replace_found s p (some q) =
    if q == p then s else account_db_add_value (account_db_remove_if_found s (s.heap p)) p

module _ (b : Base64) (key : ℕ) where
  unfoldable pub decrypt_account : Account → Account
  decrypt_account a = record a {
    refresh_token = or_keep (memory_decrypt b key a.refresh_token) a.refresh_token;
    client_id = or_keep (memory_decrypt b key a.client_id) a.client_id;
    client_secret = or_keep (memory_decrypt b key a.client_secret) a.client_secret;
  }

  unfoldable pub encrypt_account : Account → Account
  encrypt_account a = record a {
    refresh_token = memory_encrypt b key a.refresh_token;
    client_id = memory_encrypt b key a.client_id;
    client_secret = memory_encrypt b key a.client_secret;
  }

  -- _db_decryptFoundAccount: the account is decrypted in place.
  unfoldable pub db_decrypt_found_account : Accounts → Option ℕ → Accounts × Option ℕ
  unfolding store decrypt_account
  db_decrypt_found_account s none = (s, none)
  db_decrypt_found_account s (some p) = (store s p (decrypt_account (s.heap p)), some p)

  unfoldable pub db_get_account_decrypted : Accounts → Account → Accounts × Option ℕ
  unfolding db_decrypt_found_account account_db_find_value
  db_get_account_decrypted s account_key =
      db_decrypt_found_account s (account_db_find_value s account_key)

  unfoldable pub db_get_account_decrypted_by_shortname : Accounts → Option Str → Accounts × Option ℕ
  unfolding db_decrypt_found_account db_find_account_by_shortname
  db_get_account_decrypted_by_shortname s name =
      db_decrypt_found_account s (db_find_account_by_shortname s name)

  unfoldable pub db_add_account_encrypted : Accounts → ℕ → Accounts
  unfolding replace_found store encrypt_account account_db_find_value
  db_add_account_encrypted s p =
      let s1 = store s p (encrypt_account (s.heap p)) in
      replace_found s1 p (account_db_find_value s1 (s1.heap p))
