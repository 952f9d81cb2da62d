-- ===== src/Lock.antt =====
-- src/oidc-agent/lock_state.c and the lock encryption of src/utils/crypt/dbCryptUtils.c. What they use
-- of src/utils/crypt/crypt.c is an interface, which `crypt_of` fills with its functions.
pub mod Laws
pub mod Round
pub mod Loop
pub mod Restore
pub mod Interface
mod Examples
use oidc_agent.Prelude.{
  ℕ, suc, ◌+◌, ◌*◌, ◌≡◌, Bool, true, false, Option, none, some, List, [], ◌∷◌, ltb, if◌then◌else◌,
}
use oidc_agent.Text.{Str, strequal, str_valid}
use oidc_agent.Account.{Account}
use oidc_agent.Accounts.{Accounts, store}

-- `encrypt r text password` with the random choices `r`, `decrypt cipher password`, and s256 of a
-- password, a hash of libsodium; NULL is refused by the functions below, as in the code.
pub record PasswordCrypt : Type 0 where
  pub encrypt : ℕ → Str → Str → Option Str
  pub decrypt : Str → Str → Option Str
  pub s256 : Str → Option Str

pub record Agent : Type 0 where
  pub accounts : Accounts
  pub locked : Bool
  pub hash : Option Str
  -- The static counter of unlock.
  pub fail_count : ℕ
  -- The last delay in milliseconds.
  pub delay : ℕ

pub data Outcome : Type 0 where
  success elocked enotlocked epass ecrypt : Outcome

module _ (c : PasswordCrypt) (password : Option Str) where
  unfoldable pub encrypt_text : ℕ → Option Str → Option Str
  encrypt_text r none = none
  encrypt_text r (some text) = elim password [ none ↦ none | some pw ↦ c.encrypt r text pw ]

  unfoldable pub crypt_decrypt : Option Str → Option Str
  crypt_decrypt none = none
  crypt_decrypt (some cipher) = elim password [ none ↦ none | some pw ↦ c.decrypt cipher pw ]

  -- The body of the loop of lockEncrypt, one stage for each secret. A failed stage ends it, and the
  -- fields that were set before stay set.
  encrypt_secret : (ℕ → ℕ) → Account → Account × Bool
  unfolding encrypt_text
  encrypt_secret r a =
      if str_valid a.client_secret
      then elim (encrypt_text (r 3) a.client_secret) [
        | none ↦ (a, false)
        | some t ↦ (record a { client_secret = some t }, true)
      ]
      else (a, true)

  encrypt_client_id : (ℕ → ℕ) → Account → Account × Bool
  unfolding encrypt_secret
  encrypt_client_id r a = elim (encrypt_text (r 2) a.client_id) [
    | none ↦ (a, false)
    | some t ↦ encrypt_secret r (record a { client_id = some t })
  ]

  encrypt_refresh : (ℕ → ℕ) → Account → Account × Bool
  unfolding encrypt_client_id
  encrypt_refresh r a = elim (encrypt_text (r 1) a.refresh_token) [
    | none ↦ (a, false)
    | some t ↦ encrypt_client_id r (record a { refresh_token = some t })
  ]

  unfoldable pub lock_account : (ℕ → ℕ) → Account → Account × Bool
  unfolding encrypt_refresh
  lock_account r a = elim (encrypt_text (r 0) a.access_token) [
    | none ↦ (a, false)
    | some t ↦ encrypt_refresh r (record a { access_token = some t })
  ]

  -- The body of the loop of lockDecrypt.
  decrypt_secret : Account → Account × Bool
  unfolding crypt_decrypt
  decrypt_secret a = elim (crypt_decrypt a.client_secret) [
    | none ↦ (a, false)
    | some t ↦ (record a { client_secret = some t }, true)
  ]

  decrypt_client_id : Account → Account × Bool
  unfolding decrypt_secret
  decrypt_client_id a = elim (crypt_decrypt a.client_id) [
    | none ↦ (a, false)
    | some t ↦ decrypt_secret (record a { client_id = some t })
  ]

  decrypt_refresh : Account → Account × Bool
  unfolding decrypt_client_id
  decrypt_refresh a = elim (crypt_decrypt a.refresh_token) [
    | none ↦ (a, false)
    | some t ↦ decrypt_client_id (record a { refresh_token = some t })
  ]

  unfoldable pub unlock_account : Account → Account × Bool
  unfolding decrypt_refresh
  unlock_account a = elim (crypt_decrypt a.access_token) [
    | none ↦ (a, false)
    | some t ↦ decrypt_refresh (record a { access_token = some t })
  ]

-- A loop over the loaded accounts that changes each in place and ends at the first failure.
unfoldable pub each_account : (ℕ → Account → Account × Bool) → List ℕ → Accounts → Accounts × Bool
each_account step [] s = (s, true)
each_account step (p ∷ ps) s =
    let s1 = store s p (step p (s.heap p)).0 in
    let rest = each_account step ps s1 in if (step p (s.heap p)).1 then rest else (s1, false)

module _ (c : PasswordCrypt) where
  -- `r p n` are the random choices for the secret `n` of the account at `p`.
  unfoldable pub lock_encrypt : (ℕ → ℕ → ℕ) → Accounts → Option Str → Accounts × Bool
  unfolding each_account
  lock_encrypt r s password = each_account (λ p. lock_account c password (r p)) s.loaded s

  unfoldable pub lock_decrypt : Accounts → Option Str → Accounts × Bool
  unfolding each_account
  lock_decrypt s password = each_account (λ p. unlock_account c password) s.loaded s

  unfoldable pub hashed : Option Str → Option Str
  hashed none = none
  hashed (some pw) = c.s256 pw

  unfoldable pub lock_result : Agent → Option Str → Accounts × Bool → Agent × Outcome
  lock_result g h (s, true) = (record g { accounts = s; hash = h; locked = true }, success)
  lock_result g h (s, false) = (record g { accounts = s; hash = h }, ecrypt)

  unfoldable pub lock : (ℕ → ℕ → ℕ) → Agent → Option Str → Agent × Outcome
  unfolding lock_encrypt hashed lock_result
  lock r g password =
      if g.locked
      then (g, elocked)
      else lock_result g (hashed password) (lock_encrypt r g.accounts password)

  unfoldable pub unlock_result : Agent → Accounts × Bool → Agent × Outcome
  unlock_result g (s, true) =
      (record g { accounts = s; hash = none; locked = false; fail_count = 0 }, success)
  unlock_result g (s, false) = (record g { accounts = s }, ecrypt)

  -- `fail_count` is an unsigned char, and the delay is 100 times its square.
  unfoldable pub wrong_password : Agent → Agent × Outcome
  wrong_password g =
      let n = if ltb g.fail_count 25 then g.fail_count + 1 else g.fail_count in
      (record g { fail_count = n; delay = 100 * n * n }, epass)

  unfoldable pub unlock : Agent → Option Str → Agent × Outcome
  unfolding lock_decrypt hashed unlock_result wrong_password
  unlock g password =
      if g.locked
      then if strequal g.hash (hashed password)
        then unlock_result g (lock_decrypt g.accounts password)
        else wrong_password g
      else (g, enotlocked)
