-- ===== src/Lock/Examples.antt =====
-- An encryption that fills the place of libsodium's, and tests of the lock.
use oidc_agent.Prelude.{
  ℕ, List, ◌≡◌, ◌≢◌, ◌≤◌, ◌<◌, ◌⊎◌, ◌+◌, ◌*◌, refl, inl, true, false, none, [], ◌∷◌, some, arith,
}
use oidc_agent.Text.{codes, strequal}
use oidc_agent.Accounts.Examples.{accounts}
use oidc_agent.Account.{Account, blank, account_match_by_name}
use oidc_agent.Lock.{
  PasswordCrypt, Agent, success, epass, hashed, unlock, lock, lock_encrypt, lock_account,
  each_account,
}
use oidc_agent.Crypt.Format.{crypt_encrypt, encrypt_info, crypt_encrypt_with_key}
use oidc_agent.Crypt.Format.Sealed.{IsRandom}
use oidc_agent.Crypt.Toy.{toy, toy-IsSodium}
use oidc_agent.Lock.Round.{IsLockable}
use oidc_agent.Lock.Interface.{crypt_of, crypt_of-Inverts, unlock-lock_with_sodium}
use oidc_agent.Lock.Restore.{Restored}
use oidc_agent.Lock.Laws.{unlock-stays_locked, unlock-wrong_password}

abbrev cipher : PasswordCrypt
cipher = record {
  encrypt = λ r text password. some text;
  decrypt = λ text password. some text;
  s256 = λ password. some password;
}

abbrev locked_agent : Agent
locked_agent = record {
  accounts = accounts;
  locked = true;
  hash = some (codes "pw");
  fail_count = 24;
  delay = 0;
}

unlock-stays_locked_example :
    ((unlock cipher locked_agent (some (codes "pw"))).0.locked ≡ true)
    × ((unlock cipher locked_agent (some (codes "pw"))).1 ≢ success)
unlock-stays_locked_example =
    unlock-stays_locked cipher locked_agent (some (codes "pw")) 1 refl (inl refl) refl

unlock-wrong_password_example :
    let after = (unlock cipher locked_agent (some (codes "pv"))).0 in
    ((unlock cipher locked_agent (some (codes "pv"))).1 ≡ epass)
    × (after.accounts ≡ accounts)
    × (after.locked ≡ true)
    × (after.hash ≡ some (codes "pw"))
    × (((24 < 25) × (after.fail_count ≡ 24 + 1)) ⊎ ((◌≡◌ {A = ℕ} 24 25) × (after.fail_count ≡ 25)))
    × (after.delay ≡ 100 * after.fail_count * after.fail_count)
    × (after.delay ≤ 62500)
unlock-wrong_password_example =
    unlock-wrong_password cipher locked_agent (some (codes "pv")) refl
      (unfold hashed strequal in refl) (omega arith)

-- An account with all of its secrets, loaded at 0.
abbrev full : Account
full = record blank {
  access_token = some (codes "a");
  refresh_token = some (codes "r");
  client_id = some (codes "c");
  client_secret = some (codes "s");
}

abbrev open_agent : Agent
open_agent = record {
  accounts = record { heap = λ p. full; loaded = 0 ∷ []; match = account_match_by_name };
  locked = false;
  hash = none;
  fail_count = 0;
  delay = 0;
}

-- The same salt and nonce for every text.
abbrev draws : ℕ → List ℕ × List ℕ
draws r = (5 ∷ [], 6 ∷ [])

draws-IsRandom : (r : ℕ) → IsRandom toy (draws r).0 (draws r).1
unfolding toy
draws-IsRandom r = record {
  salt_length = refl;
  salt_bytes = (omega arith, tt);
  nonce_length = refl;
  nonce_bytes = (omega arith, tt);
}

abbrev with_toy : PasswordCrypt
with_toy = crypt_of toy draws (λ password. some password)

full-IsLockable : IsLockable full
full-IsLockable = record {
  access_token = (((omega arith, omega arith), tt), omega arith);
  refresh_token = (((omega arith, omega arith), tt), omega arith);
  client_id = (((omega arith, omega arith), tt), omega arith);
  client_secret = (((omega arith, omega arith), tt), omega arith);
  has_secret = unfold oidc_agent.Text.str_valid strequal in refl;
}

locks : (lock with_toy (λ p n. 0) open_agent (some (codes "pw"))).1 ≡ success
unfolding lock lock_encrypt each_account lock_account oidc_agent.Lock.encrypt_text
    oidc_agent.Text.str_valid crypt_of crypt_encrypt encrypt_info toy crypt_encrypt_with_key
locks = refl

unlock-lock_with_sodium_example :
    let h =
      unlock with_toy
        (lock with_toy (λ p n. 0) open_agent (some (codes "pw"))).0
        (some (codes "pw")) in
    (h.1 ≡ success)
    × (h.0.locked ≡ false)
    × Restored with_toy
        (crypt_of-Inverts toy toy-IsSodium draws (λ password. some password) draws-IsRandom)
        (λ p n. 0)
        (codes "pw")
        open_agent.accounts
        h.0.accounts
unlock-lock_with_sodium_example =
    unlock-lock_with_sodium toy toy-IsSodium draws (λ password. some password) draws-IsRandom
      (λ p n. 0) (codes "pw") (codes "pw") open_agent refl refl (tt, tt) (full-IsLockable, tt) locks
