-- ===== src/Lock/Interface.antt =====
-- The encryption of the lock is that of src/utils/crypt/crypt.c. Where crypt.c reads through NULL, the
-- interface has a failure.
use oidc_agent.Prelude.{
  ℕ, ◌<◌, ◌^◌, ◌≡◌, refl, inl, inr, Option, none, some, List, length, arith, ap, ◌∙◌, sym,
  Option-cases, false, All,
}
use oidc_agent.Text.{Str, IsText}
use oidc_agent.Crypt.Answer.{Answer, ok, err, undefined}
use oidc_agent.Crypt.Format.{Sodium, crypt_encrypt, crypt_decrypt}
use oidc_agent.Crypt.Format.Sealed.{
  IsSodium, IsRandom, hash_of, encryption_part, encrypt_info-out_of_memory, encrypt_info-undefined,
}
use oidc_agent.Crypt.Format.Round.{crypt_decrypt-crypt_encrypt}
use oidc_agent.Lock.{PasswordCrypt, Agent, success, lock, unlock}
use oidc_agent.Lock.Loop.{NoDup}
use oidc_agent.Lock.Restore.{Restored, unlock-lock}
use oidc_agent.Lock.Round.{Inverts, IsLockable}

-- The pointer that is tested for NULL.
abbrev pub text_of : Answer Str → Option Str
text_of (ok t) = some t
text_of (err e) = none
text_of undefined = none

module _ (s : Sodium) where
  -- `random r` are the salt and the nonce that libsodium draws.
  unfoldable pub crypt_of : (ℕ → List ℕ × List ℕ) → (Str → Option Str) → PasswordCrypt
  crypt_of random s256 = record {
    encrypt = λ r text password.
        text_of (crypt_encrypt s (some text) (some password) (random r).0 (random r).1);
    decrypt = λ cipher password. text_of (crypt_decrypt s (some cipher) (some password));
    s256 = s256;
  }

  -- Without a hash there is an error, and without a box a read through NULL.
  no_hash :
      (text password : Str) (salt nonce : List ℕ)
      → hash_of s password salt ≡ none
      → text_of (crypt_encrypt s (some text) (some password) salt nonce) ≡ none
  unfolding crypt_encrypt
  no_hash text password salt nonce e =
      rw (encrypt_info-out_of_memory s text password salt nonce e) refl

  no_box :
      (text password : Str) (salt nonce key : List ℕ)
      → hash_of s password salt ≡ some key
      → s.secretbox text nonce (encryption_part s key) ≡ none
      → text_of (crypt_encrypt s (some text) (some password) salt nonce) ≡ none
  unfolding crypt_encrypt
  no_box text password salt nonce key e f =
      rw (encrypt_info-undefined s text password salt nonce key e f) refl

  module _ (h : IsSodium s) where
    decrypts :
        (text password t : Str) (salt nonce : List ℕ)
        → IsRandom s salt nonce
        → IsText text
        → length text < 2 ^ 32
        → text_of (crypt_encrypt s (some text) (some password) salt nonce) ≡ some t
        → text_of (crypt_decrypt s (some t) (some password)) ≡ some text
    decrypts text password t salt nonce r k l e = elim (Option-cases (hash_of s password salt)) [
      | inl f ↦ cc (no_hash text password salt nonce f)
      | inr (key, f) ↦ elim (Option-cases (s.secretbox text nonce (encryption_part s key))) [
        | inl g ↦ cc (no_box text password salt nonce key f g)
        | inr (box, g) ↦
            let (cipher, written, back) =
              crypt_decrypt-crypt_encrypt s h text password salt nonce key box r f g k
                (omega (arith, l, h.mac_fits.1)) in
            let same : some cipher ≡ some t = sym (ap text_of written) ∙ e in
            let here : cipher ≡ t = cc in rw (← here, back) refl
      ]
    ]

    -- The encryption of crypt.c does what the lock takes for granted: if the random bytes have their
    -- lengths, then a C string whose length fits and that crypt_encrypt gives a text for comes back from
    -- that text by crypt_decrypt with the same password.
    pub crypt_of-Inverts :
        (random : ℕ → List ℕ × List ℕ) (s256 : Str → Option Str)
        → ((r : ℕ) → IsRandom s (random r).0 (random r).1)
        → Inverts (crypt_of random s256)
    unfolding crypt_of
    crypt_of-Inverts random s256 good r text password t k l e =
        decrypts text password t (random r).0 (random r).1 (good r) k l e

    -- An agent that is locked with crypt.c is unlocked with the same password: if libsodium is as it is
    -- documented and its random bytes have their lengths, the password has a hash, no pointer is loaded
    -- twice and every loaded account has a client secret and secrets that are C strings whose lengths
    -- fit, then after a lock with success, unlock succeeds, the agent is not locked any more, and the
    -- loaded accounts are as they were before the lock.
    pub unlock-lock_with_sodium :
        (random : ℕ → List ℕ × List ℕ) (s256 : Str → Option Str)
        → (good : (r : ℕ) → IsRandom s (random r).0 (random r).1)
        → (r : ℕ → ℕ → ℕ) (password hash : Str) (g : Agent) → g.locked ≡ false
        → s256 password ≡ some hash
        → NoDup g.accounts.loaded
        → All (λ q. IsLockable (g.accounts.heap q)) g.accounts.loaded
        → (lock (crypt_of random s256) r g (some password)).1 ≡ success
        → let c = crypt_of random s256 in
          let h = unlock c (lock c r g (some password)).0 (some password) in
          (h.1 ≡ success)
          × (h.0.locked ≡ false)
          × Restored c (crypt_of-Inverts random s256 good) r password g.accounts h.0.accounts
    unfolding crypt_of
    unlock-lock_with_sodium random s256 good r password hash g l e d v done =
        unlock-lock (crypt_of random s256) (crypt_of-Inverts random s256 good) r password g hash l e
          d v done
