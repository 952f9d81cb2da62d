-- ===== src/Lock/Round.antt =====
-- An agent that is locked and unlocked with the same password has its accounts back.
use oidc_agent.Prelude.{
  ℕ, ◌<◌, ◌^◌, length, ◌≡◌, refl, sym, ap, ◌∙◌, inl, inr, true, false, Option, none, some,
  Option-cases,
}
use oidc_agent.Text.{Str, str_valid, IsText}
use oidc_agent.Account.{Account}
use oidc_agent.Lock.{
  PasswordCrypt, encrypt_text, crypt_decrypt, encrypt_secret, encrypt_client_id, encrypt_refresh,
  lock_account, decrypt_secret, decrypt_client_id, decrypt_refresh, unlock_account,
}

-- The password decryption inverts the encryption under the same password, for a C string whose length
-- fits.
abbrev pub Inverts : PasswordCrypt → Type 0
Inverts c =
    (r : ℕ) (text password t : Str)
    → IsText text
    → length text < 2 ^ 32
    → c.encrypt r text password ≡ some t
    → c.decrypt t password ≡ some text

abbrev pub Fits : Option Str → Type 0
Fits none = Unit
Fits (some text) = IsText text × (length text < 2 ^ 32)

-- The secrets are C strings whose lengths fit, and there is a client secret.
pub record IsLockable (a : Account) : Type 0 where
  pub access_token : Fits a.access_token
  pub refresh_token : Fits a.refresh_token
  pub client_id : Fits a.client_id
  pub client_secret : Fits a.client_secret
  pub has_secret : str_valid a.client_secret ≡ true

false_is_no_true : ¬ (false ≡ true)
false_is_no_true e = cc

module _ (c : PasswordCrypt) (inverts : Inverts c) (password : Str) where
  -- A secret that was encrypted comes back.
  abbrev Back : Option Str → Str → Type 0
  Back x t = (text : Str) × (x ≡ some text) × (c.decrypt t password ≡ some text)

  stage-Back :
      (r : ℕ) (x : Option Str) (t : Str)
      → Fits x
      → encrypt_text c (some password) r x ≡ some t
      → Back x t
  unfolding encrypt_text
  stage-Back r none t f e = cc
  stage-Back r (some text) t f e = (text, refl, inverts r text password t f.0 f.1 e)

  -- The account with the four secrets replaced.
  abbrev with_secrets : Account → Option Str → Option Str → Option Str → Option Str → Account
  with_secrets a access refresh id secret = record a {
    access_token = access;
    refresh_token = refresh;
    client_id = id;
    client_secret = secret;
  }

  secret-locked :
      (r : ℕ → ℕ) (a : Account)
      → Fits a.client_secret
      → str_valid a.client_secret ≡ true
      → (encrypt_secret c (some password) r a).1 ≡ true
      → (t : Str) × Back a.client_secret t
        × ((encrypt_secret c (some password) r a).0 ≡ record a { client_secret = some t })
  unfolding encrypt_secret
  secret-locked r a f v ok =
      elim (Option-cases (encrypt_text c (some password) (r 3) a.client_secret)) [
        | inl e ↦ absurd (false_is_no_true (simp (v, e, encrypt_secret) at ok))
        | inr (t, e) ↦ (t, stage-Back (r 3) a.client_secret t f e, simp (v, e, encrypt_secret) refl)
      ]

  client_id-locked :
      (r : ℕ → ℕ) (a : Account)
      → Fits a.client_id
      → Fits a.client_secret
      → str_valid a.client_secret ≡ true
      → (encrypt_client_id c (some password) r a).1 ≡ true
      → (id secret : Str) × Back a.client_id id
        × Back a.client_secret secret
        × ((encrypt_client_id c (some password) r a).0
            ≡ record a { client_id = some id; client_secret = some secret })
  unfolding encrypt_client_id
  client_id-locked r a fi f v ok =
      elim (Option-cases (encrypt_text c (some password) (r 2) a.client_id)) [
        | inl e ↦ absurd (false_is_no_true (simp (e, encrypt_client_id) at ok))
        | inr (id, e) ↦
            let (secret, k, s) =
              secret-locked r (record a { client_id = some id }) f v
                (simp (e, encrypt_client_id) at ok) in
            (id, secret, stage-Back (r 2) a.client_id id fi e, k, simp (e, encrypt_client_id) s)
      ]

  refresh-locked :
      (r : ℕ → ℕ) (a : Account)
      → Fits a.refresh_token
      → Fits a.client_id
      → Fits a.client_secret
      → str_valid a.client_secret ≡ true
      → (encrypt_refresh c (some password) r a).1 ≡ true
      → (refresh id secret : Str) × Back a.refresh_token refresh
        × Back a.client_id id
        × Back a.client_secret secret
        × ((encrypt_refresh c (some password) r a).0
            ≡ with_secrets a a.access_token (some refresh) (some id) (some secret))
  unfolding encrypt_refresh
  refresh-locked r a fr fi f v ok =
      elim (Option-cases (encrypt_text c (some password) (r 1) a.refresh_token)) [
        | inl e ↦ absurd (false_is_no_true (simp (e, encrypt_refresh) at ok))
        | inr (refresh, e) ↦
            let (id, secret, j, k, s) =
              client_id-locked r (record a { refresh_token = some refresh }) fi f v
                (simp (e, encrypt_refresh) at ok) in
            (
              refresh,
              id,
              secret,
              stage-Back (r 1) a.refresh_token refresh fr e,
              j,
              k,
              simp (e, encrypt_refresh) s,
            )
      ]

  account-locked :
      (r : ℕ → ℕ) (a : Account)
      → IsLockable a
      → (lock_account c (some password) r a).1 ≡ true
      → (access refresh id secret : Str) × Back a.access_token access
        × Back a.refresh_token refresh
        × Back a.client_id id
        × Back a.client_secret secret
        × ((lock_account c (some password) r a).0
            ≡ with_secrets a (some access) (some refresh) (some id) (some secret))
  unfolding lock_account
  account-locked r a v ok =
      elim (Option-cases (encrypt_text c (some password) (r 0) a.access_token)) [
        | inl e ↦ absurd (false_is_no_true (simp (e, lock_account) at ok))
        | inr (access, e) ↦
            let (refresh, id, secret, i, j, k, s) =
              refresh-locked r (record a { access_token = some access }) v.refresh_token v.client_id
                v.client_secret v.has_secret (simp (e, lock_account) at ok) in
            (
              access,
              refresh,
              id,
              secret,
              stage-Back (r 0) a.access_token access v.access_token e,
              i,
              j,
              k,
              simp (e, lock_account) s,
            )
      ]

  unlocked :
      (a : Account) (access refresh id secret : Str)
      → Back a.access_token access
      → Back a.refresh_token refresh
      → Back a.client_id id
      → Back a.client_secret secret
      → unlock_account c
          (some password)
          (with_secrets a (some access) (some refresh) (some id) (some secret))
        ≡ (a, true)
  unfolding unlock_account decrypt_refresh decrypt_client_id decrypt_secret crypt_decrypt
  unlocked a access refresh id secret (x, ex, dx) (y, ey, dy) (z, ez, dz) (s, es, ds) =
      simp
        (
          dx, dy, dz, ds, unlock_account, decrypt_refresh, decrypt_client_id, decrypt_secret,
          crypt_decrypt,
        )
        (λ i. (with_secrets a (sym ex i) (sym ey i) (sym ez i) (sym es i), true))

  -- An account that was locked with success, has a client secret, and whose secrets are C strings that
  -- fit, is unlocked to what it was.
  pub unlock_account-lock_account :
      (r : ℕ → ℕ) (a : Account)
      → IsLockable a
      → (lock_account c (some password) r a).1 ≡ true
      → unlock_account c (some password) (lock_account c (some password) r a).0 ≡ (a, true)
  unlock_account-lock_account r a v ok =
      let (access, refresh, id, secret, h, i, j, k, s) = account-locked r a v ok in
      ap (unlock_account c (some password)) s ∙ unlocked a access refresh id secret h i j k
