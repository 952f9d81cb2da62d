-- ===== src/Accounts/Lookup.antt =====
-- db_addAccountEncrypted puts an account under its name, and its secrets come back by the name.
use mathlib.Core.Path.{fun_ext}
use oidc_agent.Prelude.{
  ℕ, ◌^◌, ◌<◌, length, ◌≡◌, refl, sym, ap, ◌∙◌, subst, true, Option, none, some, ==_iff, arith,
  if◌then◌else◌, find_first,
}
use oidc_agent.Text.{Str, str_valid, IsText}
use oidc_agent.Crypt.Memory.{Base64, IsCoding, memory_encrypt, memory_decrypt}
use oidc_agent.Crypt.Memory.Laws.{memory_decrypt-memory_encrypt}
use oidc_agent.Account.{Account, blank, match_strings}
use oidc_agent.Accounts.{
  Accounts, store, or_keep, encrypt_account, decrypt_account, db_add_account_encrypted,
  db_find_account_by_shortname, db_get_account_decrypted_by_shortname, account_db_find_value,
}
use oidc_agent.Accounts.Distinct.{Distinct, named, match_strings_iff}
use oidc_agent.Accounts.Names.{
  name, HasDistinctNames, find-name, replace_found-HasDistinctNames, find-replace_found,
  heap-replace_found,
}

-- A write that leaves the name alone changes no name.
pub name-store :
    (s : Accounts) (p : ℕ) (a : Account) → a.shortname ≡ name s p → name (store s p a) ≡ name s
unfolding store
name-store s p a e = fun_ext (λ q. at q)
  where
    at : (q : ℕ) → name (store s p a) q ≡ name s q
    at q = ground (arith, ==_iff q p)

pub store-HasDistinctNames :
    (s : Accounts) (p : ℕ) (a : Account)
    → a.shortname ≡ name s p
    → HasDistinctNames s
    → HasDistinctNames (store s p a)
unfolding store
store-HasDistinctNames s p a e h = record {
  by_name = h.by_name;
  distinct = subst (λ f. Distinct f s.loaded) (sym (name-store s p a e)) h.distinct;
}

module _ (b : Base64) (key : ℕ) where
  -- If the loaded accounts have distinct names, then so they have after an account is added.
  pub db_add_account_encrypted-HasDistinctNames :
      (s : Accounts) (p : ℕ)
      → HasDistinctNames s
      → HasDistinctNames (db_add_account_encrypted b key s p)
  unfolding db_add_account_encrypted
  db_add_account_encrypted-HasDistinctNames s p h =
      let s1 = store s p (encrypt_account b key (s.heap p)) in
      let h1 = store-HasDistinctNames s p (encrypt_account b key (s.heap p)) refl h in
      replace_found-HasDistinctNames s1 p h1 (account_db_find_value s1 (s1.heap p))
        (sym (find-name s1 (s1.heap p) h1.by_name))

  -- If the loaded accounts have distinct names, then after an account is added its name leads to it,
  -- and every other name leads where it led.
  pub db_find_account_by_shortname-add :
      (s : Accounts) (p : ℕ) (n : Str)
      → HasDistinctNames s
      → db_find_account_by_shortname (db_add_account_encrypted b key s p) (some n) ≡ (
          if match_strings (some n) (name s p)
          then some p
          else db_find_account_by_shortname s (some n))
  unfolding db_add_account_encrypted db_find_account_by_shortname
  db_find_account_by_shortname-add s p n h =
      let s1 = store s p (encrypt_account b key (s.heap p)) in
      let h1 = store-HasDistinctNames s p (encrypt_account b key (s.heap p)) refl h in
      let found = account_db_find_value s1 (s1.heap p) in
      let names : name (db_add_account_encrypted b key s p) ≡ name s1 =
        ap {B = ℕ → Option Str} (λ (g : ℕ → Account) (q : ℕ). (g q).shortname)
          (heap-replace_found s1 p h1 found) in
      let unchanged : name s1 ≡ name s = name-store s p (encrypt_account b key (s.heap p)) refl in
      let lookup = λ (f : ℕ → Option Str).
        if named f (some n) p then some p else find_first (named f (some n)) s.loaded in
      find-name (db_add_account_encrypted b key s p) (record blank { shortname = some n })
        (db_add_account_encrypted-HasDistinctNames s p h).by_name
      ∙ ap (λ f. find_first (named f (some n)) (db_add_account_encrypted b key s p).loaded) names
      ∙ find-replace_found s1 p h1 (some n) found (sym (find-name s1 (s1.heap p) h1.by_name))
      ∙ ap lookup unchanged
      ∙ ap (λ o. if match_strings (some n) (name s p) then some p else o)
          (sym (find-name s (record blank { shortname = some n }) h.by_name))

  -- A secret that is missing, or a valid C string of a length that fits an int.
  abbrev pub IsSecret : Option Str → Type 0
  IsSecret none = Unit
  IsSecret (some t) = (str_valid (some t) ≡ true) × IsText t × (length t < 2 ^ 31)

  module _ (coding : IsCoding b) where
    secret_back :
        (x : Option Str)
        → IsSecret x
        → or_keep (memory_decrypt b key (memory_encrypt b key x)) (memory_encrypt b key x) ≡ x
    secret_back none h = unfold memory_encrypt memory_decrypt in refl
    secret_back (some t) h =
        ap (λ o. or_keep o (memory_encrypt b key (some t)))
          (memory_decrypt-memory_encrypt b coding key t h.0 h.1 h.2)

    -- Decryption in place undoes encryption in place.
    pub decrypt_account-encrypt_account :
        (a : Account)
        → IsSecret a.refresh_token
        → IsSecret a.client_id
        → IsSecret a.client_secret
        → decrypt_account b key (encrypt_account b key a) ≡ a
    unfolding decrypt_account encrypt_account
    decrypt_account-encrypt_account a hr hi hs = λ i. record a {
      refresh_token = secret_back a.refresh_token hr i;
      client_id = secret_back a.client_id hi i;
      client_secret = secret_back a.client_secret hs i;
    }

    heap-add :
        (s : Accounts) (p : ℕ)
        → HasDistinctNames s
        → (db_add_account_encrypted b key s p).heap p ≡ encrypt_account b key (s.heap p)
    unfolding db_add_account_encrypted
    heap-add s p h =
        let s1 = store s p (encrypt_account b key (s.heap p)) in
        let h1 = store-HasDistinctNames s p (encrypt_account b key (s.heap p)) refl h in
        ap (λ (g : ℕ → Account). g p)
          (heap-replace_found s1 p h1 (account_db_find_value s1 (s1.heap p)))
        ∙ (unfold store in rw ((==_iff p p).1 refl))

    -- If the loaded accounts have distinct names, an account that has a name and valid or missing
    -- secrets, is added and then asked for by its name is found, and has all its fields, the secrets
    -- included, as before.
    pub db_get_account_decrypted_by_shortname-add :
        (s : Accounts) (p : ℕ) (n : Str)
        → HasDistinctNames s
        → (s.heap p).shortname ≡ some n
        → IsSecret (s.heap p).refresh_token
        → IsSecret (s.heap p).client_id
        → IsSecret (s.heap p).client_secret
        → ((db_get_account_decrypted_by_shortname b key
              (db_add_account_encrypted b key s p)
              (some n)).1
            ≡ some p)
          × ((db_get_account_decrypted_by_shortname b key
                  (db_add_account_encrypted b key s p)
                  (some n)).0.heap
                p
              ≡ s.heap p)
    unfolding db_get_account_decrypted_by_shortname
    db_get_account_decrypted_by_shortname-add s p n h e hr hi hs =
        let found : db_find_account_by_shortname (db_add_account_encrypted b key s p) (some n)
            ≡ some p =
          db_find_account_by_shortname-add s p n h
          ∙ ap (λ t. if t then some p else db_find_account_by_shortname s (some n))
              ((match_strings_iff (some n) (name s p)).1 (sym e)) in
        rw found (
          refl,
          rw ((==_iff p p).1 refl, heap-add s p h)
              (decrypt_account-encrypt_account (s.heap p) hr hi hs),
        )
