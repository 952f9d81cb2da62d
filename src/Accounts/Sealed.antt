-- ===== src/Accounts/Sealed.antt =====
-- Which of the loaded accounts hold their secrets encrypted in memory.
use oidc_agent.Prelude.{
  ℕ, ◌<◌, ◌≡◌, refl, ◌⊎◌, inl, inr, Option, none, some, List, [], ◌∷◌, ◌==◌, ==_iff, arith, All,
  All-append, All-imp, Bool-cases, All-remove_first,
}
use oidc_agent.Text.{Str}
use oidc_agent.Crypt.Memory.{Base64, memory_encrypt}
use oidc_agent.Account.{Account}
use oidc_agent.Accounts.{
  Accounts, store, encrypt_account, db_add_account_encrypted, replace_found,
  account_db_remove_if_found,
}

-- Every pointer of the list was handed out: it is below `fresh`, the next one. It may have been freed
-- since.
abbrev pub Below : ℕ → List ℕ → Type 0
Below fresh = All (λ q. q < fresh)

module _ (b : Base64) (key : ℕ) where
  -- The three secrets that are kept encrypted are results of the memory encryption.
  pub record IsSealed (a : Account) : Type 0 where
    pub refresh : (x : Option Str) × (a.refresh_token ≡ memory_encrypt b key x)
    pub id : (x : Option Str) × (a.client_id ≡ memory_encrypt b key x)
    pub secret : (x : Option Str) × (a.client_secret ≡ memory_encrypt b key x)

  abbrev pub AllSealed : Accounts → Type 0
  AllSealed s = All (λ q. IsSealed (s.heap q)) s.loaded

  -- All loaded accounts but perhaps the one at `p`, which a request is working on.
  abbrev pub SealedBut : Accounts → ℕ → Type 0
  SealedBut s p = All (λ q. (q ≡ p) ⊎ IsSealed (s.heap q)) s.loaded

  pub AllSealed-SealedBut : (s : Accounts) (p : ℕ) → AllSealed s → SealedBut s p
  AllSealed-SealedBut s p h = All-imp s.loaded (λ q k. inr k) h

  pub store-SealedBut :
      (s : Accounts) (p : ℕ) (a : Account) → SealedBut s p → SealedBut (store s p a) p
  unfolding store
  store-SealedBut s p a h = All-imp s.loaded at h
    where
      at : (q : ℕ) → (q ≡ p) ⊎ IsSealed (s.heap q) → (q ≡ p) ⊎ IsSealed ((store s p a).heap q)
      at q (inl e) = inl e
      at q (inr k) = elim (Bool-cases (q == p)) [
        | inl same ↦ inl ((==_iff q p).0 same)
        | inr other ↦ inr (rw (other, store) k)
      ]

  pub encrypt_account-IsSealed : (a : Account) → IsSealed (encrypt_account b key a)
  unfolding encrypt_account
  encrypt_account-IsSealed a = record {
    refresh = (a.refresh_token, refl);
    id = (a.client_id, refl);
    secret = (a.client_secret, refl);
  }

  store_seals :
      (s : Accounts) (p : ℕ) (a : Account)
      → IsSealed a
      → SealedBut s p
      → AllSealed (store s p a) × IsSealed ((store s p a).heap p)
  unfolding store
  store_seals s p a k h = (All-imp s.loaded at h, rw ((==_iff p p).1 refl) k)
    where
      at : (q : ℕ) → (q ≡ p) ⊎ IsSealed (s.heap q) → IsSealed ((store s p a).heap q)
      at q d = elim (Bool-cases (q == p)) [
        | inl same ↦ rw (same, store) k
        | inr other ↦ elim d [ inl e ↦ cc ((==_iff q p).1 e) | inr j ↦ rw (other, store) j ]
      ]

  pub remove_if_found-AllSealed :
      (s : Accounts) (a : Account) → AllSealed s → AllSealed (account_db_remove_if_found s a)
  unfolding account_db_remove_if_found
  remove_if_found-AllSealed s a h = All-remove_first (λ q. IsSealed (s.heap q)) _ s.loaded h

  replace_found-AllSealed :
      (s : Accounts) (p : ℕ) (found : Option ℕ)
      → AllSealed s
      → IsSealed (s.heap p)
      → AllSealed (replace_found s p found)
  unfolding replace_found
  replace_found-AllSealed s p none h k =
      All-append (λ q. IsSealed (s.heap q)) s.loaded (p ∷ []) h (k, tt)
  replace_found-AllSealed s p (some q) h k = elim (Bool-cases (q == p)) [
    | inl same ↦ rw (same, replace_found) h
    | inr other ↦
        rw (other, replace_found)
          (All-append (λ r. IsSealed (s.heap r)) _ (p ∷ [])
            (remove_if_found-AllSealed s (s.heap p) h) (k, tt))
  ]

  -- Re-encryption seals the account that a request worked on.
  pub db_add_account_encrypted-AllSealed :
      (s : Accounts) (p : ℕ) → SealedBut s p → AllSealed (db_add_account_encrypted b key s p)
  unfolding db_add_account_encrypted
  db_add_account_encrypted-AllSealed s p h =
      let (all, this) =
        store_seals s p (encrypt_account b key (s.heap p)) (encrypt_account-IsSealed (s.heap p))
          h in
      replace_found-AllSealed (store s p (encrypt_account b key (s.heap p))) p _ all this

  -- An account that is not loaded cannot be the exception.
  pub absent-AllSealed : (s : Accounts) (p : ℕ) → Below p s.loaded → SealedBut s p → AllSealed s
  absent-AllSealed s p = go s.loaded
    where
      go :
          (l : List ℕ)
          → Below p l
          → All (λ q. (q ≡ p) ⊎ IsSealed (s.heap q)) l
          → All (λ q. IsSealed (s.heap q)) l
      go [] h k = tt
      go (q ∷ l) h k = (elim k.0 [ inl e ↦ absurd (omega arith) | inr j ↦ j ], go l h.1 k.1)

  replace_found-Below :
      (s : Accounts) (p fresh : ℕ) (found : Option ℕ)
      → p < fresh
      → Below fresh s.loaded
      → Below fresh (replace_found s p found).loaded
  unfolding replace_found
  replace_found-Below s p fresh none k h = All-append (λ q. q < fresh) s.loaded (p ∷ []) h (k, tt)
  replace_found-Below s p fresh (some q) k h = elim (Bool-cases (q == p)) [
    | inl same ↦ rw (same, replace_found) h
    | inr other ↦
        rw (other, replace_found)
          (All-append (λ q. q < fresh) _ (p ∷ []) (All-remove_first (λ q. q < fresh) _ s.loaded h)
            (k, tt))
  ]

  pub db_add_account_encrypted-Below :
      (s : Accounts) (p fresh : ℕ)
      → p < fresh
      → Below fresh s.loaded
      → Below fresh (db_add_account_encrypted b key s p).loaded
  unfolding db_add_account_encrypted store
  db_add_account_encrypted-Below s p fresh k h =
      replace_found-Below (store s p (encrypt_account b key (s.heap p))) p fresh _ k h
