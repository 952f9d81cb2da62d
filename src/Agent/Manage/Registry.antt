-- ===== src/Agent/Manage/Registry.antt =====
-- The list of loaded accounts as a map from names to accounts, which forgets the order of the list.
use oidc_agent.Prelude.{
  ℕ, ◌≡◌, refl, ap, ◌∙◌, inl, inr, Option, none, some, List, [], ◌∷◌, if◌then◌else◌, Bool-cases,
}
use oidc_agent.Text.{Str}
use oidc_agent.Crypt.Memory.{Base64}
use oidc_agent.Account.{Account, match_strings}
use oidc_agent.Accounts.{
  Accounts, store, encrypt_account, account_db_find_value, account_db_remove_if_found,
  account_db_reset, db_add_account_encrypted, db_find_account_by_shortname,
}
use oidc_agent.Accounts.Distinct.{match_strings_iff}
use oidc_agent.Accounts.Names.{
  name, HasDistinctNames, account_db_remove_if_found-absent, heap-replace_found,
}
use oidc_agent.Accounts.Lookup.{
  name-store, store-HasDistinctNames, db_add_account_encrypted-HasDistinctNames,
  db_find_account_by_shortname-add,
}
use oidc_agent.Agent.Manage.{key_of}
use oidc_agent.Agent.Manage.Removal.{find-other}

-- What the handlers do to the list: an account is added or encrypted again, a name is taken out, or all.
pub data Command : Type 0 where
  add : ℕ → Command
  remove : Str → Command
  remove_all : Command

-- The abstract map.
abbrev pub Registry : Type 0
Registry = Str → Option ℕ

-- `names` gives the name of each account.
unfoldable pub spec : (ℕ → Option Str) → Command → Registry → Registry
spec names (add p) m = λ n. if match_strings (some n) (names p) then some p else m n
spec names (remove k) m = λ n. if match_strings (some n) (some k) then none else m n
spec names remove_all m = λ n. none

unfoldable pub specs : (ℕ → Option Str) → List Command → Registry → Registry
unfolding spec
specs names [] m = m
specs names (c ∷ l) m = specs names l (spec names c m)

module _ (b : Base64) (key : ℕ) where
  unfoldable pub step : Command → Accounts → Accounts
  step (add p) s = db_add_account_encrypted b key s p
  step (remove n) s = account_db_remove_if_found s (key_of n)
  step remove_all s = account_db_reset s

  unfoldable pub steps : List Command → Accounts → Accounts
  unfolding step
  steps [] s = s
  steps (c ∷ l) s = steps l (step c s)

  -- The list `s` stands for the map `m`.
  pub record Implements (names : ℕ → Option Str) (s : Accounts) (m : Registry) : Type 0 where
    pub distinct : HasDistinctNames s
    pub named : name s ≡ names
    pub found : (n : Str) → db_find_account_by_shortname s (some n) ≡ m n

  add-name :
      (s : Accounts) (p : ℕ)
      → HasDistinctNames s
      → name (db_add_account_encrypted b key s p) ≡ name s
  unfolding db_add_account_encrypted
  add-name s p d =
      let s1 = store s p (encrypt_account b key (s.heap p)) in
      let d1 = store-HasDistinctNames s p (encrypt_account b key (s.heap p)) refl d in
      ap {B = ℕ → Option Str} (λ (g : ℕ → Account) (q : ℕ). (g q).shortname)
        (heap-replace_found s1 p d1 (account_db_find_value s1 (s1.heap p)))
      ∙ name-store s p (encrypt_account b key (s.heap p)) refl

  remove-found :
      (s : Accounts) (k n : Str)
      → HasDistinctNames s
      → db_find_account_by_shortname (account_db_remove_if_found s (key_of k)) (some n) ≡ (
          if match_strings (some n) (some k) then none else db_find_account_by_shortname s (some n))
  unfolding db_find_account_by_shortname
  remove-found s k n d = elim (Bool-cases (match_strings (some n) (some k))) [
    | inl e ↦
        rw (e, some_same n k ((match_strings_iff (some n) (some k)).0 e))
          ((account_db_remove_if_found-absent s (key_of k) d).1)
    | inr e ↦
        rw (e) (find-other s (key_of k) n d (λ q. cc ((match_strings_iff (some n) (some k)).1 q)))
  ]
    where
      some_same : (x y : Str) → some x ≡ some y → x ≡ y
      some_same x y e = cc

  step-Implements :
      (names : ℕ → Option Str) (c : Command) (s : Accounts) (m : Registry)
      → Implements names s m
      → Implements names (step c s) (spec names c m)
  unfolding step spec account_db_remove_if_found account_db_reset db_find_account_by_shortname
      account_db_find_value
  step-Implements names (add p) s m h = record {
    distinct = db_add_account_encrypted-HasDistinctNames b key s p h.distinct;
    named = add-name s p h.distinct ∙ h.named;
    found = λ n.
        db_find_account_by_shortname-add b key s p n h.distinct
        ∙ ap
            (λ f.
              if match_strings (some n) (f p)
              then some p
              else db_find_account_by_shortname s (some n))
            h.named
        ∙ ap (λ x. if match_strings (some n) (names p) then some p else x) (h.found n);
  }
  step-Implements names (remove k) s m h = record {
    distinct = (account_db_remove_if_found-absent s (key_of k) h.distinct).0;
    named = h.named;
    found = λ n.
        remove-found s k n h.distinct
        ∙ ap (λ x. if match_strings (some n) (some k) then none else x) (h.found n);
  }
  step-Implements names remove_all s m h = record {
    distinct = record { by_name = h.distinct.by_name; distinct = tt };
    named = h.named;
    found = λ n. refl;
  }

  steps-Implements :
      (names : ℕ → Option Str) (l : List Command) (s : Accounts) (m : Registry)
      → Implements names s m
      → Implements names (steps l s) (specs names l m)
  unfolding steps specs
  steps-Implements names [] s m h = h
  steps-Implements names (c ∷ l) s m h =
      steps-Implements names l (step c s) (spec names c m) (step-Implements names c s m h)

  -- If the loaded accounts have distinct names, then after any run of additions and removals a search
  -- by name finds what the same run on a map from names to accounts leaves there, from the map that the
  -- list stands for at the start.
  pub steps-specs :
      (l : List Command) (s : Accounts)
      → HasDistinctNames s
      → (n : Str)
      → db_find_account_by_shortname (steps l s) (some n)
        ≡ specs (name s) l (λ k. db_find_account_by_shortname s (some k)) n
  steps-specs l s d n =
      (steps-Implements (name s) l s (λ k. db_find_account_by_shortname s (some k))
          (record { distinct = d; named = refl; found = λ k. refl })).found
        n
