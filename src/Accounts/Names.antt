-- ===== src/Accounts/Names.antt =====
-- The loaded accounts as a map from names: no two have the same name, and an addition replaces.
use mathlib.Core.Path.{ap₂}
use oidc_agent.Prelude.{
  ℕ, ◌≡◌, refl, ap, ◌∙◌, inl, inr, true, false, Option, none, some, ◌∷◌, [], ◌++◌, ◌==◌, ==_iff,
  find_first, remove_first, if◌then◌else◌, Bool-cases,
}
use oidc_agent.Text.{Str}
use oidc_agent.Account.{Account, account_match_by_name}
use oidc_agent.Accounts.{Accounts, account_db_find_value, account_db_remove_if_found, replace_found}
use oidc_agent.Accounts.Distinct.{
  match_strings_iff, Distinct, named, or_last, or_last_fails, Distinct-remove_first,
  Distinct-append, remove_first-absent, find_none, find_absent, find-append, find-remove_ne,
}

abbrev pub name : Accounts → ℕ → Option Str
name s p = (s.heap p).shortname

-- The list is searched by name, and no two loaded accounts have the same name.
pub record HasDistinctNames (s : Accounts) : Type 0 where
  pub by_name : s.match ≡ account_match_by_name
  pub distinct : Distinct (name s) s.loaded

-- A search by a key under the match by name looks at the names only.
pub find-name :
    (s : Accounts) (key : Account)
    → s.match ≡ account_match_by_name
    → account_db_find_value s key ≡ find_first (named (name s) key.shortname) s.loaded
unfolding account_db_find_value account_match_by_name
find-name s key e = rw e

pub remove-name :
    (s : Accounts) (key : Account)
    → s.match ≡ account_match_by_name
    → (account_db_remove_if_found s key).loaded
      ≡ remove_first (named (name s) key.shortname) s.loaded
unfolding account_db_remove_if_found account_match_by_name
remove-name s key e = rw e

-- If the loaded accounts have distinct names, removing by a key keeps them so and leaves no account of
-- the name of the key.
pub account_db_remove_if_found-absent :
    (s : Accounts) (key : Account)
    → HasDistinctNames s
    → HasDistinctNames (account_db_remove_if_found s key)
      × (account_db_find_value (account_db_remove_if_found s key) key ≡ none)
unfolding account_db_remove_if_found account_db_find_value account_match_by_name
account_db_remove_if_found-absent s key h = (
  record { by_name = h.by_name; distinct = Distinct-remove_first (name s) _ s.loaded h.distinct },
  rw (h.by_name) (
      find_absent (name s) key.shortname _
        (remove_first-absent (name s) key.shortname s.loaded h.distinct)),
)

module _ (s : Accounts) (p : ℕ) (h : HasDistinctNames s) where
  pub replace_found-HasDistinctNames :
      (found : Option ℕ)
      → find_first (named (name s) (name s p)) s.loaded ≡ found
      → HasDistinctNames (replace_found s p found)
  unfolding replace_found account_match_by_name
  replace_found-HasDistinctNames none e = record {
    by_name = h.by_name;
    distinct =
        Distinct-append (name s) s.loaded p h.distinct (find_none (name s) (name s p) s.loaded e);
  }
  replace_found-HasDistinctNames (some q) e = elim (Bool-cases (q == p)) [
    | inl same ↦ rw (same, replace_found) h
    | inr other ↦
        rw (other, replace_found)
          (record {
            by_name = h.by_name;
            distinct = rw (h.by_name) (
                Distinct-append (name s) _ p (Distinct-remove_first (name s) _ s.loaded h.distinct)
                  (remove_first-absent (name s) (name s p) s.loaded h.distinct));
          })
  ]

  loaded_none : (replace_found s p none).loaded ≡ s.loaded ++ p ∷ []
  unfolding replace_found
  loaded_none = refl

  loaded_same : (q : ℕ) → (q == p) ≡ true → (replace_found s p (some q)).loaded ≡ s.loaded
  unfolding replace_found
  loaded_same q e = rw e

  loaded_other :
      (q : ℕ)
      → (q == p) ≡ false
      → (replace_found s p (some q)).loaded
        ≡ remove_first (named (name s) (name s p)) s.loaded ++ p ∷ []
  unfolding replace_found account_match_by_name
  loaded_other q e = rw (e, h.by_name)

  find_this :
      (n : Option Str)
      → n ≡ name s p
      → (found : Option ℕ) → find_first (named (name s) (name s p)) s.loaded ≡ found
      → find_first (named (name s) n) (replace_found s p found).loaded ≡ some p
  find_this n k none e =
      ap (find_first (named (name s) n)) loaded_none
      ∙ find-append (name s) n s.loaded p
      ∙ ap₂ (λ o t. or_last o t p) (ap (λ m. find_first (named (name s) m) s.loaded) k ∙ e)
          ((match_strings_iff n (name s p)).1 k)
  find_this n k (some q) e = elim (Bool-cases (q == p)) [
    | inl same ↦
        ap (find_first (named (name s) n)) (loaded_same q same)
        ∙ ap (λ m. find_first (named (name s) m) s.loaded) k
        ∙ e
        ∙ ap some ((==_iff q p).0 same)
    | inr other ↦
        ap (find_first (named (name s) n)) (loaded_other q other)
        ∙ find-append (name s) n (remove_first (named (name s) (name s p)) s.loaded) p
        ∙ ap₂ (λ o t. or_last o t p)
            (ap
                (λ m.
                  find_first (named (name s) m) (remove_first (named (name s) (name s p)) s.loaded))
                k
              ∙ find_absent (name s) (name s p) _
                  (remove_first-absent (name s) (name s p) s.loaded h.distinct))
            ((match_strings_iff n (name s p)).1 k)
  ]

  find_others :
      (n : Option Str)
      → named (name s) n p ≡ false
      → (found : Option ℕ)
      → find_first (named (name s) n) (replace_found s p found).loaded
        ≡ find_first (named (name s) n) s.loaded
  find_others n k none =
      ap (find_first (named (name s) n)) loaded_none
      ∙ find-append (name s) n s.loaded p
      ∙ ap (λ t. or_last (find_first (named (name s) n) s.loaded) t p) k
      ∙ or_last_fails _ p
  find_others n k (some q) = elim (Bool-cases (q == p)) [
    | inl same ↦ ap (find_first (named (name s) n)) (loaded_same q same)
    | inr other ↦
        ap (find_first (named (name s) n)) (loaded_other q other)
        ∙ find-append (name s) n (remove_first (named (name s) (name s p)) s.loaded) p
        ∙ ap
            (λ t.
              or_last
                (find_first (named (name s) n) (remove_first (named (name s) (name s p)) s.loaded))
                t p)
            k
        ∙ or_last_fails _ p
        ∙ find-remove_ne (name s) n (name s p) s.loaded
            (λ e. cc ((match_strings_iff n (name s p)).1 e))
  ]

  pub heap-replace_found : (found : Option ℕ) → (replace_found s p found).heap ≡ s.heap
  unfolding replace_found
  heap-replace_found none = refl
  heap-replace_found (some q) = elim (Bool-cases (q == p)) [
    | inl same ↦ rw (same, replace_found)
    | inr other ↦ rw (other, replace_found)
  ]

  -- After the replacement the name of `p` leads to `p`, and every other name leads where it led.
  pub find-replace_found :
      (n : Option Str) (found : Option ℕ)
      → find_first (named (name s) (name s p)) s.loaded ≡ found
      → find_first (named (name s) n) (replace_found s p found).loaded
        ≡ (if named (name s) n p then some p else find_first (named (name s) n) s.loaded)
  find-replace_found n found e = elim (Bool-cases (named (name s) n p)) [
    | inl same ↦ rw same (find_this n ((match_strings_iff n (name s p)).0 same) found e)
    | inr other ↦ rw other (find_others n other found)
  ]
