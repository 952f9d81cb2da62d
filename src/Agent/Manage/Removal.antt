-- ===== src/Agent/Manage/Removal.antt =====
-- What is left after a removal.
use oidc_agent.Prelude.{
  ap, ◌≡◌, ◌≢◌, refl, ◌⊎◌, inl, inr, Option, none, some, ◌++◌, [], ◌∷◌, Option-cases, find_first,
  ◌∙◌, sym, ℕ,
}
use oidc_agent.Text.{Str, codes}
use oidc_agent.Account.{Account}
use oidc_agent.Accounts.{
  Accounts, account_db_find_value, account_db_remove_if_found, db_find_account_by_shortname,
}
use oidc_agent.Accounts.Distinct.{named, find-remove_ne}
use oidc_agent.Accounts.Names.{
  name, HasDistinctNames, find-name, remove-name, account_db_remove_if_found-absent,
}
use oidc_agent.Agent.{
  Agent, World, OidcError, success, response_success, response_error, update_issuer, Message, send,
  with_accounts,
}
use oidc_agent.Agent.Load.{account_not_loaded}
use oidc_agent.Agent.Manage.{
  oidcd_handle_rm, key_of, oidcd_handle_delete, delete_parsed, configured, revoked,
}

-- The answer to a removal.
abbrev pub rm_answer : Option ℕ → Message
rm_answer none = response_error account_not_loaded
rm_answer (some p) = response_success

-- Another name leads where it led.
pub find-other :
    (s : Accounts) (key : Account) (m : Str)
    → HasDistinctNames s
    → some m ≢ key.shortname
    → db_find_account_by_shortname (account_db_remove_if_found s key) (some m)
      ≡ db_find_account_by_shortname s (some m)
unfolding db_find_account_by_shortname account_db_remove_if_found
find-other s key m h ne =
    find-name (account_db_remove_if_found s key) (key_of m) h.by_name
    ∙ kept
    ∙ sym (find-name s (key_of m) h.by_name)
  where
    kept :
        find_first (named (name s) (some m)) (account_db_remove_if_found s key).loaded
        ≡ find_first (named (name s) (some m)) s.loaded
    kept =
        rw (remove-name s key h.by_name)
          (find-remove_ne (name s) (some m) key.shortname s.loaded ne)

-- If the loaded accounts have distinct names, then after a request to remove an account none of that
-- name is loaded, every other name leads where it led, and the answer says whether there was one.
pub oidcd_handle_rm-removes :
    (g : Agent) (n : Str)
    → HasDistinctNames g.accounts
    → let after = oidcd_handle_rm g (some n) in
      (db_find_account_by_shortname after.accounts (some n) ≡ none)
      × ((m : Str)
          → m ≢ n
          → db_find_account_by_shortname after.accounts (some m)
            ≡ db_find_account_by_shortname g.accounts (some m))
      × (after.sent ≡ g.sent ++ rm_answer (db_find_account_by_shortname g.accounts (some n)) ∷ [])
      × HasDistinctNames after.accounts
unfolding oidcd_handle_rm db_find_account_by_shortname send with_accounts
oidcd_handle_rm-removes g n h = elim (Option-cases (account_db_find_value g.accounts (key_of n))) [
  | inl e ↦ rw (e, oidcd_handle_rm) (e, λ m ne. refl, refl, h)
  | inr (p, e) ↦
      let (names, gone) = account_db_remove_if_found-absent g.accounts (key_of n) h in
      rw (e, oidcd_handle_rm)
        (gone, λ m ne. find-other g.accounts (key_of n) m h (λ q. ne cc), refl, names)
]

-- What lets a request to delete an account go through to the end: the account is read from the text of
-- the request, its issuer's configuration is got, which gives `a`, and the token of `a` is revoked.
pub record Deletes (w : World) (account_json : Option Str) (a : Account) : Type 0 where
  pub parsed : Account
  pub read : (w.get_account_from_json account_json).1 ≡ some parsed
  pub configured : w.obtain_issuer_config parsed ≡ (a, success)
  pub revoked : w.revoke_token a ≡ success

-- The account `a` was deleted from `g`, which gave `h`.
pub record Deleted (a : Account) (g h : Agent) : Type 0 where
  pub gone : account_db_find_value h.accounts a ≡ none
  pub others :
      (m : Str)
      → some m ≢ a.shortname
      → db_find_account_by_shortname h.accounts (some m)
        ≡ db_find_account_by_shortname g.accounts (some m)
  pub names : HasDistinctNames h.accounts
  pub answered :
      h.sent
      ≡ g.sent
        ++ update_issuer a.issuer_url a.shortname (codes "remove") ∷ []
        ++ response_success ∷ []

revoked-Deleted :
    (w : World) (g : Agent) (a : Account)
    → HasDistinctNames g.accounts
    → Deleted a g (revoked w g a success)
unfolding revoked send with_accounts
revoked-Deleted w g a h =
    let (names, gone) = account_db_remove_if_found-absent g.accounts a h in
    record {
      gone = gone;
      others = λ m ne. find-other g.accounts a m h ne;
      names = names;
      answered = refl;
    }

-- One request to delete: all went well and the account was deleted, or the accounts are as they were.
abbrev pub DeleteOutcome : World → Option Str → Agent → Agent → Type 0
DeleteOutcome w json g h =
    ((a : Account) × Deletes w json a × Deleted a g h)
    ⊎ ((h.accounts ≡ g.accounts) × ((a : Account) → ¬ Deletes w json a))

module _ (w : World) (json : Option Str) (g : Agent) (h : HasDistinctNames g.accounts) where
  configured_only :
      (x b : Account)
      → (w.get_account_from_json json).1 ≡ some x
      → Deletes w json b
      → w.obtain_issuer_config x ≡ (b, success)
  configured_only x b p d =
      let same : d.parsed ≡ x = cc (d.read) in ap w.obtain_issuer_config (sym same) ∙ d.configured

  revoked_only :
      (x a b : Account)
      → (w.get_account_from_json json).1 ≡ some x
      → w.obtain_issuer_config x ≡ (a, success)
      → Deletes w json b
      → w.revoke_token a ≡ success
  revoked_only x a b p c d =
      let same = ap (λ (r : Account × OidcError). r.0) (sym c ∙ configured_only x b p d) in
      ap w.revoke_token same ∙ d.revoked

  revoked_outcome :
      (x a : Account)
      → (w.get_account_from_json json).1 ≡ some x
      → w.obtain_issuer_config x ≡ (a, success)
      → (e : OidcError) → w.revoke_token a ≡ e
      → DeleteOutcome w json g (revoked w g a e)
  unfolding revoked
  revoked_outcome x a p c success v =
      inl (a, record { parsed = x; read = p; configured = c; revoked = v }, revoked-Deleted w g a h)
  revoked_outcome x a p c _ v = inr (refl, λ b d. cc (revoked_only x a b p c d))

  configured_outcome :
      (x : Account)
      → (w.get_account_from_json json).1 ≡ some x
      → (r : Account × OidcError) → w.obtain_issuer_config x ≡ r
      → DeleteOutcome w json g (configured w g r)
  unfolding configured
  configured_outcome x p (a, success) c = revoked_outcome x a p c (w.revoke_token a) refl
  configured_outcome x p (a, _) c =
      inr (refl, λ b d. cc (ap (λ (r : Account × OidcError). r.1) (configured_only x b p d), c))

  parsed_outcome :
      (r : OidcError × Option Account)
      → w.get_account_from_json json ≡ r
      → DeleteOutcome w json g (delete_parsed w g r)
  unfolding delete_parsed
  parsed_outcome (e, none) p = inr (refl, λ a d. cc (d.read, p))
  parsed_outcome (e, some x) p =
      configured_outcome x (ap (λ (r : OidcError × Option Account). r.1) p)
        (w.obtain_issuer_config x) refl

  -- If the loaded accounts have distinct names, a request to delete an account has one of two
  -- outcomes. Either the account was read from the request, its issuer's configuration was got and
  -- its token revoked; then no account of its name is loaded, every other name leads where it led,
  -- the names are distinct, and oidcp is told to forget the account before success is reported. Or
  -- one of the three failed; then the loaded accounts are as they were.
  pub oidcd_handle_delete_outcome : DeleteOutcome w json g (oidcd_handle_delete w g json)
  unfolding oidcd_handle_delete
  oidcd_handle_delete_outcome = parsed_outcome (w.get_account_from_json json) refl
