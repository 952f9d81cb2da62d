-- ===== src/Accounts/Examples.antt =====
-- Accounts in memory, and tests of their list.
use oidc_agent.Prelude.{
  ℕ, pos, ◌≡◌, ◌↔◌, refl, false, none, some, [], ◌∷◌, ◌==◌, In, arith, if◌then◌else◌,
}
use oidc_agent.Text.{Str, codes}
use oidc_agent.Crypt.Examples.{letters, letters-IsCoding}
use oidc_agent.Account.{Account, blank, account_match_by_name}
use oidc_agent.Accounts.{
  Accounts, db_add_account_encrypted, db_get_account_decrypted_by_shortname, get_death_account,
}
use oidc_agent.Accounts.Names.{HasDistinctNames}
use oidc_agent.Accounts.Lookup.{db_get_account_decrypted_by_shortname-add}
use oidc_agent.Accounts.Death.{remove_dead}
use oidc_agent.Accounts.Death.Complete.{is_dead, remove_dead_complete}

abbrev pub work : Str
work = codes "w"

-- A public client: it has no client secret.
abbrev pub account : ℕ → Account
account death = record blank {
  shortname = some work;
  issuer_url = some (codes "https://a/");
  refresh_token = some (codes "r");
  client_id = some (codes "c");
  death = pos death;
}

abbrev home : Account
home = record blank { shortname = some (codes "h"); death = pos 5 }

-- The account at 0 is not loaded yet, and one of its name is.
abbrev pub heap : ℕ → Account
heap p = if p == 1 then account 7 else if p == 2 then home else account 0

abbrev pub accounts : Accounts
accounts = record { heap = heap; loaded = 1 ∷ 2 ∷ []; match = account_match_by_name }

pub accounts-HasDistinctNames : HasDistinctNames accounts
accounts-HasDistinctNames = record {
  by_name = refl;
  distinct = ((λ e. ground arith, tt), (tt, tt));
}

db_get_account_decrypted_by_shortname-add_example :
    ((db_get_account_decrypted_by_shortname letters 77
        (db_add_account_encrypted letters 77 accounts 0)
        (some work)).1
      ≡ some 0)
    × ((db_get_account_decrypted_by_shortname letters 77
            (db_add_account_encrypted letters 77 accounts 0)
            (some work)).0.heap
          0
        ≡ heap 0)
db_get_account_decrypted_by_shortname-add_example =
    db_get_account_decrypted_by_shortname-add letters 77 letters-IsCoding accounts 0 work
      accounts-HasDistinctNames refl
      (unfold oidc_agent.Text.str_valid in refl, ((omega arith, omega arith), tt), omega arith)
      (unfold oidc_agent.Text.str_valid in refl, ((omega arith, omega arith), tt), omega arith) tt

remove_dead_complete_example :
    (t : Accounts) × (remove_dead 3 6 accounts ≡ some t)
    × (get_death_account t 6 ≡ none)
    × ((q : ℕ) → In q t.loaded ↔ (In q (1 ∷ 2 ∷ []) × (is_dead accounts 6 q ≡ false)))
    × HasDistinctNames t
remove_dead_complete_example =
    remove_dead_complete 3 6 accounts accounts-HasDistinctNames (omega arith)
