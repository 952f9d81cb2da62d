-- ===== src/Accounts/Death.antt =====
-- The removal of accounts whose lifetime is over, which the main loop of src/oidc-agent/oidcd/oidcd.c
-- makes when it wakes up: `while ((death = getDeathAccount()) != NULL) accountDB_removeIfFound(death);`
pub mod Complete
use oidc_agent.Prelude.{ℕ, zero, suc, Option, none, some}
use oidc_agent.Accounts.{Accounts, get_death_account, account_db_remove_if_found}

-- With fuel; `none` means that it ran out.
pub remove_dead : ℕ → ℕ → Accounts → Option Accounts
unfolding get_death_account account_db_remove_if_found
remove_dead zero now s = none
remove_dead (suc fuel) now s = elim (get_death_account s now) [
  | none ↦ some s
  | some p ↦ remove_dead fuel now (account_db_remove_if_found s (s.heap p))
]
