-- ===== src/Agent/Exchange/Examples.antt =====
-- An account that waits for the user, and tests of its end.
use oidc_agent.Prelude.{◌≡◌, refl, none, some, [], ◌∷◌, arith}
use oidc_agent.Text.{Str, codes, strequal}
use oidc_agent.Crypt.Memory.{c_string}
use oidc_agent.Uri.{code_state_from_uri, cut_first}
use oidc_agent.Text.Tokens.{strtok}
use oidc_agent.Crypt.Examples.{letters}
use oidc_agent.Agent.{Agent, success}
use oidc_agent.Agent.Examples.{world, agent, agent-Inv}
use oidc_agent.Agent.Sealed.{Inv}
use oidc_agent.Agent.Exchange.{oidcd_handle_code_exchange}
use oidc_agent.Agent.Exchange.Aside.{AllAside}
use oidc_agent.Agent.Exchange.Once.{Once, DistinctStates, oidcd_handle_code_exchange-Once}

-- The account at 1 waits for a code.
abbrev pub waiting : Agent
waiting = record agent {
  fresh = 2;
  codes = record { state = some (codes "1:0"); account = some 1; code_verifier = none } ∷ [];
}

pub waiting-Inv : Inv letters 77 waiting
waiting-Inv = record { sealed = agent-Inv.sealed; bounded = (omega arith, tt) }

pub waiting-AllAside : AllAside letters 77 waiting
waiting-AllAside = record { codes = ((((λ e. ground arith), tt), omega arith), tt); devices = tt }

waiting_distinct : DistinctStates waiting.codes
waiting_distinct = ((λ e. cc), tt, tt)

abbrev redirected : Str
redirected = codes "http://a?code=code&state=1:0"

redirected_state : (code_state_from_uri (some redirected)).0.state ≡ some (codes "1:0")
unfolding code_state_from_uri strequal c_string cut_first strtok
redirected_state = refl

oidcd_handle_code_exchange-Once_example :
    Once letters 77
      (world success)
      waiting
      (codes "1:0")
      waiting_distinct
      (oidcd_handle_code_exchange letters 77 (world success) waiting (some redirected) none)
oidcd_handle_code_exchange-Once_example =
    oidcd_handle_code_exchange-Once letters 77 (world success) waiting (codes "1:0")
      waiting_distinct redirected none redirected_state
