-- ===== src/Daemon/Examples.antt =====
-- A daemon, and tests of its main loop.
use oidc_agent.Prelude.{ℕ, ◌≡◌, refl, true, false, none, some, List, [], ◌∷◌, length}
use oidc_agent.Text.{Str, codes}
use oidc_agent.Crypt.Examples.{letters}
use oidc_agent.Agent.{World, success}
use oidc_agent.Agent.Examples.{world, careful}
use oidc_agent.Agent.Exchange.Examples.{waiting, waiting-Inv, waiting-AllAside}
use oidc_agent.Accounts.Names.{HasDistinctNames}
use oidc_agent.Lock.{PasswordCrypt}
use oidc_agent.Daemon.{Query, Daemon, turn, turns}
use oidc_agent.Daemon.Locked.{Untouched, turns-locked}
use oidc_agent.Daemon.Sealed.{Keeps, turn-Inv}

abbrev cipher : PasswordCrypt
cipher = record {
  encrypt = λ r text password. some text;
  decrypt = λ text password. some text;
  s256 = λ password. some password;
}

abbrev query : Str → Query
query request = record {
  request = some request;
  shortname = some (codes "w");
  minvalid = none;
  config = none;
  flow = none;
  nowebserver = none;
  redirected_uri = some (codes "http://a");
  state = none;
  authorization = none;
  scope = none;
  device = none;
  from_gen = none;
  lifetime = none;
  password = none;
  application_hint = none;
  confirm = none;
  issuer = none;
  noscheme = none;
  cert_path = none;
  audience = none;
  alwaysallowid = none;
  filename = none;
  data_value = none;
  registration_client_uri = none;
  registration_access_token = none;
  only_at = none;
  config_endpoint = none;
  profile = none;
  plainadd = none;
}

abbrev daemon : Daemon
daemon = record {
  agent = waiting;
  locked = false;
  hash = none;
  fail_count = 0;
  delay = 0;
  files = [];
}

abbrev no_choice : ℕ → ℕ → ℕ
no_choice p n = 0

waiting-HasDistinctNames : HasDistinctNames waiting.accounts
waiting-HasDistinctNames = record { by_name = refl; distinct = (tt, tt) }

turn-Inv_example :
    Keeps letters 77 cipher no_choice careful
      (world success)
      (λ name issuer hint. refl)
      (turn letters 77 cipher no_choice careful
        (world success)
        daemon
        (query (codes "code_exchange")))
unfolding oidc_agent.Text.strequal
turn-Inv_example =
    turn-Inv letters 77 cipher no_choice careful (world success) (λ name issuer hint. refl) daemon
      (query (codes "code_exchange")) waiting-Inv waiting-AllAside waiting-HasDistinctNames refl
      refl refl

abbrev locked_daemon : Daemon
locked_daemon = record daemon { locked = true; hash = some (codes "pw") }

abbrev requests : List (World × Query)
requests =
    (world success, query (codes "access_token")) ∷ (world success, query (codes "check")) ∷ []

turns-locked_example :
    (h : Daemon) × (turns letters 77 cipher no_choice careful locked_daemon requests ≡ some h)
    × Untouched (length requests) locked_daemon h
unfolding oidc_agent.Text.strequal
turns-locked_example =
    turns-locked letters 77 cipher no_choice careful locked_daemon requests refl (refl, (refl, tt))
