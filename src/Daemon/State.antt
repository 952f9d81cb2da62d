-- ===== src/Daemon/State.antt =====
-- src/oidc-agent/oidcd/oidcd.c and src/oidc-agent/agent_state.h: the state of the daemon, its requests, and
-- the answers that need no handler.
use oidc_agent.Prelude.{ℕ, Bool, Option, none, some, List}
use oidc_agent.Text.{Str, strequal}
use oidc_agent.Agent.{
  Agent, World, OidcError, Message, response_success_info, send, with_accounts, fail,
  write_oidc_errno,
}
use oidc_agent.Files.{FileDummy}
use oidc_agent.Lock.{Outcome, Agent as LockState}

-- The key values of a request.
pub record Query : Type 0 where
  pub request : Option Str
  pub shortname : Option Str
  pub minvalid : Option Str
  pub config : Option Str
  pub flow : Option Str
  pub nowebserver : Option Str
  pub redirected_uri : Option Str
  pub state : Option Str
  pub authorization : Option Str
  pub scope : Option Str
  pub device : Option Str
  pub from_gen : Option Str
  pub lifetime : Option Str
  pub password : Option Str
  pub application_hint : Option Str
  pub confirm : Option Str
  pub issuer : Option Str
  pub noscheme : Option Str
  pub cert_path : Option Str
  pub audience : Option Str
  pub alwaysallowid : Option Str
  pub filename : Option Str
  pub data_value : Option Str
  pub registration_client_uri : Option Str
  pub registration_access_token : Option Str
  pub only_at : Option Str
  pub config_endpoint : Option Str
  pub profile : Option Str
  pub plainadd : Option Str

-- The state of the daemon: the handlers' state, the lock and the files.
pub record Daemon : Type 0 where
  pub agent : Agent
  pub locked : Bool
  pub hash : Option Str
  pub fail_count : ℕ
  pub delay : ℕ
  pub files : List FileDummy

unfoldable pub lock_state : Daemon → LockState
lock_state d = record {
  accounts = d.agent.accounts;
  locked = d.locked;
  hash = d.hash;
  fail_count = d.fail_count;
  delay = d.delay;
}

unfoldable pub with_lock_state : Daemon → LockState → Daemon
unfolding with_accounts
with_lock_state d l = record d {
  agent = with_accounts d.agent l.accounts;
  locked = l.locked;
  hash = l.hash;
  fail_count = l.fail_count;
  delay = l.delay;
}

abbrev pub with_agent : Daemon → Agent → Daemon
with_agent d g = record d { agent = g }

-- What a request that is refused or answered at once leaves.
unfoldable pub refuse : Daemon → OidcError → Daemon
unfolding write_oidc_errno fail
refuse d e = with_agent d (write_oidc_errno (fail d.agent e))

unfoldable pub answer : Daemon → Message → Daemon
unfolding send
answer d m = with_agent d (send d.agent m)

-- The code that `lock` or `unlock` sets.
abbrev pub lock_error : World → Outcome → OidcError
lock_error w Outcome.success = OidcError.success
lock_error w Outcome.elocked = OidcError.elocked
lock_error w Outcome.enotlocked = OidcError.enotlocked
lock_error w Outcome.epass = OidcError.epass
lock_error w Outcome.ecrypt = w.crypt_error

unfoldable pub lock_answer : World → Daemon → LockState × Outcome → Str → Daemon
unfolding with_lock_state answer refuse
lock_answer w d (l, Outcome.success) text =
    answer (with_lock_state d l) (response_success_info text)
lock_answer w d (l, e) text = refuse (with_lock_state d l) (lock_error w e)

unfoldable pub with_files : Daemon → List FileDummy × Message → Daemon
unfolding answer
with_files d (files, m) = answer (record d { files = files }) m

abbrev pub handled : Daemon → Option Agent → Option Daemon
handled d none = none
handled d (some g) = some (with_agent d g)

abbrev pub is_request : Query → Str → Bool
is_request q name = strequal q.request (some name)
