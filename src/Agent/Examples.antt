-- ===== src/Agent/Examples.antt =====
-- An agent with one loaded account, and tests of its requests.
use oidc_agent.Prelude.{List, ◌≡◌, refl, true, false, none, some, [], ◌∷◌, arith, ◌≢◌, ◌++◌}
use oidc_agent.Text.{Str, codes}
use oidc_agent.Crypt.Examples.{letters, letters-IsCoding}
use oidc_agent.Account.{Account, account_match_by_name}
use oidc_agent.Accounts.{Accounts, encrypt_account}
use oidc_agent.Accounts.Sealed.{encrypt_account-IsSealed}
use oidc_agent.Accounts.Examples.{account, work}
use oidc_agent.Agent.{Agent, World, Arguments, OidcError, success, einternal}
use oidc_agent.Agent.Sealed.{Inv}
use oidc_agent.Agent.Token.{oidcd_handle_id_token}
use oidc_agent.Accounts.{account_db_find_value, db_find_account_by_shortname}
use oidc_agent.Accounts.Names.{HasDistinctNames, name}
use oidc_agent.Agent.Manage.{oidcd_handle_rm, oidcd_handle_delete}
use oidc_agent.Agent.Manage.Removal.{
  rm_answer, oidcd_handle_rm-removes, DeleteOutcome, oidcd_handle_delete_outcome,
}
use oidc_agent.Agent.Manage.Registry.{Command, steps, specs, steps-specs}
use oidc_agent.Agent.Requests.{access_token, id_token, remove, handle, Reaches, here, step}
use oidc_agent.Agent.Requests.Sealed.{Reaches-Inv}
use oidc_agent.Agent.Token.Sealed.{oidcd_handle_id_token-leaks}

-- The user answers every prompt with `answer`.
abbrev pub world : OidcError → World
world answer = record {
  now = 100;
  refresh_flow =
      λ id a scope audience. (record a { token_expires_at = 400 }, some (codes "t"), success);
  obtain_issuer_config = λ a. (a, success);
  get_submytoken = λ a profile hint. (a, none, einternal);
  get_confirmation = λ id name issuer hint. answer;
  autoload = λ name issuer hint. (success, some (account 0));
  get_account_from_json = λ json. (success, some (account 0));
  revoke_token = λ a. success;
  query_default_account_issuer = λ issuer. (success, none);
  autogen = false;
  autogen_exact = false;
  password_flow = λ a scope. (a, einternal);
  code_exchange = λ a code uri verifier. (record a { refresh_token = some (codes "n") }, success);
  look_up_device_code = λ a code. (a, einternal);
  look_up_mytoken_polling_code = λ a code. (a, einternal);
  init_device_flow = λ mytoken a. (einternal, none);
  build_code_flow_uri =
      λ a state verifier only_at. (success, some (codes "https://a/auth"), state, some verifier);
  random_state = codes "rnd";
  random_verifier = codes "ver";
  server_socket_path = codes "/s";
  to_base64_url_safe = λ s. s;
  json_array = λ s. (success, some (codes "refresh" ∷ []));
  is_json_object = λ s. true;
  json_value = λ s k. none;
  get_device_code_from_json = λ s. (success, some s);
  dynamic_registration = λ a flows token. (einternal, none);
  crypt_error = einternal;
  json_has_key = λ s k. false;
  parse_for_error = λ s. s;
  status_json = λ version options names. version;
  version = codes "5.0.0";
  delete_client = λ uri token path. success;
  scopes_supported_for = λ issuer endpoint path. (einternal, none);
  mytoken_providers = λ url endpoint path. (einternal, none);
  serror = λ e. codes "error";
  help = λ e. none;
}

abbrev pub careful : Arguments
careful = record {
  confirm = true;
  no_autoload = false;
  always_allow_idtoken = false;
  no_webserver = false;
  no_scheme = false;
  no_autoreauthenticate = false;
  lifetime = 0;
  group = none;
  console = false;
  debug = false;
  log_console = false;
  trace_http = none;
}

abbrev pub agent : Agent
agent = record {
  accounts = record {
    heap = λ p. encrypt_account letters 77 (account 0);
    loaded = 0 ∷ [];
    match = account_match_by_name;
  };
  fresh = 1;
  oidc_errno = success;
  default_timeout = 0;
  sent = [];
  codes = [];
  devices = [];
  freed = [];
}

pub agent-Inv : Inv letters 77 agent
agent-Inv = record {
  sealed = (encrypt_account-IsSealed letters 77 (account 0), tt);
  bounded = (omega arith, tt);
}

oidcd_handle_id_token-leaks_example :
    let after =
      oidcd_handle_id_token letters 77 (world einternal) careful agent work none none none in
    (after.accounts.heap 0 ≡ account 0) × (after.accounts.loaded ≡ 0 ∷ [])
unfolding account_match_by_name oidc_agent.Account.match_strings oidc_agent.Text.strequal
oidcd_handle_id_token-leaks_example =
    oidcd_handle_id_token-leaks letters 77 (world einternal) careful letters-IsCoding agent work
      none none none 0 (account 0)
      (unfold oidc_agent.Accounts.db_find_account_by_shortname encrypt_account in refl) refl
      (unfold oidc_agent.Text.str_valid in refl, ((omega arith, omega arith), tt), omega arith)
      (unfold oidc_agent.Text.str_valid in refl, ((omega arith, omega arith), tt), omega arith) tt
      refl (unfold encrypt_account in refl) refl

pub agent-HasDistinctNames : HasDistinctNames agent.accounts
agent-HasDistinctNames = record { by_name = refl; distinct = (tt, tt) }

oidcd_handle_rm-removes_example :
    let after = oidcd_handle_rm agent (some work) in
    (db_find_account_by_shortname after.accounts (some work) ≡ none)
    × ((m : Str)
        → m ≢ work
        → db_find_account_by_shortname after.accounts (some m)
          ≡ db_find_account_by_shortname agent.accounts (some m))
    × (after.sent ≡ [] ++ rm_answer (db_find_account_by_shortname agent.accounts (some work)) ∷ [])
    × HasDistinctNames after.accounts
oidcd_handle_rm-removes_example = oidcd_handle_rm-removes agent work agent-HasDistinctNames

oidcd_handle_delete_outcome_example :
    DeleteOutcome
      (world success)
      (some (codes "{}"))
      agent
      (oidcd_handle_delete (world success) agent (some (codes "{}")))
oidcd_handle_delete_outcome_example =
    oidcd_handle_delete_outcome (world success) (some (codes "{}")) agent agent-HasDistinctNames

abbrev issuer : Str
issuer = codes "https://a/"

-- A token of an account, one of an issuer, an id token, then a removal.
abbrev after_run : Agent
after_run = handle letters 77 careful (world success) (remove (some work)) (
    handle letters 77 careful (world success) (id_token none (some issuer) none none) (
      handle letters 77 careful (world success)
        (access_token none (some issuer) none none none none)
        (handle letters 77 careful (world einternal)
          (access_token (some work) none none none none none) agent)))

abbrev run : Reaches letters 77 careful agent after_run
run = step (world einternal) (access_token (some work) none none none none none) (
    step (world success) (access_token none (some issuer) none none none none) (
      step (world success) (id_token none (some issuer) none none)
        (step (world success) (remove (some work)) here)))

Reaches-Inv_example : Inv letters 77 after_run
Reaches-Inv_example = Reaches-Inv letters 77 careful run (tt, (tt, (refl, (tt, tt)))) agent-Inv

abbrev commands : List Command
commands = Command.add 0 ∷ Command.remove work ∷ []

steps-specs_example :
    db_find_account_by_shortname (steps letters 77 commands agent.accounts) (some work)
    ≡ specs
        (name agent.accounts)
        commands
        (λ k. db_find_account_by_shortname agent.accounts (some k))
        work
steps-specs_example = steps-specs letters 77 commands agent.accounts agent-HasDistinctNames work
