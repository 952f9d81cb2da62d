-- ===== src/Agent.antt =====
-- The agent daemon oidcd: its state, what it asks of the outside, and what it answers. One request is
-- handled at a time (src/oidc-agent/oidcd/oidcd.c), so a handler is a function on the state.
pub mod Load
pub mod Token
pub mod Gen
pub mod Exchange
pub mod Inform
pub mod Add
pub mod Issuer
pub mod Manage
pub mod Requests
pub mod Sealed
pub mod Examples
use oidc_agent.Prelude.{ℕ, suc, Bool, Option, none, some, List, [], ◌∷◌, ◌++◌, ◌==◌, if◌then◌else◌}
use oidc_agent.Text.{Str}
use oidc_agent.Account.{Account}
use oidc_agent.Accounts.{Accounts, store}

-- The codes of src/utils/oidc_error.h that the modelled code sets or tests; `other` is any other code.
pub data OidcError : Type 0 where
  success earg_null_func epass enotlocked elocked euserpwcncl enorefresh enotimpl einternal ecred
        ewrongstate ewrongdevicecode eoidc emytoken eunscope enobaseuri enostate enocode :
      OidcError
  other : ℕ → OidcError

abbrev pub is_success : OidcError → Bool
is_success OidcError.success = Bool.true
is_success _ = Bool.false

-- The messages that the daemon writes to the pipe, one constructor for each format.
pub data Message : Type 0 where
  response_error : Str → Message
  response_badrequest : Str → Message
  response_error_errno : OidcError → Message
  response_error_info : OidcError → Str → Message
  response_success : Message
  response_success_info : Str → Message
  response_status_access : Option Str → Option Str → ℕ → Message
  response_status_idtoken : Option Str → Option Str → Message
  response_json : Str → Message
  response_success_file : Str → Message
  response_status_config : Account → Message
  response_status_info : Bool → Str → Message
  response_status_codeuri : Str → Str → Message
  response_accepted_device : Str → Message
  response_error_client : OidcError → Str → Message
  response_error_text : Str → Str → Message
  response_success_client : Str → Option Str → Message
  response_success_info_object : Str → Message
  response_success_loadedaccounts : List (Option Str) → Message
  autogen : Option Str → Option Str → Option Str → Message
  update_issuer : Option Str → Option Str → Str → Message
  term_http : Str → Message

pub record Arguments : Type 0 where
  pub confirm : Bool
  pub no_autoload : Bool
  pub always_allow_idtoken : Bool
  pub no_webserver : Bool
  pub no_scheme : Bool
  pub no_autoreauthenticate : Bool
  pub lifetime : ℕ
  pub group : Option Str
  pub console : Bool
  pub debug : Bool
  pub log_console : Bool
  pub trace_http : Option Str

-- What a request sees of the world while it is handled. Errors come back as the code that
-- `oidc_errno` is set to.
pub record World : Type 0 where
  -- time(NULL)
  pub now : ℕ
  -- refreshFlow for an access token or, if the flag is set, an id token: the OpenID provider's answer
  -- is in the account, the token, or the error.
  pub refresh_flow : Bool → Account → Option Str → Option Str → Account × Option Str × OidcError
  pub obtain_issuer_config : Account → Account × OidcError
  pub get_submytoken : Account → Option Str → Option Str → Account × Option Str × OidcError
  -- The prompt of _oidcd_getConfirmation, for an id token if the flag is set.
  pub get_confirmation : Bool → Option Str → Option Str → Option Str → OidcError
  -- The account of the configuration that oidcp sends for an autoload request, or the error that it
  -- sends, or that it does not answer with. A configuration that oidcp sends is the text of an account:
  -- for another text the code writes the lifetime through NULL, which is no outcome here.
  pub autoload : Option Str → Option Str → Option Str → OidcError × Option Account
  pub get_account_from_json : Option Str → OidcError × Option Account
  pub revoke_token : Account → OidcError
  -- The default account of an issuer, from the configuration that oidcp reads.
  pub query_default_account_issuer : Option Str → OidcError × Option Str
  -- The agent configuration: whether accounts are generated when none is there, and whether with the
  -- requested scope only.
  pub autogen : Bool
  pub autogen_exact : Bool
  -- passwordFlow, codeExchange, lookUpDeviceCode and lookUpMytokenPollingCode at the provider.
  pub password_flow : Account → Option Str → Account × OidcError
  pub code_exchange : Account → Str → Str → Option Str → Account × OidcError
  pub look_up_device_code : Account → Option Str → Account × OidcError
  pub look_up_mytoken_polling_code : Account → Option Str → Account × OidcError
  -- The start of the device flow or, if the flag is set, of the mytoken flow: the device code and its
  -- JSON.
  pub init_device_flow : Bool → Account → OidcError × Option (Option Str × Str)
  -- buildCodeFlowUri on a state and a code verifier, which it may change.
  pub build_code_flow_uri : Account → Str → Str → Bool → OidcError × Option Str × Str × Option Str
  pub random_state : Str
  pub random_verifier : Str
  pub server_socket_path : Str
  pub to_base64_url_safe : Str → Str
  -- JSONArrayStringToList, which gives NULL for a text that is not an array, and the other readers of
  -- JSON.
  pub json_array : Str → OidcError × Option (List Str)
  pub is_json_object : Str → Bool
  pub json_value : Str → Str → Option Str
  pub get_device_code_from_json : Option Str → OidcError × Option (Option Str)
  pub dynamic_registration : Account → List Str → Option Str → OidcError × Option Str
  pub delete_client : Option Str → Option Str → Option Str → OidcError
  pub scopes_supported_for : Option Str → Option Str → Option Str → OidcError × Option Str
  pub mytoken_providers : Option Str → Option Str → Option Str → OidcError × Option Str
  pub json_has_key : Str → Str → Bool
  -- parseForError of an answer, and the JSON object of the status.
  pub parse_for_error : Str → Str
  pub status_json : Str → Option Str → List (Option Str) → Str
  -- The version that the build defines.
  pub version : Str
  -- What a password encryption or decryption that fails sets.
  pub crypt_error : OidcError
  -- oidc_serror for an error.
  pub serror : OidcError → Str
  -- getHelp for an error, with the placeholders filled in.
  pub help : OidcError → Option Str

-- src/oidc-agent/oidcd/codeExchangeEntry.h
pub record CodeExchangeEntry : Type 0 where
  pub state : Option Str
  pub account : Option ℕ
  pub code_verifier : Option Str

-- src/oidc-agent/oidcd/deviceCodeEntry.h
pub record DeviceCodeEntry : Type 0 where
  pub device_code : Option Str
  pub account : Option ℕ

pub record Agent : Type 0 where
  pub accounts : Accounts
  -- The next pointer that an allocation gives.
  pub fresh : ℕ
  pub oidc_errno : OidcError
  pub default_timeout : ℕ
  pub sent : List Message
  -- The accounts that wait for the user: codeVerifierDB and deviceCodeDB.
  pub codes : List CodeExchangeEntry
  pub devices : List DeviceCodeEntry
  -- The pointers that a flow that failed has freed.
  pub freed : List ℕ

unfoldable pub send : Agent → Message → Agent
send g m = record g { sent = g.sent ++ m ∷ [] }

unfoldable pub with_accounts : Agent → Accounts → Agent
with_accounts g s = record g { accounts = s }

unfoldable pub fail : Agent → OidcError → Agent
fail g e = record g { oidc_errno = e }

-- ipc_writeOidcErrnoToPipe
unfoldable pub write_oidc_errno : Agent → Agent
unfolding send
write_oidc_errno g = send g (response_error_errno g.oidc_errno)

-- A new account struct and the pointer to it.
unfoldable pub alloc : Agent → Account → Agent
unfolding store
alloc g a = record g { accounts = store g.accounts g.fresh a; fresh = suc g.fresh }

-- A write through an account pointer.
unfoldable pub update : Agent → ℕ → Account → Agent
unfolding with_accounts store
update g p a = with_accounts g (store g.accounts p a)
