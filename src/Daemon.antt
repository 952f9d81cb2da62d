-- ===== src/Daemon.antt =====
-- src/oidc-agent/oidcd/oidcd.c: the main loop of the agent daemon, which reads one request after the other
-- and hands it to its handler. The reading of the request's JSON is a parameter; a request here is the
-- values that were read.
mod State
pub mod Locked
pub mod Sealed
mod Examples
unfoldable pub use State.*
use oidc_agent.Prelude.{
  ℕ, Bool, true, false, Option, none, some, List, [], ◌∷◌, ◌>>=◌, if◌then◌else◌,
}
use oidc_agent.Text.{Str, codes, strequal}
use oidc_agent.Crypt.Memory.{Base64}
use oidc_agent.Agent.{
  Agent, World, Arguments, OidcError, Message, response_badrequest, response_success,
  response_success_info, send, with_accounts, fail, write_oidc_errno,
}
use oidc_agent.Agent.Token.{oidcd_handle_token, oidcd_handle_mytoken, oidcd_handle_id_token}
use oidc_agent.Agent.Issuer.{oidcd_handle_token_issuer, oidcd_handle_id_token_issuer}
use oidc_agent.Agent.Manage.{oidcd_handle_rm, oidcd_handle_remove_all, oidcd_handle_delete}
use oidc_agent.Agent.Add.{oidcd_handle_add}
use oidc_agent.Agent.Gen.{oidcd_handle_gen, oidcd_handle_reauthenticate}
use oidc_agent.Agent.Exchange.{
  oidcd_handle_code_exchange, oidcd_handle_device_lookup, oidcd_handle_state_look_up,
}
use oidc_agent.Agent.Inform.{
  oidcd_handle_register, oidcd_handle_scopes, oidcd_handle_mytoken_providers_lookup,
  oidcd_handle_delete_client, oidcd_handle_term_http, oidcd_handle_list_loaded_accounts,
}
use oidc_agent.Agent.Inform.Status.{oidcd_handle_agent_status, oidcd_handle_agent_status_json}
use oidc_agent.Files.{
  FileDummy, oidcd_handle_file_write, oidcd_handle_file_read, oidcd_handle_file_remove,
}
use oidc_agent.Lock.{PasswordCrypt, Outcome, lock, unlock, Agent as LockState}

module _ (b : Base64) (key : ℕ) (c : PasswordCrypt) (r : ℕ → ℕ → ℕ) (args : Arguments)
    (w : World) where
  unfoldable pub oidcd_handle_lock : Daemon → Option Str → Bool → Daemon
  unfolding lock_answer lock_state
  oidcd_handle_lock d password true =
      lock_answer w d (lock c r (lock_state d) password) (codes "Agent locked")
  oidcd_handle_lock d password false =
      lock_answer w d (unlock c (lock_state d) password) (codes "Agent unlocked")

  unfoldable pub request_access_token : Daemon → Query → Option Str → Option Str → Daemon
  unfolding refuse
  request_access_token d q (some name) issuer = with_agent d (
      oidcd_handle_token b key w args d.agent (some name) q.minvalid q.scope q.application_hint
        q.audience)
  request_access_token d q none (some issuer) = with_agent d (
      oidcd_handle_token_issuer b key w args d.agent (some issuer) q.minvalid q.scope
        q.application_hint q.audience)
  request_access_token d q none none = refuse d OidcError.enotimpl

  unfoldable pub request_id_token : Daemon → Query → Option Str → Option Str → Daemon
  unfolding refuse
  request_id_token d q (some name) issuer =
      with_agent d
        (oidcd_handle_id_token b key w args d.agent name issuer q.scope q.application_hint)
  request_id_token d q none (some issuer) =
      with_agent d
        (oidcd_handle_id_token_issuer b key w args d.agent (some issuer) q.scope q.application_hint)
  request_id_token d q none none = refuse d OidcError.enotimpl

  -- The second half of the branches of the main loop.
  unfoldable pub dispatch_rest : Daemon → Query → Option Daemon
  unfolding oidcd_handle_lock with_files refuse answer
  dispatch_rest d q =
      let g = d.agent in
      if is_request q (codes "mytoken")
      then some (
          with_agent d
            (oidcd_handle_mytoken b key w args g q.shortname q.profile q.application_hint))
      else if is_request q (codes "register")
      then some (with_agent d (oidcd_handle_register w g q.config q.flow q.authorization))
      else if is_request q (codes "term_http_server")
      then some (with_agent d (oidcd_handle_term_http g q.state))
      else if is_request q (codes "file_write")
      then some (with_files d (oidcd_handle_file_write b key d.files q.filename q.data_value))
      else if is_request q (codes "file_read")
      then some (with_files d (oidcd_handle_file_read b key d.files q.filename))
      else if is_request q (codes "file_remove")
      then some (with_files d (oidcd_handle_file_remove d.files q.filename))
      else if is_request q (codes "scopes")
      then some (with_agent d (oidcd_handle_scopes w g q.issuer q.config_endpoint q.cert_path))
      else if is_request q (codes "mytoken_supported_providers")
      then some (
          with_agent d
            (oidcd_handle_mytoken_providers_lookup w g q.issuer q.config_endpoint q.cert_path))
      else if is_request q (codes "loaded_accounts")
      then some (with_agent d (oidcd_handle_list_loaded_accounts g))
      else if is_request q (codes "lock")
      then some (oidcd_handle_lock d q.password true)
      else if is_request q (codes "unlock")
      then some (refuse d OidcError.enotlocked)
      else some (answer d (response_badrequest (codes "Unknown request type.")))

  -- The branches of the main loop while the agent is not locked. There is no result where a handler
  -- reads through NULL.
  unfoldable pub dispatch : Daemon → Query → Option Daemon
  unfolding dispatch_rest request_access_token request_id_token
  dispatch d q =
      let g = d.agent in
      let rest = dispatch_rest d q in
      if is_request q (codes "gen")
      then handled d
          (oidcd_handle_gen b key w args g q.config q.flow q.nowebserver q.noscheme q.only_at)
      else if is_request q (codes "reauthenticate")
      then handled d (oidcd_handle_reauthenticate b key w args g q.shortname)
      else if is_request q (codes "code_exchange")
      then some (with_agent d (oidcd_handle_code_exchange b key w g q.redirected_uri q.from_gen))
      else if is_request q (codes "state_lookup")
      then some (with_agent d (oidcd_handle_state_look_up b key g q.state))
      else if is_request q (codes "device")
      then some (with_agent d (oidcd_handle_device_lookup b key w g q.device q.only_at))
      else if is_request q (codes "add")
      then some (
          with_agent d
            (oidcd_handle_add b key w g q.config q.lifetime q.confirm q.alwaysallowid q.plainadd))
      else if is_request q (codes "remove")
      then some (with_agent d (oidcd_handle_rm g q.shortname))
      else if is_request q (codes "remove_all")
      then some (with_agent d (oidcd_handle_remove_all g))
      else if is_request q (codes "delete")
      then some (with_agent d (oidcd_handle_delete w g q.config))
      else if is_request q (codes "delete_client")
      then some (
          with_agent d (
            oidcd_handle_delete_client w g q.registration_client_uri q.registration_access_token
              q.cert_path))
      else if is_request q (codes "status")
      then handled d (oidcd_handle_agent_status w args g)
      else if is_request q (codes "status_json")
      then some (with_agent d (oidcd_handle_agent_status_json w args g))
      else if is_request q (codes "access_token")
      then some (request_access_token d q q.shortname q.issuer)
      else if is_request q (codes "id_token")
      then some (request_id_token d q q.shortname q.issuer)
      else rest

  abbrev pub is_null_text : Option Str → Bool
  is_null_text none = true
  is_null_text (some s) = false

  -- One turn of the main loop, once a request is read: checks are answered in all states, and a locked
  -- agent lets only the request to unlock it through.
  unfoldable pub turn : Daemon → Query → Option Daemon
  unfolding dispatch oidcd_handle_lock refuse answer
  turn d q =
      let handled_request = dispatch d q in
      if is_null_text q.request
      then some (answer d (response_badrequest (codes "No request type.")))
      else if is_request q (codes "check")
      then some (answer d response_success)
      else if d.locked
      then if is_request q (codes "unlock")
        then some (oidcd_handle_lock d q.password false)
        else some (refuse d OidcError.elocked)
      else handled_request

-- A run of the main loop over requests, each in the world of its time.
unfoldable pub turns :
    Base64
    → ℕ
    → PasswordCrypt
    → (ℕ → ℕ → ℕ)
    → Arguments
    → Daemon
    → List (World × Query)
    → Option Daemon
unfolding turn
turns b key c r args d [] = some d
turns b key c r args d ((w, q) ∷ l) = do h ← turn b key c r args w d q; turns b key c r args h l
