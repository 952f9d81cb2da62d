-- ===== src/Agent/Exchange.antt =====
-- src/oidc-agent/oidcd/oidcd_handler.c: the end of a flow that waited for the user, by an authorization
-- code, a device code or a state, and its entries in codeExchangeEntry.c and deviceCodeEntry.c.
mod Entries
pub mod Aside
pub mod Sealed
pub mod Devices
pub mod States
pub mod Once
pub mod Examples
unfoldable pub use Entries.*
use oidc_agent.Prelude.{
  ℕ, ◌==◌, Bool, true, false, not, ◌&&◌, ◌||◌, Option, none, some, List, [], ◌∷◌, ◌++◌, find_first,
  remove_first, if◌then◌else◌, ℤ, negsuc,
}
use oidc_agent.Text.{Str, codes, str_valid, strequal}
use oidc_agent.Crypt.Memory.{Base64}
use oidc_agent.Account.{
  Account, blank, match_strings, account_match_by_state, account_refresh_token_is_valid,
}
use oidc_agent.Accounts.{Accounts, db_get_account_decrypted, account_db_remove_if_found}
use oidc_agent.Agent.{
  Agent, World, OidcError, success, earg_null_func, einternal, ewrongstate, ewrongdevicecode, eoidc,
  emytoken, enobaseuri, enostate, enocode, CodeExchangeEntry, DeviceCodeEntry, Message,
  response_error, response_status_access, response_status_config, response_status_info,
  update_issuer, term_http, send, with_accounts, fail, write_oidc_errno, update,
}
use oidc_agent.Agent.Add.{is_set, note_null}
use oidc_agent.Uri.{UriError, no_base_uri, no_state, no_code, null_uri, code_state_from_uri}
use oidc_agent.Agent.Load.{reencrypt, is_null, is_forced, token_is_valid_for_seconds}

-- codeStateFromURI sets the error code where a part is missing.
unfoldable pub note_uri_error : Agent → Option UriError → Agent
unfolding fail
note_uri_error g none = g
note_uri_error g (some no_base_uri) = fail g enobaseuri
note_uri_error g (some no_state) = fail g enostate
note_uri_error g (some no_code) = fail g enocode
note_uri_error g (some null_uri) = fail g earg_null_func

module _ (b : Base64) (key : ℕ) where
  unfoldable pub checked_from_gen : Agent → ℕ → Option Str → Bool → Agent
  unfolding term_http_server update
  checked_from_gen g p state false = g
  checked_from_gen g p state true =
      let h = term_http_server g state in
      update h p (record (h.accounts.heap p) { used_state_checked = true })

  unfoldable pub keep_for_state : Agent → ℕ → CodeExchangeEntry → Bool → Agent
  unfolding checked_from_gen reencrypt update spend_code
  keep_for_state g p cee from_gen =
      let h = reencrypt b key (checked_from_gen g p cee.state from_gen) p in
      spend_code (update h p (record (h.accounts.heap p) { used_state = cee.state })) cee

  unfoldable pub exchanged : Agent → ℕ → CodeExchangeEntry → Bool → Bool → Agent
  unfolding send_config send_access keep_for_state free_code send
  exchanged g p cee from_gen only_at =
      if account_refresh_token_is_valid (g.accounts.heap p) && not only_at
      then keep_for_state (send_config g p from_gen) p cee from_gen
      else if only_at && str_valid (g.accounts.heap p).access_token
      then keep_for_state (send_access g p) p cee from_gen
      else free_code (send g no_refresh_token) cee

  unfoldable pub exchange_result : Agent × OidcError → ℕ → CodeExchangeEntry → Bool → Bool → Agent
  unfolding exchanged write_oidc_errno
  exchange_result (g, success) p cee from_gen only_at = exchanged g p cee from_gen only_at
  exchange_result (g, e) p cee from_gen only_at = write_oidc_errno g

  unfoldable pub exchange_configured :
      World → Agent → ℕ → OidcError → CodeExchangeEntry → Str → Str → Bool → Bool → Agent
  unfolding exchange_result get_access_token_using_auth_code_flow write_oidc_errno free_code
  exchange_configured w g p success cee uri code from_gen only_at =
      exchange_result
        (get_access_token_using_auth_code_flow w g p code uri cee.code_verifier (negsuc 0)) p cee
        from_gen only_at
  exchange_configured w g p e cee uri code from_gen only_at = free_code (write_oidc_errno g) cee

  unfoldable pub exchange_at :
      World → Agent → CodeExchangeEntry → Option ℕ → Str → Str → Bool → Bool → Agent
  unfolding exchange_configured write_oidc_errno fail free_code update
  exchange_at w g cee none uri code from_gen only_at =
      free_code (write_oidc_errno (fail g einternal)) cee
  exchange_at w g cee (some p) uri code from_gen only_at =
      let (configured, e) = w.obtain_issuer_config (g.accounts.heap p) in
      exchange_configured w (fail (update g p configured) e) p e cee uri code from_gen only_at

  unfoldable pub exchange_entry :
      World → Agent → Option CodeExchangeEntry → Str → Str → Bool → Bool → Agent
  unfolding exchange_at write_oidc_errno fail
  exchange_entry w g none uri code from_gen only_at = write_oidc_errno (fail g ewrongstate)
  exchange_entry w g (some cee) uri code from_gen only_at =
      exchange_at w g cee cee.account uri code from_gen only_at

  unfoldable pub exchange_state : World → Agent → Str → Str → Str → Bool → Agent
  unfolding exchange_entry send cee_match_by_state
  exchange_state w g uri state code from_gen = elim (only_at_of state) [
    | none ↦ send g state_malformed
    | some only_at ↦
        exchange_entry w g
          (find_first (cee_match_by_state (record empty_code { state = some state })) g.codes) uri
          code from_gen only_at
  ]

  unfoldable pub exchange_parsed :
      World → Agent → Option Str → Option Str → Option Str → Bool → Agent
  unfolding exchange_state write_oidc_errno
  exchange_parsed w g (some uri) (some state) (some code) from_gen =
      exchange_state w g uri state code from_gen
  exchange_parsed w g uri state code from_gen = write_oidc_errno g

  unfoldable pub oidcd_handle_code_exchange : World → Agent → Option Str → Option Str → Agent
  unfolding exchange_parsed note_null note_uri_error write_oidc_errno fail
  oidcd_handle_code_exchange w g none from_string = write_oidc_errno (fail g earg_null_func)
  oidcd_handle_code_exchange w g (some redirected_uri) from_string =
      let (cs, e) = code_state_from_uri (some redirected_uri) in
      exchange_parsed w (note_uri_error (note_null g from_string) e) cs.uri cs.state cs.code
        (is_set from_string)

  unfoldable pub is_pending : World → OidcError → Bool
  is_pending w eoidc = pending_text (w.serror eoidc)
  is_pending w emytoken = pending_text (w.serror emytoken)
  is_pending w _ = false

  unfoldable pub device_done : Agent → ℕ → DeviceCodeEntry → Bool → Agent
  unfolding send_config send_access reencrypt spend_device free_device send
  device_done g p dce only_at =
      if account_refresh_token_is_valid (g.accounts.heap p) && not only_at
      then spend_device (reencrypt b key (send_config g p true) p) dce
      else if only_at && str_valid (g.accounts.heap p).access_token
      then free_device (send_access g p) dce
      else free_device (send g no_refresh_token) dce

  unfoldable pub device_result :
      World → Agent × OidcError → ℕ → DeviceCodeEntry → Option Str → Agent
  unfolding device_done is_pending write_oidc_errno free_device note_null
  device_result w (g, success) p dce only_at_str =
      device_done (note_null g only_at_str) p dce (is_set only_at_str)
  device_result w (g, e) p dce only_at_str =
      write_oidc_errno (if is_pending w e then g else free_device g dce)

  unfoldable pub look_up : World → Agent → ℕ → Option Str → Agent × OidcError
  unfolding get_access_token_using_device_flow fail update
  look_up w g p device_code =
      let a = g.accounts.heap p in
      let (answered, e) = w.look_up_mytoken_polling_code a device_code in
      if is_null a.mytoken_url
      then get_access_token_using_device_flow w g p device_code (negsuc 0)
      else (fail (update g p answered) e, e)

  unfoldable pub device_configured :
      World → Agent → ℕ → OidcError → DeviceCodeEntry → Option Str → Option Str → Agent
  unfolding device_result look_up write_oidc_errno free_device
  device_configured w g p success dce device_code only_at_str =
      device_result w (look_up w g p device_code) p dce only_at_str
  device_configured w g p e dce device_code only_at_str = free_device (write_oidc_errno g) dce

  unfoldable pub device_at :
      World → Agent → DeviceCodeEntry → Option ℕ → Option Str → Option Str → Agent
  unfolding device_configured write_oidc_errno fail free_device update
  device_at w g dce none device_code only_at_str =
      free_device (write_oidc_errno (fail g einternal)) dce
  device_at w g dce (some p) device_code only_at_str =
      let (configured, e) = w.obtain_issuer_config (g.accounts.heap p) in
      device_configured w (fail (update g p configured) e) p e dce device_code only_at_str

  unfoldable pub device_entry :
      World → Agent → Option DeviceCodeEntry → Option Str → Option Str → Agent
  unfolding device_at write_oidc_errno fail
  device_entry w g none device_code only_at_str = write_oidc_errno (fail g ewrongdevicecode)
  device_entry w g (some dce) device_code only_at_str =
      device_at w g dce dce.account device_code only_at_str

  unfoldable pub device_parsed :
      World → Agent → OidcError × Option (Option Str) → Option Str → Agent
  unfolding device_entry write_oidc_errno fail dce_match
  device_parsed w g (e, none) only_at_str = write_oidc_errno (fail g e)
  device_parsed w g (e, some device_code) only_at_str =
      device_entry w (fail g e)
        (find_first (dce_match (record empty_device { device_code = device_code })) g.devices)
        device_code only_at_str

  unfoldable pub oidcd_handle_device_lookup : World → Agent → Option Str → Option Str → Agent
  unfolding device_parsed
  oidcd_handle_device_lookup w g device_json only_at_str =
      device_parsed w g (w.get_device_code_from_json device_json) only_at_str

  -- The match function is replaced for the search and put back after it.
  unfoldable pub find_by_state : Accounts → Str → Accounts × Option ℕ
  unfolding db_get_account_decrypted
  find_by_state s state =
      let (s1, found) =
        db_get_account_decrypted b key (record s { match = account_match_by_state })
          (record blank { used_state = some state }) in
      (record s1 { match = s.match }, found)

  unfoldable pub take_out : Agent → ℕ → Agent
  unfolding with_accounts
  take_out g p = with_accounts g (account_db_remove_if_found g.accounts (g.accounts.heap p))

  unfoldable pub state_found : Agent → ℕ → Str → Bool → Agent
  unfolding send update reencrypt send_access send_config take_out term_http_server
  state_found g p state only_at =
      let a = g.accounts.heap p in
      let h = update g p (record a { used_state_checked = true }) in
      if a.used_state_checked
      then reencrypt b key
          (send g (response_status_info true (codes "Account config already retrieved"))) p
      else term_http_server
          (if only_at
            then take_out (send_access h p) p
            else reencrypt b key (send_config h p true) p)
          (some state)

  unfoldable pub state_looked_up : Agent → Option ℕ → Str → Bool → Agent
  unfolding state_found send
  state_looked_up g none state only_at =
      send g (response_status_info false (codes "No loaded account info found for state=" ++ state))
  state_looked_up g (some p) state only_at = state_found g p state only_at

  unfoldable pub oidcd_handle_state_look_up : Agent → Option Str → Agent
  unfolding find_by_state state_looked_up send with_accounts
  oidcd_handle_state_look_up g none = send g state_malformed
  oidcd_handle_state_look_up g (some state) = elim (only_at_of state) [
    | none ↦ send g state_malformed
    | some only_at ↦
        let (s, found) = find_by_state g.accounts state in
        state_looked_up (with_accounts g s) found state only_at
  ]
