-- ===== src/Agent/Inform.antt =====
-- src/oidc-agent/oidcd/oidcd_handler.c: the requests that do not change the loaded accounts.
pub mod Status
pub mod Answers
use oidc_agent.Prelude.{
  ℕ, Bool, true, false, not, ◌&&◌, ◌||◌, Option, none, some, List, [], ◌∷◌, ◌++◌, map,
  if◌then◌else◌,
}
use oidc_agent.Text.{Str, codes}
use oidc_agent.Text.Case.{str_sub_string_case}
use oidc_agent.Text.Edit.{escape_char_in_str}
use oidc_agent.Account.{Account}
use oidc_agent.Accounts.{account_db_find_value}
use oidc_agent.Agent.{
  Agent, World, OidcError, success, earg_null_func, eunscope, Message, response_error,
  response_error_info, response_error_client, response_success, response_success_client,
  response_success_info, response_success_info_object, response_success_loadedaccounts,
  response_error_text, send, fail, write_oidc_errno,
}
use oidc_agent.Agent.Exchange.{term_http_server}
use oidc_agent.Agent.Gen.{text_of}

-- JSONArrayStringToList
abbrev pub read_flows : World → Option Str → OidcError × Option (List Str)
read_flows w none = (earg_null_func, none)
read_flows w (some s) = w.json_array s

module _ (w : World) where
  -- The scopes of the new client are not enough for the agent.
  unfoldable pub lacks_scopes : Account → Option Str → Bool
  lacks_scopes a scopes =
      (not (str_sub_string_case scopes (some (codes "openid"))) && not a.is_oauth2)
      || not (str_sub_string_case scopes (some (codes "offline_access")))

  unfoldable pub registered : Agent → Account → Str → Agent
  unfolding lacks_scopes send fail
  registered g a res =
      if not (w.is_json_object res)
      then send g (
          response_error_text (codes "Received no JSON formatted response.")
            (text_of (escape_char_in_str (some res) b'"')))
      else if w.json_has_key res (codes "error")
      then send g (response_error (w.parse_for_error res))
      else if lacks_scopes a (w.json_value res (codes "scope"))
      then send (fail g eunscope) (response_error_client eunscope res)
      else send g (response_success_client res a.scopes_supported)

  unfoldable pub register_answer : Agent → Account → OidcError × Option Str → Agent
  unfolding registered write_oidc_errno fail
  register_answer g a (e, none) = write_oidc_errno (fail g e)
  register_answer g a (e, some res) = registered (fail g e) a res

  unfoldable pub register_flows :
      Agent → Account → OidcError × Option (List Str) → Option Str → Agent
  unfolding register_answer write_oidc_errno fail
  register_flows g a (e, none) access_token = write_oidc_errno (fail g e)
  register_flows g a (e, some flows) access_token =
      register_answer (fail g e) a (w.dynamic_registration a flows access_token)

  unfoldable pub register_configured : Agent → Account × OidcError → Option Str → Option Str → Agent
  unfolding register_flows write_oidc_errno fail
  register_configured g (a, success) flows_json_str access_token =
      register_flows (fail g success) a (read_flows w flows_json_str) access_token
  register_configured g (a, e) flows_json_str access_token = write_oidc_errno (fail g e)

  unfoldable pub register_search : Agent → Account → Option ℕ → Option Str → Option Str → Agent
  unfolding register_configured send
  register_search g a (some p) flows_json_str access_token = send g (
      response_error
        (codes "An account with this shortname is already loaded. I will not register a new one."))
  register_search g a none flows_json_str access_token =
      register_configured g (w.obtain_issuer_config a) flows_json_str access_token

  unfoldable pub register_parsed :
      Agent → OidcError × Option Account → Option Str → Option Str → Agent
  unfolding register_search write_oidc_errno fail account_db_find_value
  register_parsed g (e, none) flows_json_str access_token = write_oidc_errno (fail g e)
  register_parsed g (e, some a) flows_json_str access_token =
      register_search (fail g e) a (account_db_find_value g.accounts a) flows_json_str access_token

  -- The account that is read for the request is freed at its end.
  unfoldable pub oidcd_handle_register : Agent → Option Str → Option Str → Option Str → Agent
  unfolding register_parsed
  oidcd_handle_register g account_json flows_json_str access_token =
      register_parsed g (w.get_account_from_json account_json) flows_json_str access_token

  unfoldable pub scopes_found : Agent → OidcError × Option Str → Agent
  unfolding write_oidc_errno fail send
  scopes_found g (e, none) = write_oidc_errno (fail g e)
  scopes_found g (e, some scopes) = send (fail g e) (response_success_info scopes)

  unfoldable pub oidcd_handle_scopes : Agent → Option Str → Option Str → Option Str → Agent
  unfolding scopes_found send
  oidcd_handle_scopes g none none cert_path =
      send g
        (response_error (codes "Bad Request: issuer url or configuration endpoint must be given"))
  oidcd_handle_scopes g issuer_url config_endpoint cert_path =
      scopes_found g (w.scopes_supported_for issuer_url config_endpoint cert_path)

  unfoldable pub providers_found : Agent → OidcError × Option Str → Agent
  unfolding write_oidc_errno fail send
  providers_found g (e, none) = write_oidc_errno (fail g e)
  providers_found g (e, some providers) = send (fail g e) (response_success_info_object providers)

  unfoldable pub oidcd_handle_mytoken_providers_lookup :
      Agent → Option Str → Option Str → Option Str → Agent
  unfolding providers_found send
  oidcd_handle_mytoken_providers_lookup g none none cert_path =
      send g
        (response_error (codes "Bad Request: mytoken url or configuration endpoint must be given"))
  oidcd_handle_mytoken_providers_lookup g mytoken_url config_endpoint cert_path =
      providers_found g (w.mytoken_providers mytoken_url config_endpoint cert_path)

  unfoldable pub client_deleted : Agent → OidcError → Agent
  unfolding fail send
  client_deleted g success = send (fail g success) response_success
  client_deleted g e =
      send (fail g e) (response_error (codes "Could not delete client: " ++ w.serror e))

  unfoldable pub oidcd_handle_delete_client : Agent → Option Str → Option Str → Option Str → Agent
  unfolding client_deleted
  oidcd_handle_delete_client g client_uri registration_access_token cert_path =
      client_deleted g (w.delete_client client_uri registration_access_token cert_path)

unfoldable pub oidcd_handle_term_http : Agent → Option Str → Agent
unfolding term_http_server send
oidcd_handle_term_http g state = send (term_http_server g state) response_success

unfoldable pub get_name_list_loaded_accounts : Agent → List (Option Str)
get_name_list_loaded_accounts g = map (λ p. (g.accounts.heap p).shortname) g.accounts.loaded

unfoldable pub oidcd_handle_list_loaded_accounts : Agent → Agent
unfolding get_name_list_loaded_accounts send
oidcd_handle_list_loaded_accounts g =
    send g (response_success_loadedaccounts (get_name_list_loaded_accounts g))
