-- ===== src/Agent/Token.antt =====
-- src/oidc-agent/oidcd/oidcd_handler.c: the requests that hand out tokens of a loaded account.
pub mod Sealed
use oidc_agent.Prelude.{ℕ, Bool, true, false, ◌||◌, Option, none, some, if◌then◌else◌, ℤ, pos}
use oidc_agent.Text.{Str, codes, str_valid}
use oidc_agent.Text.Number.{str_to_int}
use oidc_agent.Crypt.Memory.{Base64}
use oidc_agent.Account.{Account}
use oidc_agent.Agent.{
  Agent, World, Arguments, OidcError, is_success, Message, response_error, response_error_info,
  response_json, response_status_access, response_status_idtoken, send, fail, write_oidc_errno,
  update,
}
use oidc_agent.Agent.Load.{
  reencrypt, get_loaded_unencrypted_account, get_access_token_using_refresh_flow, get_id_token,
  write_error_with_help,
}

abbrev pub no_shortname : Message
no_shortname = response_error (codes "Bad request. Required field 'account' not present.")

-- A missing period counts as 0.
abbrev pub period : Option Str → ℤ
period none = pos 0
period (some s) = str_to_int (some s)

module _ (b : Base64) (key : ℕ) (w : World) (args : Arguments) where
  -- The answer to a token request; the account is re-encrypted first on every path.
  unfoldable pub answer_token : Agent × Option Str → ℕ → Agent
  unfolding reencrypt send write_error_with_help
  answer_token (g, none) p = write_error_with_help w (reencrypt b key g p)
  answer_token (g, some access_token) p =
      let g1 = reencrypt b key g p in
      let a = g1.accounts.heap p in
      send g1 (response_status_access (some access_token) a.issuer_url a.token_expires_at)

  -- The confirmation by the user, where the agent or the account asks for it.
  token_confirmed : Agent → ℕ → Option Str → ℤ → Option Str → Option Str → Option Str → Agent
  unfolding answer_token get_access_token_using_refresh_flow fail write_oidc_errno reencrypt
  token_confirmed g p short_name min_valid scope hint audience =
      let granted =
        answer_token (get_access_token_using_refresh_flow w g p min_valid scope audience) p in
      let answer = w.get_confirmation false short_name none hint in
      if args.confirm || (g.accounts.heap p).confirmation_required
      then if is_success answer
        then granted
        else write_oidc_errno (reencrypt b key (fail g answer) p)
      else granted

  pub oidcd_handle_token :
      Agent → Option Str → Option Str → Option Str → Option Str → Option Str → Agent
  unfolding get_loaded_unencrypted_account token_confirmed send
  oidcd_handle_token g none min_valid scope hint audience = send g no_shortname
  oidcd_handle_token g (some name) min_valid scope hint audience =
      let (g1, found) = get_loaded_unencrypted_account b key w args g (some name) hint in
      elim found [
        | none ↦ g1
        | some p ↦ token_confirmed g1 p (some name) (period min_valid) scope hint audience
      ]

  answer_mytoken : Agent → ℕ → Account × Option Str × OidcError → Agent
  unfolding reencrypt send write_oidc_errno fail update
  answer_mytoken g p (a, none, e) = write_oidc_errno (reencrypt b key (fail (update g p a) e) p)
  answer_mytoken g p (a, some res, e) =
      send (reencrypt b key (fail (update g p a) e) p) (response_json res)

  pub oidcd_handle_mytoken : Agent → Option Str → Option Str → Option Str → Agent
  unfolding get_loaded_unencrypted_account answer_mytoken send
  oidcd_handle_mytoken g none profile hint = send g no_shortname
  oidcd_handle_mytoken g (some name) profile hint =
      let (g1, found) = get_loaded_unencrypted_account b key w args g (some name) hint in
      elim found [
        | none ↦ g1
        | some p ↦ answer_mytoken g1 p (w.get_submytoken (g1.accounts.heap p) profile hint)
      ]

  answer_idtoken : Agent × Option Str → ℕ → Agent
  unfolding reencrypt send write_oidc_errno
  answer_idtoken (g, none) p = write_oidc_errno (reencrypt b key g p)
  answer_idtoken (g, some id_token) p =
      let g1 = reencrypt b key g p in
      send g1 (response_status_idtoken (some id_token) (g1.accounts.heap p).issuer_url)

  -- On a refusal the code returns without re-encrypting the account.
  unfoldable pub idtoken_confirmed :
      Agent → ℕ → Option Str → Option Str → Option Str → Option Str → Agent
  unfolding answer_idtoken get_id_token fail write_oidc_errno
  idtoken_confirmed g p short_name issuer scope hint =
      let granted = answer_idtoken (get_id_token w g p scope) p in
      let answer = w.get_confirmation true short_name issuer hint in
      if args.always_allow_idtoken || (g.accounts.heap p).always_allow_id
      then granted
      else if is_success answer
      then granted
      else write_oidc_errno (fail g answer)

  -- The request for the account of a given name.
  pub oidcd_handle_id_token : Agent → Str → Option Str → Option Str → Option Str → Agent
  unfolding get_loaded_unencrypted_account idtoken_confirmed
  oidcd_handle_id_token g name issuer scope hint =
      let (g1, found) = get_loaded_unencrypted_account b key w args g (some name) hint in
      elim found [ none ↦ g1 | some p ↦ idtoken_confirmed g1 p (some name) issuer scope hint ]
