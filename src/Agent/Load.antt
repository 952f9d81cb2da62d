-- ===== src/Agent/Load.antt =====
-- src/oidc-agent/oidcd/oidcd_handler.c: getting a loaded account with its secrets decrypted, loading it
-- first if need be, and the access tokens of src/oidc-agent/oidc/flows/access_token_handler.c.
pub mod Sealed
use oidc_agent.Prelude.{
  ℕ, zero, ◌+◌, Bool, true, false, ◌&&◌, Option, none, some, ltb, if◌then◌else◌, ℤ, pos, negsuc,
}
use oidc_agent.Text.{Str, codes, str_valid}
use oidc_agent.Crypt.Memory.{Base64}
use oidc_agent.Account.{Account, account_refresh_token_is_valid}
use oidc_agent.Accounts.{
  Accounts, store, db_add_account_encrypted, db_get_account_decrypted_by_shortname,
}
use oidc_agent.Agent.{
  Agent, World, Arguments, OidcError, success, euserpwcncl, enorefresh, earg_null_func, other,
  is_success, Message, response_error, response_error_info, update_issuer, send, with_accounts,
  fail, write_oidc_errno, alloc, update,
}

abbrev pub account_not_loaded : Str
account_not_loaded = codes "account not loaded"

-- `expires_at - now > min_valid_period`, for a difference that is positive.
outlasts : ℕ → ℕ → ℤ → Bool
outlasts now expires_at (pos m) = ltb (now + m) expires_at
outlasts now expires_at (negsuc m) = true

unfoldable pub token_is_valid_for_seconds : World → Account → ℤ → Bool
unfolding outlasts
token_is_valid_for_seconds w p min_valid_period =
    ltb w.now p.token_expires_at && outlasts w.now p.token_expires_at min_valid_period

-- FORCE_NEW_TOKEN is -1.
abbrev pub is_forced : ℤ → Bool
is_forced (negsuc zero) = true
is_forced _ = false

abbrev pub is_null : Option Str → Bool
is_null none = true
is_null (some s) = false

-- A stored access token is used if nothing special is asked of it and it is valid long enough.
unfoldable pub stored_token_serves : World → Account → ℤ → Option Str → Option Str → Bool
unfolding token_is_valid_for_seconds
stored_token_serves w p min_valid_period scope audience =
    is_null scope
    && is_null audience
    && (if is_forced min_valid_period then false else true)
    && str_valid p.access_token
    && token_is_valid_for_seconds w p min_valid_period

-- What a flow leaves: the account, the token if there is one, and the error.
unfoldable pub flow_result : Agent → ℕ → Account × Option Str × OidcError → Agent × Option Str
unfolding fail update
flow_result g p (a, token, e) = (fail (update g p a) e, token)

-- The token that a flow gives, if it gives one, and the account and the error that it leaves.
unfoldable pub try_refresh_flow :
    World → Bool → Agent → ℕ → Option Str → Option Str → Agent × Option Str
unfolding account_refresh_token_is_valid flow_result
try_refresh_flow w id g p scope audience =
    if account_refresh_token_is_valid (g.accounts.heap p)
    then flow_result g p (w.refresh_flow id (g.accounts.heap p) scope audience)
    else (fail g enorefresh, none)

unfoldable pub get_access_token_using_refresh_flow :
    World → Agent → ℕ → ℤ → Option Str → Option Str → Agent × Option Str
unfolding stored_token_serves try_refresh_flow
get_access_token_using_refresh_flow w g p min_valid_period scope audience =
    if stored_token_serves w (g.accounts.heap p) min_valid_period scope audience
    then (g, (g.accounts.heap p).access_token)
    else try_refresh_flow w false g p scope audience

-- getIdToken
unfoldable pub get_id_token : World → Agent → ℕ → Option Str → Agent × Option Str
unfolding try_refresh_flow
get_id_token w g p scope = try_refresh_flow w true g p scope none

-- db_addAccountEncrypted on the agent's accounts.
unfoldable pub reencrypt : Base64 → ℕ → Agent → ℕ → Agent
unfolding with_accounts
reencrypt b key g p = with_accounts g (db_add_account_encrypted b key g.accounts p)

-- RESPONSE_ERROR_INFO if there is help for the error, and the error alone if not.
unfoldable pub write_error_with_help : World → Agent → Agent
unfolding send write_oidc_errno
write_error_with_help w g = elim (w.help g.oidc_errno) [
  | none ↦ write_oidc_errno g
  | some h ↦ send g (response_error_info g.oidc_errno h)
]

module _ (b : Base64) (key : ℕ) (w : World) where
  -- The end of addAccount, once the account is known to work.
  unfoldable pub add_checked : Agent → ℕ → Agent × OidcError
  unfolding reencrypt send
  add_checked g p =
      let g1 = reencrypt b key g p in
      let a = g1.accounts.heap p in
      (send g1 (update_issuer a.issuer_url a.shortname (codes "add")), success)

  -- The test of addAccount that an access token can be had. An account that fails it is kept for ten
  -- seconds, so that no password is needed to authenticate again.
  add_token_checked : Agent × Option Str → ℕ → Agent × OidcError
  unfolding add_checked reencrypt update
  add_token_checked (g, some token) p = add_checked g p
  add_token_checked (g, none) p =
      let a = g.accounts.heap p in
      let g1 = reencrypt b key (update g p (record a { death = pos (w.now + 10) })) p in
      (g1, g1.oidc_errno)

  add_configured : Agent → ℕ → Bool → OidcError → Agent × OidcError
  unfolding add_token_checked add_checked get_access_token_using_refresh_flow
  add_configured g p plain_load success =
      if str_valid (g.accounts.heap p).token_endpoint
      then if plain_load
        then add_checked g p
        else add_token_checked (get_access_token_using_refresh_flow w g p (negsuc 0) none none) p
      else (g, g.oidc_errno)
  add_configured g p plain_load e = (g, e)

  unfoldable pub add_account : Agent → ℕ → Bool → Agent × OidcError
  unfolding add_configured fail update
  add_account g p plain_load =
      let (a, e) = w.obtain_issuer_config (g.accounts.heap p) in
      add_configured (fail (update g p a) e) p plain_load e

  -- The end of oidcd_autoload: there is no configuration, or it is that of an account.
  autoload_config : Agent → OidcError × Option Account → Agent × OidcError
  unfolding add_account alloc fail
  autoload_config g (e, none) = (fail g e, e)
  autoload_config g (e, some a) =
      let death = if ltb 0 g.default_timeout then w.now + g.default_timeout else 0 in
      add_account (alloc g (record a { death = pos death })) g.fresh false

  unfoldable pub oidcd_autoload : Agent → Option Str → Option Str → Option Str → Agent × OidcError
  unfolding autoload_config
  oidcd_autoload g short_name issuer hint = autoload_config g (w.autoload short_name issuer hint)

  unfoldable pub get_decrypted : Agent → Option Str → Agent × Option ℕ
  unfolding with_accounts
  get_decrypted g short_name =
      let (s, found) = db_get_account_decrypted_by_shortname b key g.accounts short_name in
      (with_accounts g s, found)

  after_autoload : Agent × OidcError → Option Str → Agent × Option ℕ
  unfolding get_decrypted send write_oidc_errno write_error_with_help
  after_autoload (g, success) short_name = elim ((get_decrypted g short_name).1) [
    | none ↦ (write_oidc_errno (get_decrypted g short_name).0, none)
    | some p ↦ ((get_decrypted g short_name).0, some p)
  ]
  after_autoload (g, euserpwcncl) short_name = (send g (response_error account_not_loaded), none)
  after_autoload (g, e) short_name = (write_error_with_help w g, none)

  unfoldable pub get_loaded_unencrypted_account :
      Arguments → Agent → Option Str → Option Str → Agent × Option ℕ
  unfolding get_decrypted after_autoload oidcd_autoload send
  get_loaded_unencrypted_account args g short_name hint = elim ((get_decrypted g short_name).1) [
    | some p ↦ ((get_decrypted g short_name).0, some p)
    | none ↦
        let g1 = (get_decrypted g short_name).0 in
        if args.no_autoload
        then (send g1 (response_error account_not_loaded), none)
        else after_autoload (oidcd_autoload g1 short_name none hint) short_name
  ]
