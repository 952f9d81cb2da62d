-- ===== src/Agent/Add.antt =====
-- src/oidc-agent/oidcd/oidcd_handler.c: the request that adds an account.
pub mod Sealed
use oidc_agent.Prelude.{
  ℕ, zero, suc, ◌+◌, ◌-◌, ◌==◌, Bool, true, false, not, ◌||◌, Option, none, some, ◌++◌, ltb,
  if◌then◌else◌, ℤ, pos, negsuc,
}
use oidc_agent.Text.{Str, codes, str_valid}
use oidc_agent.Text.Number.{str_to_int, atol, print_lu}
use oidc_agent.Text.Flags.{str_to_bit}
use oidc_agent.Crypt.Memory.{Base64, to_size}
use oidc_agent.Account.{Account}
use oidc_agent.Accounts.{db_get_account_decrypted}
use oidc_agent.Agent.{
  Agent, World, OidcError, success, earg_null_func, Message, response_success,
  response_success_info, send, with_accounts, fail, write_oidc_errno, alloc, update,
}
use oidc_agent.Agent.Load.{reencrypt, write_error_with_help, add_account}

abbrev pub same_time : ℤ → ℤ → Bool
same_time (pos a) (pos b) = a == b
same_time (negsuc a) (negsuc b) = a == b
same_time (pos a) (negsuc b) = false
same_time (negsuc a) (pos b) = false

-- `now + t`
abbrev pub add_time : ℕ → ℤ → ℤ
add_time now (pos t) = pos (now + t)
add_time now (negsuc t) = if ltb t now then pos (now - (t + 1)) else negsuc (t - now)

-- `t ? now + t : 0`
abbrev pub death_in : ℕ → ℤ → ℤ
death_in now t = if same_time t (pos 0) then pos 0 else add_time now t

abbrev pub is_positive : ℤ → Bool
is_positive (pos t) = ltb 0 t
is_positive (negsuc t) = false

-- strToInt of NULL sets the error code.
unfoldable pub note_null : Agent → Option Str → Agent
unfolding fail
note_null g none = fail g earg_null_func
note_null g (some s) = g

abbrev pub is_set : Option Str → Bool
is_set s = not (same_time (str_to_int s) (pos 0))

abbrev pub timeout_of : Agent → Option Str → ℤ
timeout_of g none = pos g.default_timeout
timeout_of g (some s) = if str_valid (some s) then atol s else pos g.default_timeout

-- The account with what the request says of it.
unfoldable pub requested : ℕ → ℤ → Option Str → Option Str → Account → Account
requested now timeout confirm always a = record a {
  death = death_in now timeout;
  confirmation_required = a.confirmation_required || is_set confirm;
  always_allow_id = a.always_allow_id || is_set always;
}

unfoldable pub lifetime_set : Str → ℤ → Str → Message
lifetime_set before timeout after =
    response_success_info (before ++ print_lu (to_size timeout) ++ after)

module _ (b : Base64) (key : ℕ) (w : World) where
  -- An account of the name is loaded, and its lifetime is set.
  unfoldable pub already_loaded : Agent → ℕ → ℤ → Account → Agent
  unfolding send update reencrypt lifetime_set
  already_loaded g p timeout a =
      let old = g.accounts.heap p in
      let kept = send g (response_success_info (codes "account already loaded.")) in
      let changed = send (update g p (record old { death = a.death })) (
        lifetime_set (codes "account already loaded. Lifetime set to ") timeout
          (codes " seconds.")) in
      reencrypt b key (if same_time old.death a.death then kept else changed) p

  unfoldable pub added : Agent × OidcError → ℤ → Agent
  unfolding send write_error_with_help lifetime_set
  added (g, success) timeout =
      if is_positive timeout
      then send g (lifetime_set (codes "Lifetime set to ") timeout (codes " seconds"))
      else send g response_success
  added (g, e) timeout = write_error_with_help w g

  unfoldable pub after_search : Agent × Option ℕ → Account → ℤ → Bool → Agent
  unfolding already_loaded added alloc add_account
  after_search (g, some p) a timeout plain = already_loaded g p timeout a
  after_search (g, none) a timeout plain =
      added (add_account b key w (alloc g a) g.fresh plain) timeout

  unfoldable pub search : Agent → Account → Agent × Option ℕ
  unfolding with_accounts
  search g a =
      let (s, found) = db_get_account_decrypted b key g.accounts a in (with_accounts g s, found)

  unfoldable pub add_unless_loaded : Agent → Account → ℤ → Bool → Agent
  unfolding search after_search
  add_unless_loaded g a timeout plain = after_search (search g a) a timeout plain

  unfoldable pub add_parsed :
      Agent → OidcError × Option Account → Option Str → Option Str → Option Str → Option Str → Agent
  unfolding add_unless_loaded write_oidc_errno fail note_null requested
  add_parsed g (e, none) timeout_str confirm always plain = write_oidc_errno (fail g e)
  add_parsed g (e, some a) timeout_str confirm always plain =
      let timeout = timeout_of g timeout_str in
      add_unless_loaded (note_null (note_null (fail g e) confirm) always)
        (requested w.now timeout confirm always a) timeout (str_to_bit plain)

  unfoldable pub oidcd_handle_add :
      Agent → Option Str → Option Str → Option Str → Option Str → Option Str → Agent
  unfolding add_parsed
  oidcd_handle_add g account_json timeout confirm always plain =
      add_parsed g (w.get_account_from_json account_json) timeout confirm always plain
