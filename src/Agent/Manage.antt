-- ===== src/Agent/Manage.antt =====
-- src/oidc-agent/oidcd/oidcd_handler.c: the requests that take accounts out of the agent.
pub mod Removal
pub mod Registry
pub mod Sealed
use oidc_agent.Prelude.{Option, none, some, ◌++◌}
use oidc_agent.Text.{Str, codes}
use oidc_agent.Account.{Account, blank}
use oidc_agent.Accounts.{account_db_find_value, account_db_remove_if_found, account_db_reset}
use oidc_agent.Agent.{
  Agent, World, OidcError, success, Message, response_error, response_badrequest, response_success,
  update_issuer, send, with_accounts, fail, write_oidc_errno,
}
use oidc_agent.Agent.Load.{account_not_loaded}

abbrev no_name : Message
no_name =
    response_badrequest
      (codes "Have to provide shortname of the account config that should be removed.")

-- A key on the stack with a name only.
abbrev pub key_of : Str → Account
key_of name = record blank { shortname = some name }

unfoldable pub oidcd_handle_rm : Agent → Option Str → Agent
unfolding send with_accounts
oidcd_handle_rm g none = send g no_name
oidcd_handle_rm g (some account_name) =
    elim (account_db_find_value g.accounts (key_of account_name)) [
      | none ↦ send g (response_error account_not_loaded)
      | some p ↦
          send (with_accounts g (account_db_remove_if_found g.accounts (key_of account_name)))
            response_success
    ]

unfoldable pub oidcd_handle_remove_all : Agent → Agent
unfolding send with_accounts account_db_reset
oidcd_handle_remove_all g = send (with_accounts g (account_db_reset g.accounts)) response_success

-- The end of oidcd_handleDelete, after the revocation.
revoked : World → Agent → Account → OidcError → Agent
unfolding send with_accounts fail account_db_remove_if_found
revoked w g a success =
    let g1 = send g (update_issuer a.issuer_url a.shortname (codes "remove")) in
    send (with_accounts g1 (account_db_remove_if_found g1.accounts a)) response_success
revoked w g a e = send (fail g e) (response_error (codes "Could not revoke token: " ++ w.serror e))

configured : World → Agent → Account × OidcError → Agent
unfolding revoked write_oidc_errno fail
configured w g (a, success) = revoked w g a (w.revoke_token a)
configured w g (a, e) = write_oidc_errno (fail g e)

delete_parsed : World → Agent → OidcError × Option Account → Agent
unfolding configured write_oidc_errno fail
delete_parsed w g (e, none) = write_oidc_errno (fail g e)
delete_parsed w g (e, some a) = configured w g (w.obtain_issuer_config a)

-- The account that is read for the request is a key, and is freed at its end.
unfoldable pub oidcd_handle_delete : World → Agent → Option Str → Agent
unfolding delete_parsed
oidcd_handle_delete w g account_json = delete_parsed w g (w.get_account_from_json account_json)
