-- ===== src/Agent/Exchange/Entries.antt =====
-- src/oidc-agent/oidcd/codeExchangeEntry.c and deviceCodeEntry.c: what waits for the user, and what the
-- requests that end the waiting share.
use oidc_agent.Prelude.{
  ℕ, ◌==◌, Bool, not, ◌&&◌, ◌||◌, Option, none, some, List, [], ◌∷◌, remove_first, if◌then◌else◌, ℤ,
}
use oidc_agent.Text.{Str, codes, str_valid, strequal}
use oidc_agent.Account.{match_strings}
use oidc_agent.Agent.{
  Agent, World, OidcError, success, CodeExchangeEntry, DeviceCodeEntry, Message, response_error,
  response_status_access, response_status_config, update_issuer, term_http, send, fail, update,
}
use oidc_agent.Agent.Load.{is_forced, token_is_valid_for_seconds}

unfoldable pub cee_match_by_state : CodeExchangeEntry → CodeExchangeEntry → Bool
cee_match_by_state a b = match_strings a.state b.state

unfoldable pub dce_match : DeviceCodeEntry → DeviceCodeEntry → Bool
dce_match a b = match_strings a.device_code b.device_code

-- A write through the pointer to the first element that passes the test.
abbrev pub change_first : {A : Type 0} → (A → Bool) → (A → A) → List A → List A
change_first t f [] = []
change_first t f (x ∷ xs) = if t x then f x ∷ xs else x ∷ change_first t f xs

abbrev pub freed_with : Option ℕ → List ℕ → List ℕ
freed_with none l = l
freed_with (some p) l = p ∷ l

abbrev pub empty_code : CodeExchangeEntry
empty_code = record { state = none; account = none; code_verifier = none }

abbrev pub empty_device : DeviceCodeEntry
empty_device = record { device_code = none; account = none }

-- secFreeCodeExchangeContent, which sets the pointers of the entry to NULL, and its removal after that.
unfoldable pub free_code : Agent → CodeExchangeEntry → Agent
unfolding cee_match_by_state
free_code g cee = record g {
  codes =
      remove_first (cee_match_by_state empty_code)
        (change_first (cee_match_by_state cee) (λ x. empty_code) g.codes);
  freed = freed_with cee.account g.freed;
}

-- Its removal when the account lives on.
unfoldable pub spend_code : Agent → CodeExchangeEntry → Agent
unfolding cee_match_by_state
spend_code g cee = record g { codes = remove_first (cee_match_by_state cee) g.codes }

-- secFreeDeviceCodeEntryContent, and the removal.
unfoldable pub free_device : Agent → DeviceCodeEntry → Agent
unfolding dce_match
free_device g dce = record g {
  devices =
      remove_first (dce_match empty_device)
        (change_first (dce_match dce) (λ x. empty_device) g.devices);
  freed = freed_with dce.account g.freed;
}

-- The device code is set to NULL before the removal, which then looks for that.
unfoldable pub spend_device : Agent → DeviceCodeEntry → Agent
unfolding dce_match
spend_device g dce = record g {
  devices =
      remove_first (dce_match (record dce { device_code = none }))
        (change_first (dce_match dce) (λ x. record x { device_code = none }) g.devices);
}

unfoldable pub get_access_token_using_auth_code_flow :
    World → Agent → ℕ → Str → Str → Option Str → ℤ → Agent × OidcError
unfolding fail update
get_access_token_using_auth_code_flow w g p code used_redirect_uri code_verifier min_valid_period =
    let a = g.accounts.heap p in
    let (answered, e) = w.code_exchange a code used_redirect_uri code_verifier in
    if not (is_forced min_valid_period)
      && str_valid a.access_token
      && token_is_valid_for_seconds w a min_valid_period
    then (g, success)
    else (fail (update g p answered) e, e)

unfoldable pub get_access_token_using_device_flow :
    World → Agent → ℕ → Option Str → ℤ → Agent × OidcError
unfolding fail update
get_access_token_using_device_flow w g p device_code min_valid_period =
    let a = g.accounts.heap p in
    let (answered, e) = w.look_up_device_code a device_code in
    if not (is_forced min_valid_period)
      && str_valid a.access_token
      && token_is_valid_for_seconds w a min_valid_period
    then (g, success)
    else (fail (update g p answered) e, e)

-- The web server that waits for a state is killed.
unfoldable pub term_http_server : Agent → Option Str → Agent
unfolding send
term_http_server g none = g
term_http_server g (some state) = send g (term_http state)

unfoldable pub send_config : Agent → ℕ → Bool → Agent
unfolding send
send_config g p to_issuers =
    let a = g.accounts.heap p in
    send (if to_issuers then send g (update_issuer a.issuer_url a.shortname (codes "add")) else g)
      (response_status_config a)

unfoldable pub send_access : Agent → ℕ → Agent
unfolding send
send_access g p =
    let a = g.accounts.heap p in
    send g (response_status_access a.access_token a.issuer_url a.token_expires_at)

-- `state[2] == '1'`, for a state of at least three characters.
abbrev pub only_at_of : Str → Option Bool
only_at_of (a ∷ b ∷ c ∷ s) = some (c == b'1')
only_at_of _ = none

abbrev pub state_malformed : Message
state_malformed = response_error (codes "state malformed")

abbrev pub no_refresh_token : Message
no_refresh_token = response_error (codes "Could not get a refresh token")

-- The error texts by which the provider says that the user is not done yet.
abbrev pub pending_text : Str → Bool
pending_text t =
    strequal (some t) (some (codes "slow_down"))
    || strequal (some t) (some (codes "authorization_pending"))
