-- ===== src/Agent/Gen/Flows.antt =====
-- src/oidc-agent/oidcd/oidcd_handler.c: one flow after the other, as _handleGenFlows tries them.
use oidc_agent.Prelude.{
  ℕ, ◌==◌, Bool, true, false, not, ◌&&◌, ◌||◌, Option, none, some, List, [], ◌∷◌, ◌++◌,
  if◌then◌else◌, ℤ, negsuc, length,
}
use oidc_agent.Text.{Str, codes, str_valid}
use oidc_agent.Text.Case.{strcaseequal}
use oidc_agent.Text.Number.{print_lu}
use oidc_agent.ListUtils.Delimited.{list_to_delimited_string}
use oidc_agent.Account.{Account}
use oidc_agent.Agent.{
  Agent, World, Arguments, OidcError, success, ecred, CodeExchangeEntry, DeviceCodeEntry,
  response_error, response_status_codeuri, response_accepted_device, send, fail, write_oidc_errno,
  update,
}
use oidc_agent.Agent.Add.{is_set, note_null}
use oidc_agent.Agent.Load.{
  is_null, is_forced, token_is_valid_for_seconds, get_access_token_using_refresh_flow,
}

abbrev pub flow_refresh : Str
flow_refresh = codes "refresh"

abbrev pub flow_password : Str
flow_password = codes "password"

abbrev pub flow_code : Str
flow_code = codes "code"

abbrev pub flow_device : Str
flow_device = codes "device"

abbrev pub flow_mt_oidc : Str
flow_mt_oidc = codes "mt_oidc"

abbrev pub text_of : Option Str → Str
text_of none = []
text_of (some s) = s

abbrev pub is_flow : Str → Str → Bool
is_flow s flow = strcaseequal (some s) (some flow)

-- parseFlow, with the error code before it; the default order is used when no flow is given.
unfoldable pub parse_flow : World → OidcError → Option Str → OidcError × Option (List Str)
parse_flow w e none = (e, some (flow_refresh ∷ flow_password ∷ flow_code ∷ flow_device ∷ []))
parse_flow w e (some []) = (e, some ([] ∷ []))
parse_flow w e (some (c ∷ s)) = if c == b'[' then w.json_array (c ∷ s) else (e, some ((c ∷ s) ∷ []))

-- A list of uris that is there counts, even if it is empty.
unfoldable pub has_redirect_uris : Account → Bool
has_redirect_uris a = not (is_null (list_to_delimited_string a.redirect_uris (codes " ")))

-- secFreeAccount
unfoldable pub free_account : Agent → ℕ → Agent
free_account g p = record g { freed = p ∷ g.freed }

unfoldable pub set_flow : Agent → ℕ → Str → Agent
unfolding update
set_flow g p flow = update g p (record (g.accounts.heap p) { flow = some flow })

-- tryPasswordFlow, with the error code that its caller sets.
unfoldable pub try_password_flow : World → Agent → ℕ → Option Str → Agent × OidcError
unfolding fail update
try_password_flow w g p scope =
    let a = g.accounts.heap p in
    let (answered, e) = w.password_flow a scope in
    if str_valid a.username && str_valid a.password
    then (fail (update g p answered) e, e)
    else (fail g ecred, ecred)

-- It is only called with FORCE_NEW_TOKEN here, but tests a stored token first.
unfoldable pub get_access_token_using_password_flow :
    World → Agent → ℕ → ℤ → Option Str → Agent × OidcError
unfolding try_password_flow
get_access_token_using_password_flow w g p min_valid_period scope =
    let a = g.accounts.heap p in
    if is_null scope
      && not (is_forced min_valid_period)
      && str_valid a.access_token
      && token_is_valid_for_seconds w a min_valid_period
    then (g, success)
    else try_password_flow w g p scope

-- One turn of the loop: the request ends, a flow has succeeded, or the next flow is tried.
pub data Turn : Type 0 where
  ended : Agent → Turn
  succeeded : Agent → Turn
  next : Agent → Turn

module _ (w : World) (args : Arguments) where
  -- `"%d%s:%lu:%s"`
  unfoldable pub new_state : Bool → Str
  new_state only_at =
      (if only_at then b'1' else b'0') ∷ w.random_state
      ++ b':' ∷ print_lu (length w.server_socket_path)
      ++ b':' ∷ w.to_base64_url_safe w.server_socket_path

  -- The end of initAuthCodeFlow, once the uri is built or not.
  unfoldable pub code_flow_built : Agent → ℕ → OidcError × Option Str × Str × Option Str → Agent
  unfolding send write_oidc_errno fail
  code_flow_built g p (e, none, state, verifier) = write_oidc_errno (fail g e)
  code_flow_built g p (e, some uri, state, verifier) =
      let entry : CodeExchangeEntry = record {
        state = some state;
        account = some p;
        code_verifier = verifier;
      } in
      send (record (fail g e) { codes = g.codes ++ entry ∷ [] }) (response_status_codeuri uri state)

  -- `arguments->no_… || strToInt(flag)`: the flag is read only if the argument is not set.
  unfoldable pub note_flag : Agent → Bool → Option Str → Agent
  unfolding note_null
  note_flag g argument flag = if argument then g else note_null g flag

  unfoldable pub init_auth_code_flow : Agent → ℕ → Option Str → Option Str → Bool → Agent
  unfolding note_flag update new_state code_flow_built
  init_auth_code_flow g p nowebserver noscheme only_at =
      let a = g.accounts.heap p in
      let a1 : Account = record a {
        no_webserver = a.no_webserver || args.no_webserver || is_set nowebserver;
        no_scheme = a.no_scheme || args.no_scheme || is_set noscheme;
      } in
      let g1 =
        update (note_flag (note_flag g args.no_webserver nowebserver) args.no_scheme noscheme) p
          a1 in
      code_flow_built g1 p (w.build_code_flow_uri a1 (new_state only_at) w.random_verifier only_at)

  -- A flow that failed: it ends the request if it is the only one.
  unfoldable pub failed_flow : Bool → Agent → ℕ → Turn
  unfolding free_account write_oidc_errno
  failed_flow only g p = if only then ended (free_account (write_oidc_errno g) p) else next g

  unfoldable pub refresh_turn : Agent × Option Str → ℕ → Bool → Bool → Turn
  unfolding failed_flow set_flow update
  refresh_turn (g, none) p only only_at = failed_flow only g p
  refresh_turn (g, some at) p only only_at =
      let g1 = set_flow g p flow_refresh in
      succeeded (
        if only_at
        then update g1 p (record (g1.accounts.heap p) { access_token = some at })
        else g1)

  unfoldable pub password_turn : Agent × OidcError → ℕ → Bool → Turn
  unfolding failed_flow set_flow
  password_turn (g, success) p only = succeeded (set_flow g p flow_password)
  password_turn (g, e) p only = failed_flow only g p

  -- The device flow, or the mytoken flow that works like it.
  unfoldable pub device_turn :
      Agent → ℕ → Bool → Bool → OidcError × Option (Option Str × Str) → Turn
  unfolding failed_flow set_flow send fail
  device_turn g p mytoken last (e, none) = failed_flow last (fail g e) p
  device_turn g p mytoken last (e, some (code, json)) =
      let entry : DeviceCodeEntry = record { device_code = code; account = some p } in
      let g1 : Agent = record (fail g e) { devices = g.devices ++ entry ∷ [] } in
      ended (
        set_flow (send g1 (response_accepted_device json)) p
          (if mytoken then flow_mt_oidc else flow_device))

  unfoldable pub with_scope : Agent → ℕ → Option Str → Agent
  unfolding update
  with_scope g p none = g
  with_scope g p (some scope) = update g p (record (g.accounts.heap p) { auth_scope = some scope })

  unfoldable pub refused_flow : Agent → ℕ → Str → Turn
  unfolding free_account send
  refused_flow g p text = ended (free_account (send g (response_error text)) p)

  -- `only`: it is the only flow; `last`: no flow is left.
  unfoldable pub try_flow :
      Agent → ℕ → Str → Bool → Bool → Option Str → Bool → Option Str → Option Str → Turn
  unfolding refresh_turn password_turn init_auth_code_flow set_flow device_turn with_scope
      refused_flow
  try_flow g p flow only last scope only_at nowebserver noscheme =
      let a = g.accounts.heap p in
      let mytoken = is_flow flow flow_mt_oidc in
      let g1 = with_scope g p scope in
      if is_flow flow flow_refresh
      then refresh_turn (get_access_token_using_refresh_flow w g p (negsuc 0) scope a.audience) p
          only only_at
      else if is_flow flow flow_password
      then password_turn (get_access_token_using_password_flow w g p (negsuc 0) scope) p only
      else if is_flow flow flow_code && has_redirect_uris a
      then ended (set_flow (init_auth_code_flow g p nowebserver noscheme only_at) p flow_code)
      else if is_flow flow flow_device || mytoken
      then device_turn g1 p mytoken last (w.init_device_flow mytoken (g1.accounts.heap p))
      else if is_flow flow flow_code
      then if last
        then refused_flow g p (codes "Only 'code' flow specified, but no redirect uris")
        else next g
      else refused_flow g p (codes "Unknown flow '" ++ flow ++ codes "'")

  abbrev pub is_empty : List Str → Bool
  is_empty [] = true
  is_empty (x ∷ xs) = false

  unfoldable pub gen_loop :
      Agent → ℕ → List Str → Bool → Option Str → Bool → Option Str → Option Str → Turn
  gen_loop g p [] only scope only_at nowebserver noscheme = next g
  gen_loop g p (flow ∷ flows) only scope only_at nowebserver noscheme =
      elim (try_flow g p flow only (is_empty flows) scope only_at nowebserver noscheme) [
        | ended h ↦ ended h
        | succeeded h ↦ succeeded h
        | next h ↦ gen_loop h p flows only scope only_at nowebserver noscheme
      ]
