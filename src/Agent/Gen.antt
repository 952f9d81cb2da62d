-- ===== src/Agent/Gen.antt =====
-- src/oidc-agent/oidcd/oidcd_handler.c: getting the first tokens of an account by one flow or another.
mod Flows
pub mod Sealed
pub mod Handled
pub mod Dangling
pub mod Returns
mod Examples
unfoldable pub use Flows.*
use oidc_agent.Prelude.{
  ℕ, zero, suc, ◌+◌, ◌-◌, ◌==◌, Bool, true, false, not, ◌&&◌, ◌||◌, Option, none, some, List, [],
  ◌∷◌, ◌++◌, if◌then◌else◌, ℤ, pos, negsuc, length, ltb,
}
use oidc_agent.Text.{Str, codes, str_valid}
use oidc_agent.Text.Remove.{remove_scope}
use oidc_agent.Text.Case.{strcaseequal}
use oidc_agent.Text.Number.{str_to_int, print_lu}
use oidc_agent.Crypt.Memory.{Base64}
use oidc_agent.ListUtils.Delimited.{list_to_delimited_string}
use oidc_agent.Account.{Account, account_refresh_token_is_valid}
use oidc_agent.Agent.{
  Agent, World, Arguments, OidcError, success, ecred, is_success, CodeExchangeEntry,
  DeviceCodeEntry, Message, response_error, response_status_codeuri, response_accepted_device,
  response_status_access, response_status_config, update_issuer, send, fail, write_oidc_errno,
  alloc, update,
}
use oidc_agent.Agent.Add.{is_set, add_time, note_null}
use oidc_agent.Agent.Load.{
  reencrypt, is_null, is_forced, token_is_valid_for_seconds, get_access_token_using_refresh_flow,
  get_loaded_unencrypted_account,
}
use oidc_agent.Agent.Token.{no_shortname}

module _ (b : Base64) (key : ℕ) (w : World) (args : Arguments) where
  -- After the loop; the flag says whether a flow has succeeded.
  unfoldable pub finished : Agent → ℕ → Bool → Bool → Agent
  unfolding send reencrypt free_account
  finished g p won only_at =
      let a = g.accounts.heap p in
      if won && account_refresh_token_is_valid a && not only_at
      then reencrypt b key
          (send (send g (update_issuer a.issuer_url a.shortname (codes "add")))
            (response_status_config a))
          p
      else if won && only_at && str_valid a.access_token
      then free_account
          (send g (response_status_access a.access_token a.issuer_url a.token_expires_at)) p
      else free_account
          (send g (
            response_error (
              if won && not only_at
              then codes "OIDP response does not contain a refresh token"
              else codes "No flow was successful.")))
          p

  unfoldable pub gen_finish : Agent → ℕ → Bool → Bool → Agent
  unfolding update finished
  gen_finish g p won only_at =
      finished (update g p (record (g.accounts.heap p) { username = none; password = none })) p won
        only_at

  unfoldable pub gen_end : Turn → ℕ → Bool → Agent
  unfolding gen_finish
  gen_end (ended g) p only_at = g
  gen_end (succeeded g) p only_at = gen_finish g p true only_at
  gen_end (next g) p only_at = gen_finish g p false only_at

  abbrev pub is_single : List Str → Bool
  is_single (x ∷ []) = true
  is_single _ = false

  -- The list of flows is read as JSON by the code; there is no result where that fails, since the code
  -- then reads through NULL.
  unfoldable pub handle_gen_flows :
      Agent → ℕ → Option Str → Option Str → Bool → Option Str → Option Str → Option Agent
  unfolding gen_end gen_loop fail
  handle_gen_flows g p flow scope only_at nowebserver noscheme =
      let (e, flows) = parse_flow w g.oidc_errno flow in
      elim flows [
        | none ↦ none
        | some l ↦ some (
            gen_end
              (gen_loop w args (fail g e) p l (is_single l) scope only_at nowebserver noscheme) p
              only_at)
      ]

  -- The scope that is asked for: with only an access token wanted, no offline access.
  unfoldable pub gen_scope : Account → Bool → Option (Option Str)
  gen_scope a only_at =
      if only_at then remove_scope a.auth_scope (codes "offline_access") else some none

  unfoldable pub gen_configured :
      Agent → ℕ → OidcError → Option Str → Option Str → Option Str → Option Str → Option Agent
  unfolding note_null handle_gen_flows gen_scope write_oidc_errno free_account
  gen_configured g p success flow nowebserver noscheme only_at_str =
      let only_at = is_set only_at_str in
      if str_valid (g.accounts.heap p).token_endpoint
      then elim (gen_scope (g.accounts.heap p) only_at) [
        | none ↦ none
        | some scope ↦
            handle_gen_flows (note_null g only_at_str) p flow scope only_at nowebserver noscheme
      ]
      else some (free_account (write_oidc_errno g) p)
  gen_configured g p e flow nowebserver noscheme only_at_str =
      some (write_oidc_errno (free_account g p))

  unfoldable pub gen_parsed :
      Agent
      → OidcError × Option Account
      → Option Str
      → Option Str
      → Option Str
      → Option Str
      → Option Agent
  unfolding gen_configured write_oidc_errno fail alloc update
  gen_parsed g (e, none) flow nowebserver noscheme only_at_str = some (write_oidc_errno (fail g e))
  gen_parsed g (e, some a) flow nowebserver noscheme only_at_str =
      let (configured, err) = w.obtain_issuer_config a in
      gen_configured (fail (alloc g configured) err) g.fresh err flow nowebserver noscheme
        only_at_str

  unfoldable pub oidcd_handle_gen :
      Agent → Option Str → Option Str → Option Str → Option Str → Option Str → Option Agent
  unfolding gen_parsed
  oidcd_handle_gen g account_json flow nowebserver noscheme only_at_str =
      gen_parsed g (w.get_account_from_json account_json) flow nowebserver noscheme only_at_str

  -- The flows for an account that authenticates again, as JSON.
  unfoldable pub reauthenticate_flows : Account → Str
  reauthenticate_flows a =
      if str_valid a.flow
      then codes "[\"" ++ text_of a.flow ++ codes "\"]"
      else if is_null a.mytoken_url
      then codes "[\"password\",\"device\",\"code\"]"
      else codes "[\"mt_oidc\"]"

  unfoldable pub reauthenticate_found : Agent × Option ℕ → Option Agent
  unfolding send update handle_gen_flows reauthenticate_flows
  reauthenticate_found (g, none) =
      some (send g (response_error (codes "Could not get account config")))
  reauthenticate_found (g, some p) =
      let a = g.accounts.heap p in
      let death = if args.lifetime == 0 then pos 0 else pos (args.lifetime + w.now) in
      handle_gen_flows (update g p (record a { death = death })) p (some (reauthenticate_flows a))
        none false none (some (codes "1"))

  unfoldable pub oidcd_handle_reauthenticate : Agent → Option Str → Option Agent
  unfolding send reauthenticate_found
  oidcd_handle_reauthenticate g none = some (send g no_shortname)
  oidcd_handle_reauthenticate g (some name) =
      reauthenticate_found (get_loaded_unencrypted_account b key w args g (some name) none)
