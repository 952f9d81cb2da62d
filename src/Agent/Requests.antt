-- ===== src/Agent/Requests.antt =====
-- The requests of src/oidc-agent/oidcd/oidcd_handler.c that are modelled, one after the other, as the main
-- loop of src/oidc-agent/oidcd/oidcd.c handles them while the agent is not locked. A request for an
-- access token or an id token names an account, or an issuer, or neither, which is refused.
pub mod Sealed
use oidc_agent.Prelude.{ℕ, Option, none, some, List, [], ◌∷◌}
use oidc_agent.Text.{Str}
use oidc_agent.Crypt.Memory.{Base64}
use oidc_agent.Agent.{Agent, World, Arguments, enotimpl, fail, write_oidc_errno}
use oidc_agent.Agent.Token.{oidcd_handle_token, oidcd_handle_mytoken, oidcd_handle_id_token}
use oidc_agent.Agent.Issuer.{oidcd_handle_token_issuer, oidcd_handle_id_token_issuer}
use oidc_agent.Agent.Manage.{oidcd_handle_rm, oidcd_handle_remove_all, oidcd_handle_delete}

pub data Request : Type 0 where
  -- account, issuer, min_valid, scope, application hint, audience
  access_token :
      Option Str → Option Str → Option Str → Option Str → Option Str → Option Str → Request
  -- account, profile, application hint
  mytoken : Option Str → Option Str → Option Str → Request
  -- account, issuer, scope, application hint
  id_token : Option Str → Option Str → Option Str → Option Str → Request
  remove : Option Str → Request
  remove_all : Request
  delete : Option Str → Request

module _ (b : Base64) (key : ℕ) (args : Arguments) where
  -- The branches of the main loop for these requests. A request is handled in the world of its time.
  unfoldable pub handle : World → Request → Agent → Agent
  unfolding write_oidc_errno fail
  handle w (access_token (some name) issuer min_valid scope hint audience) g =
      oidcd_handle_token b key w args g (some name) min_valid scope hint audience
  handle w (access_token none (some issuer) min_valid scope hint audience) g =
      oidcd_handle_token_issuer b key w args g (some issuer) min_valid scope hint audience
  handle w (access_token none none min_valid scope hint audience) g =
      write_oidc_errno (fail g enotimpl)
  handle w (mytoken name profile hint) g = oidcd_handle_mytoken b key w args g name profile hint
  handle w (id_token (some name) issuer scope hint) g =
      oidcd_handle_id_token b key w args g name issuer scope hint
  handle w (id_token none (some issuer) scope hint) g =
      oidcd_handle_id_token_issuer b key w args g (some issuer) scope hint
  handle w (id_token none none scope hint) g = write_oidc_errno (fail g enotimpl)
  handle w (remove name) g = oidcd_handle_rm g name
  handle w remove_all g = oidcd_handle_remove_all g
  handle w (delete json) g = oidcd_handle_delete w g json

  -- What a run of requests can lead to.
  pub data Reaches : Agent → Agent → Type 0 where
    here : {g : Agent} → Reaches g g
    step : {g h : Agent} (w : World) (r : Request) → Reaches (handle w r g) h → Reaches g h
