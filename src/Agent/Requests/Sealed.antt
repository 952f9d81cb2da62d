-- ===== src/Agent/Requests/Sealed.antt =====
-- Every run of requests and the secrets in memory.
use oidc_agent.Prelude.{ℕ, ◌≡◌, some, none, true}
use oidc_agent.Crypt.Memory.{Base64}
use oidc_agent.Agent.{Agent, World, Arguments, enotimpl, is_success}
use oidc_agent.Agent.Sealed.{Inv, Inv-fail, Inv-write_oidc_errno}
use oidc_agent.Agent.Token.Sealed.{
  oidcd_handle_token-Inv, oidcd_handle_mytoken-Inv, oidcd_handle_id_token-Inv,
}
use oidc_agent.Agent.Issuer.Sealed.{oidcd_handle_token_issuer-Inv, oidcd_handle_id_token_issuer-Inv}
use oidc_agent.Agent.Manage.Sealed.{oidcd_handle_rm-Inv, remove_all-Inv, delete-Inv}
use oidc_agent.Agent.Requests.{
  Request, access_token, mytoken, id_token, remove, remove_all, delete, handle, Reaches, here, step,
}

module _ (b : Base64) (key : ℕ) where
  -- The user agrees to a request for an id token when asked.
  abbrev pub Agreed : World → Request → Type 0
  Agreed w (id_token name issuer scope hint) =
      is_success (w.get_confirmation true name issuer hint) ≡ true
  Agreed w _ = Unit

  module _ (args : Arguments) where
    handle-Inv :
        (w : World) (r : Request) (g : Agent)
        → Agreed w r
        → Inv b key g
        → Inv b key (handle b key args w r g)
    unfolding handle
    handle-Inv w (access_token (some name) issuer min_valid scope hint audience) g ok h =
        oidcd_handle_token-Inv b key w args g (some name) min_valid scope hint audience h
    handle-Inv w (access_token none (some issuer) min_valid scope hint audience) g ok h =
        oidcd_handle_token_issuer-Inv b key w args g (some issuer) min_valid scope hint audience h
    handle-Inv w (access_token none none min_valid scope hint audience) g ok h =
        Inv-write_oidc_errno b key _ (Inv-fail b key g enotimpl h)
    handle-Inv w (mytoken name profile hint) g ok h =
        oidcd_handle_mytoken-Inv b key w args g name profile hint h
    handle-Inv w (id_token (some name) issuer scope hint) g ok h =
        oidcd_handle_id_token-Inv b key w args g name issuer scope hint ok h
    handle-Inv w (id_token none (some issuer) scope hint) g ok h =
        oidcd_handle_id_token_issuer-Inv b key w args g (some issuer) scope hint ok h
    handle-Inv w (id_token none none scope hint) g ok h =
        Inv-write_oidc_errno b key _ (Inv-fail b key g enotimpl h)
    handle-Inv w (remove name) g ok h = oidcd_handle_rm-Inv b key g name h
    handle-Inv w remove_all g ok h = remove_all-Inv b key g h
    handle-Inv w (delete json) g ok h = delete-Inv b key w g json h

    -- All requests of a run were agreed to.
    abbrev pub AllAgreed : {g h : Agent} → Reaches b key args g h → Type 0
    AllAgreed here = Unit
    AllAgreed (step w r rest) = Agreed w r × AllAgreed rest

    -- If the pointer of every loaded account was handed out by the agent, freed or not, and its
    -- secrets are encrypted, then so it is after any run of requests for access tokens, mytokens
    -- and id tokens, which may name an account or an issuer, and of removals and deletions, if the
    -- user agrees to every id token when asked.
    pub Reaches-Inv :
        {g h : Agent} (run : Reaches b key args g h) → AllAgreed run → Inv b key g → Inv b key h
    Reaches-Inv here ok h = h
    Reaches-Inv (step w r rest) ok h = Reaches-Inv rest ok.1 (handle-Inv w r _ ok.0 h)
