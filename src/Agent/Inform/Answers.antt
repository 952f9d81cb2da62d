-- ===== src/Agent/Inform/Answers.antt =====
-- Requests for information give one answer each, and leave the accounts alone.
use oidc_agent.Prelude.{
  ◌≡◌, refl, inl, inr, not, Option, none, some, List, [], ◌∷◌, ◌++◌, ℕ, Bool-cases,
}
use oidc_agent.Text.{Str, codes}
use oidc_agent.Account.{Account}
use oidc_agent.Agent.{Agent, World, OidcError, success, Message, send, fail, write_oidc_errno}
use oidc_agent.Agent.Inform.{
  read_flows, lacks_scopes, registered, register_answer, register_flows, register_configured,
  register_search, register_parsed, oidcd_handle_register, scopes_found, oidcd_handle_scopes,
  providers_found, oidcd_handle_mytoken_providers_lookup, client_deleted,
  oidcd_handle_delete_client, oidcd_handle_list_loaded_accounts,
}

-- One message is sent, and nothing that is stored has changed.
pub record Answered (g h : Agent) : Type 0 where
  pub accounts : h.accounts ≡ g.accounts
  pub fresh : h.fresh ≡ g.fresh
  pub codes : h.codes ≡ g.codes
  pub devices : h.devices ≡ g.devices
  pub answer : (m : Message) × (h.sent ≡ g.sent ++ m ∷ [])

pub send-Answered : (g : Agent) (m : Message) → Answered g (send g m)
unfolding send
send-Answered g m = record {
  accounts = refl;
  fresh = refl;
  codes = refl;
  devices = refl;
  answer = (m, refl);
}

fail-send-Answered : (g : Agent) (e : OidcError) (m : Message) → Answered g (send (fail g e) m)
unfolding send fail
fail-send-Answered g e m = record {
  accounts = refl;
  fresh = refl;
  codes = refl;
  devices = refl;
  answer = (m, refl);
}

fail-Answered : (g h : Agent) (e : OidcError) → Answered (fail g e) h → Answered g h
unfolding fail
fail-Answered g h e k = record {
  accounts = k.accounts;
  fresh = k.fresh;
  codes = k.codes;
  devices = k.devices;
  answer = k.answer;
}

pub failed-Answered : (g : Agent) (e : OidcError) → Answered g (write_oidc_errno (fail g e))
unfolding write_oidc_errno
failed-Answered g e = fail-send-Answered g e _

module _ (w : World) where
  registered-Answered : (g : Agent) (a : Account) (res : Str) → Answered g (registered w g a res)
  unfolding registered
  registered-Answered g a res = elim (Bool-cases (not (w.is_json_object res))) [
    | inl e ↦ simp (e, registered) (send-Answered g _)
    | inr e ↦ elim (Bool-cases (w.json_has_key res (codes "error"))) [
      | inl f ↦ simp (e, f, registered) (send-Answered g _)
      | inr f ↦ elim (Bool-cases (lacks_scopes w a (w.json_value res (codes "scope")))) [
        | inl k ↦ simp (e, f, k, registered) (fail-send-Answered g _ _)
        | inr k ↦ simp (e, f, k, registered) (send-Answered g _)
      ]
    ]
  ]

  answer-Answered :
      (g : Agent) (a : Account) (r : OidcError × Option Str) → Answered g (register_answer w g a r)
  unfolding register_answer
  answer-Answered g a (e, none) = failed-Answered g e
  answer-Answered g a (e, some res) = fail-Answered g _ e (registered-Answered (fail g e) a res)

  flows-Answered :
      (g : Agent) (a : Account) (r : OidcError × Option (List Str)) (token : Option Str)
      → Answered g (register_flows w g a r token)
  unfolding register_flows
  flows-Answered g a (e, none) token = failed-Answered g e
  flows-Answered g a (e, some flows) token = fail-Answered g _ e (answer-Answered (fail g e) a _)

  configured-Answered :
      (g : Agent) (r : Account × OidcError) (flows token : Option Str)
      → Answered g (register_configured w g r flows token)
  unfolding register_configured
  configured-Answered g (a, success) flows token =
      fail-Answered g _ success (flows-Answered (fail g success) a (read_flows w flows) token)
  configured-Answered g (a, e) flows token = failed-Answered g e

  search-Answered :
      (g : Agent) (a : Account) (found : Option ℕ) (flows token : Option Str)
      → Answered g (register_search w g a found flows token)
  unfolding register_search
  search-Answered g a (some p) flows token = send-Answered g _
  search-Answered g a none flows token =
      configured-Answered g (w.obtain_issuer_config a) flows token

  parsed-Answered :
      (g : Agent) (r : OidcError × Option Account) (flows token : Option Str)
      → Answered g (register_parsed w g r flows token)
  unfolding register_parsed
  parsed-Answered g (e, none) flows token = failed-Answered g e
  parsed-Answered g (e, some a) flows token =
      fail-Answered g _ e (search-Answered (fail g e) a _ flows token)

  -- A request to register a client gets one answer on every path, and changes no account, loaded or
  -- waiting.
  pub oidcd_handle_register-Answered :
      (g : Agent) (account_json flows_json_str access_token : Option Str)
      → Answered g (oidcd_handle_register w g account_json flows_json_str access_token)
  unfolding oidcd_handle_register
  oidcd_handle_register-Answered g account_json flows_json_str access_token =
      parsed-Answered g (w.get_account_from_json account_json) flows_json_str access_token

  scopes_found-Answered : (g : Agent) (r : OidcError × Option Str) → Answered g (scopes_found w g r)
  unfolding scopes_found
  scopes_found-Answered g (e, none) = failed-Answered g e
  scopes_found-Answered g (e, some scopes) = fail-send-Answered g e _

  providers_found-Answered :
      (g : Agent) (r : OidcError × Option Str) → Answered g (providers_found w g r)
  unfolding providers_found
  providers_found-Answered g (e, none) = failed-Answered g e
  providers_found-Answered g (e, some providers) = fail-send-Answered g e _

  pub oidcd_handle_scopes-Answered :
      (g : Agent) (issuer endpoint path : Option Str)
      → Answered g (oidcd_handle_scopes w g issuer endpoint path)
  unfolding oidcd_handle_scopes
  oidcd_handle_scopes-Answered g none none path = send-Answered g _
  oidcd_handle_scopes-Answered g (some i) endpoint path = scopes_found-Answered g _
  oidcd_handle_scopes-Answered g none (some e) path = scopes_found-Answered g _

  pub providers_lookup-Answered :
      (g : Agent) (url endpoint path : Option Str)
      → Answered g (oidcd_handle_mytoken_providers_lookup w g url endpoint path)
  unfolding oidcd_handle_mytoken_providers_lookup
  providers_lookup-Answered g none none path = send-Answered g _
  providers_lookup-Answered g (some i) endpoint path = providers_found-Answered g _
  providers_lookup-Answered g none (some e) path = providers_found-Answered g _

  client_deleted-Answered : (g : Agent) (e : OidcError) → Answered g (client_deleted w g e)
  unfolding client_deleted
  client_deleted-Answered g success = fail-send-Answered g success _
  client_deleted-Answered g _ = fail-send-Answered g _ _

  pub delete_client-Answered :
      (g : Agent) (uri token path : Option Str)
      → Answered g (oidcd_handle_delete_client w g uri token path)
  unfolding oidcd_handle_delete_client
  delete_client-Answered g uri token path = client_deleted-Answered g _

pub list_loaded_accounts-Answered : (g : Agent) → Answered g (oidcd_handle_list_loaded_accounts g)
unfolding oidcd_handle_list_loaded_accounts
list_loaded_accounts-Answered g = send-Answered g _
