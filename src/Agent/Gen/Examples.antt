-- ===== src/Agent/Gen/Examples.antt =====
-- Tests of the first tokens and of authenticating again.
use oidc_agent.Prelude.{◌≡◌, ◌↔◌, refl, inl, none, some, [], ◌∷◌, In}
use oidc_agent.Text.{Str, codes, str_valid, strequal}
use oidc_agent.Account.{Account}
use oidc_agent.Crypt.Examples.{letters}
use oidc_agent.Agent.{Agent, World, success, einternal}
use oidc_agent.Agent.Examples.{world, careful, agent}
use oidc_agent.Text.Number.{str_to_int}
use oidc_agent.Agent.Gen.{parse_flow, oidcd_handle_gen, reauthenticate_found}
use oidc_agent.Agent.Gen.Returns.{IsReady, Fault, oidcd_handle_gen-none_iff}
use oidc_agent.Agent.Gen.Dangling.{reauthenticate_found-dangles}

abbrev reader : World
reader = record (world success) { json_array = λ s. (success, some (codes "password" ∷ [])) }

reauthenticate_found-dangles_example :
    (h : Agent) × (reauthenticate_found letters 77 reader careful (agent, some 0) ≡ some h)
    × In 0 h.accounts.loaded
    × In 0 h.freed
unfolding oidc_agent.Text.Case.strcaseequal oidc_agent.Text.strequal oidc_agent.Text.Case.strlower
    oidc_agent.Accounts.encrypt_account
reauthenticate_found-dangles_example =
    reauthenticate_found-dangles letters 77 reader careful agent 0 success (codes "password")
      (inl refl) refl refl refl refl

-- A list of flows that cannot be read.
abbrev refuser : World
refuser = record (world success) {
  obtain_issuer_config =
      λ a. (record a { token_endpoint = some (codes "https://a/token") }, success);
  json_array = λ s. (einternal, none);
}

oidcd_handle_gen-none_iff_example :
    (oidcd_handle_gen letters 77 refuser careful agent
        (some (codes "{}"))
        (some (codes "[x"))
        none
        none
        none
      ≡ none)
    ↔ ((a : Account) × IsReady refuser (some (codes "{}")) a
        × Fault refuser a (some (codes "[x")) none)
oidcd_handle_gen-none_iff_example =
    oidcd_handle_gen-none_iff letters 77 refuser careful agent (some (codes "{}"))
      (some (codes "[x")) none none none

-- That request has no result.
no_result :
    oidcd_handle_gen letters 77 refuser careful agent
      (some (codes "{}"))
      (some (codes "[x"))
      none
      none
      none
    ≡ none
unfolding oidcd_handle_gen str_valid strequal str_to_int parse_flow
no_result = refl
