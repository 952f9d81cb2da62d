-- ===== src/Daemon/Sealed.antt =====
-- The secrets in memory over a turn of the main loop.
use oidc_agent.Prelude.{ℕ, ◌≡◌, refl, Bool, true, false, Option, none, some, List, if◌then◌else◌}
use oidc_agent.Text.{Str, codes}
use oidc_agent.Crypt.Memory.{Base64}
use oidc_agent.Accounts.Names.{HasDistinctNames}
use oidc_agent.Agent.{Agent, World, Arguments, Message, OidcError, is_success}
use oidc_agent.Agent.Sealed.{Inv, Inv-send, Inv-fail, Inv-write_oidc_errno}
use oidc_agent.Agent.Token.Sealed.{
  oidcd_handle_token-Inv, oidcd_handle_mytoken-Inv, oidcd_handle_id_token-Inv,
}
use oidc_agent.Agent.Issuer.Sealed.{oidcd_handle_token_issuer-Inv, oidcd_handle_id_token_issuer-Inv}
use oidc_agent.Agent.Manage.Sealed.{oidcd_handle_rm-Inv, remove_all-Inv, delete-Inv}
use oidc_agent.Agent.Add.Sealed.{oidcd_handle_add-Inv}
use oidc_agent.Agent.Gen.Handled.{IfSome, oidcd_handle_gen-Inv}
use oidc_agent.Agent.Exchange.{term_http_server}
use oidc_agent.Agent.Exchange.Aside.{AllAside, Inv-same}
use oidc_agent.Agent.Exchange.Sealed.{oidcd_handle_code_exchange-Inv}
use oidc_agent.Agent.Exchange.Devices.{oidcd_handle_device_lookup-Inv}
use oidc_agent.Agent.Exchange.States.{oidcd_handle_state_look_up-Inv}
use oidc_agent.Agent.Inform.{get_name_list_loaded_accounts, oidcd_handle_term_http}
use oidc_agent.Agent.Inform.Status.{
  all_some, status_of_names, oidcd_handle_agent_status, oidcd_handle_agent_status_json,
}
use oidc_agent.Agent.Inform.Answers.{
  Answered, oidcd_handle_register-Answered, oidcd_handle_scopes-Answered, providers_lookup-Answered,
  delete_client-Answered, list_loaded_accounts-Answered,
}
use oidc_agent.Files.{
  FileDummy, oidcd_handle_file_write, oidcd_handle_file_read, oidcd_handle_file_remove,
}
use oidc_agent.Lock.{PasswordCrypt}
use oidc_agent.Daemon.{
  Query, Daemon, with_files, handled, is_request, refuse, answer, is_null_text,
  request_access_token, request_id_token, dispatch_rest, dispatch, turn,
}

module _ (b : Base64) (key : ℕ) (c : PasswordCrypt) (r : ℕ → ℕ → ℕ) (args : Arguments) (w : World)
    (agreed : (name issuer hint : Option Str)
      → is_success (w.get_confirmation true name issuer hint) ≡ true) where
  -- A result that is there keeps the secrets encrypted.
  abbrev pub Keeps : Option Daemon → Type 0
  Keeps none = Unit
  Keeps (some d) = Inv b key d.agent

  Answered-Inv : (g h : Agent) → Answered g h → Inv b key g → Inv b key h
  Answered-Inv g h k i = Inv-same b key g h k.accounts k.fresh i

  refuse-Inv : (d : Daemon) (e : OidcError) → Inv b key d.agent → Inv b key (refuse d e).agent
  unfolding refuse
  refuse-Inv d e h = Inv-write_oidc_errno b key _ (Inv-fail b key d.agent e h)

  answer-Inv : (d : Daemon) (m : Message) → Inv b key d.agent → Inv b key (answer d m).agent
  unfolding answer
  answer-Inv d m h = Inv-send b key d.agent m h

  handled-Inv : (d : Daemon) (g : Option Agent) → IfSome b key w args g → Keeps (handled d g)
  handled-Inv d none h = tt
  handled-Inv d (some g) h = h

  files-Inv :
      (d : Daemon) (f : List FileDummy × Message)
      → Inv b key d.agent
      → Inv b key (with_files d f).agent
  unfolding with_files
  files-Inv d (l, m) h = answer-Inv (record d { files = l }) m h

  term_http-Inv :
      (g : Agent) (state : Option Str) → Inv b key g → Inv b key (oidcd_handle_term_http g state)
  unfolding oidcd_handle_term_http term_http_server
  term_http-Inv g none h = Inv-send b key g _ h
  term_http-Inv g (some s) h = Inv-send b key _ _ (Inv-send b key g _ h)

  names-Inv :
      (g : Agent) (names : Option (List Str))
      → Inv b key g
      → IfSome b key w args (status_of_names w args g names)
  unfolding status_of_names
  names-Inv g none h = tt
  names-Inv g (some names) h = Inv-send b key g _ h

  status-Inv : (g : Agent) → Inv b key g → IfSome b key w args (oidcd_handle_agent_status w args g)
  unfolding oidcd_handle_agent_status
  status-Inv g h = names-Inv g (all_some (get_name_list_loaded_accounts g)) h

  status_json-Inv : (g : Agent) → Inv b key g → Inv b key (oidcd_handle_agent_status_json w args g)
  unfolding oidcd_handle_agent_status_json
  status_json-Inv g h = Inv-send b key g _ h

  access_token-Inv :
      (d : Daemon) (q : Query) (name issuer : Option Str)
      → Inv b key d.agent
      → Inv b key (request_access_token b key c r args w d q name issuer).agent
  unfolding request_access_token
  access_token-Inv d q (some name) issuer h =
      oidcd_handle_token-Inv b key w args d.agent (some name) _ _ _ _ h
  access_token-Inv d q none (some issuer) h =
      oidcd_handle_token_issuer-Inv b key w args d.agent (some issuer) _ _ _ _ h
  access_token-Inv d q none none h = refuse-Inv d _ h

  id_token-Inv :
      (d : Daemon) (q : Query) (name issuer : Option Str)
      → Inv b key d.agent
      → Inv b key (request_id_token b key c r args w d q name issuer).agent
  unfolding request_id_token
  id_token-Inv d q (some name) issuer h =
      oidcd_handle_id_token-Inv b key w args d.agent name issuer q.scope q.application_hint
        (agreed (some name) issuer q.application_hint) h
  id_token-Inv d q none (some issuer) h =
      oidcd_handle_id_token_issuer-Inv b key w args d.agent (some issuer) q.scope q.application_hint
        (agreed none (some issuer) q.application_hint) h
  id_token-Inv d q none none h = refuse-Inv d _ h

  choose :
      (t : Bool) (x y : Option Daemon) → (t ≡ true → Keeps x) → Keeps y → Keeps (if t then x else y)
  choose true x y h k = h refl
  choose false x y h k = k

  -- A request that the hypothesis excludes.
  excluded : (t : Bool) (x y : Option Daemon) → t ≡ false → Keeps y → Keeps (if t then x else y)
  excluded true x y e k = cc
  excluded false x y e k = k

  module _ (d : Daemon) (q : Query) (inv : Inv b key d.agent) (aside : AllAside b key d.agent)
      (distinct : HasDistinctNames d.agent.accounts) (no_lock : is_request q (codes "lock") ≡ false)
      (no_reauthenticate : is_request q (codes "reauthenticate") ≡ false) where
    rest-Inv : Keeps (dispatch_rest b key c r args w d q)
    unfolding dispatch_rest
    rest-Inv =
        choose (is_request q (codes "mytoken")) _ _
          (λ e. oidcd_handle_mytoken-Inv b key w args d.agent _ _ _ inv)
          (choose (is_request q (codes "register")) _ _
            (λ e. Answered-Inv d.agent _ (oidcd_handle_register-Answered w d.agent _ _ _) inv)
            (choose (is_request q (codes "term_http_server")) _ _ (λ e. term_http-Inv d.agent _ inv)
              (choose (is_request q (codes "file_write")) _ _
                (λ e.
                  files-Inv d (oidcd_handle_file_write b key d.files q.filename q.data_value) inv)
                (choose (is_request q (codes "file_read")) _ _
                  (λ e. files-Inv d (oidcd_handle_file_read b key d.files q.filename) inv)
                  (choose (is_request q (codes "file_remove")) _ _
                    (λ e. files-Inv d (oidcd_handle_file_remove d.files q.filename) inv)
                    (choose (is_request q (codes "scopes")) _ _
                      (λ e.
                        Answered-Inv d.agent _ (oidcd_handle_scopes-Answered w d.agent _ _ _) inv)
                      (choose (is_request q (codes "mytoken_supported_providers")) _ _
                        (λ e.
                          Answered-Inv d.agent _ (providers_lookup-Answered w d.agent _ _ _) inv)
                        (choose (is_request q (codes "loaded_accounts")) _ _
                          (λ e. Answered-Inv d.agent _ (list_loaded_accounts-Answered d.agent) inv)
                          (excluded (is_request q (codes "lock")) _ _ no_lock (
                            choose (is_request q (codes "unlock")) _ _ (λ e. refuse-Inv d _ inv)
                              (answer-Inv d _ inv)))))))))))

    dispatch-Inv : Keeps (dispatch b key c r args w d q)
    unfolding dispatch
    dispatch-Inv =
        choose (is_request q (codes "gen")) _ _
          (λ e. handled-Inv d _ (oidcd_handle_gen-Inv b key w args d.agent _ _ _ _ _ inv))
          (excluded (is_request q (codes "reauthenticate")) _ _ no_reauthenticate (
            choose (is_request q (codes "code_exchange")) _ _
              (λ e. oidcd_handle_code_exchange-Inv b key w d.agent _ _ aside inv)
              (choose (is_request q (codes "state_lookup")) _ _
                (λ e. oidcd_handle_state_look_up-Inv b key w d.agent _ distinct inv)
                (choose (is_request q (codes "device")) _ _
                  (λ e. oidcd_handle_device_lookup-Inv b key w d.agent _ _ aside inv)
                  (choose (is_request q (codes "add")) _ _
                    (λ e. oidcd_handle_add-Inv b key w d.agent _ _ _ _ _ inv)
                    (choose (is_request q (codes "remove")) _ _
                      (λ e. oidcd_handle_rm-Inv b key d.agent _ inv)
                      (choose (is_request q (codes "remove_all")) _ _
                        (λ e. remove_all-Inv b key d.agent inv)
                        (choose (is_request q (codes "delete")) _ _
                          (λ e. delete-Inv b key w d.agent _ inv)
                          (choose (is_request q (codes "delete_client")) _ _
                            (λ e.
                              Answered-Inv d.agent _ (delete_client-Answered w d.agent _ _ _) inv)
                            (choose (is_request q (codes "status")) _ _
                              (λ e. handled-Inv d _ (status-Inv d.agent inv))
                              (choose (is_request q (codes "status_json")) _ _
                                (λ e. status_json-Inv d.agent inv)
                                (choose (is_request q (codes "access_token")) _ _
                                  (λ e. access_token-Inv d q _ _ inv)
                                  (choose (is_request q (codes "id_token")) _ _
                                    (λ e. id_token-Inv d q _ _ inv) rest-Inv)))))))))))))

    -- If the agent is not locked, the pointer of every loaded account was handed out by the agent,
    -- freed or not, its secrets are encrypted, the names of the loaded accounts are distinct, and
    -- the accounts that wait for the user are not loaded, then the first two hold after any
    -- request, known or not, but for those to lock and to authenticate again, where it has a
    -- result, if the user agrees to every id token when asked.
    pub turn-Inv : d.locked ≡ false → Keeps (turn b key c r args w d q)
    unfolding turn
    turn-Inv unlocked =
        choose (is_null_text b key c r args w q.request) _ _ (λ e. answer-Inv d _ inv)
          (choose (is_request q (codes "check")) _ _ (λ e. answer-Inv d _ inv)
            (excluded d.locked _ _ unlocked dispatch-Inv))
