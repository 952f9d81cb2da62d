-- ===== src/Agent/Inform/Status.antt =====
-- src/oidc-agent/oidcd/oidcd_handler.c: the status of the agent, with the options it was started with.
use oidc_agent.Prelude.{
  ◌==◌, Bool, true, false, Option, none, some, List, [], ◌∷◌, ◌++◌, if◌then◌else◌, length, ◌>>=◌,
}
use oidc_agent.Text.{Str, codes}
use oidc_agent.Text.Number.{print_lu}
use oidc_agent.ListUtils.Delimited.{list_to_delimited_string}
use oidc_agent.Agent.{
  Agent, World, Arguments, response_success_info, response_success_info_object, send,
}
use oidc_agent.Agent.Gen.{text_of}
use oidc_agent.Agent.Inform.{get_name_list_loaded_accounts}

abbrev text_if : Bool → Str
text_if b = if b then codes "true" else codes "false"

abbrev text_unless : Bool → Str
text_unless b = if b then codes "false" else codes "true"

abbrev text_or_false : Option Str → Str
text_or_false none = codes "false"
text_or_false (some s) = s

unfoldable pub arguments_to_options_text : Arguments → Str
arguments_to_options_text args =
    codes "Lifetime:\t\t"
    ++ (if args.lifetime == 0 then codes "Forever" else print_lu args.lifetime ++ codes " seconds")
    ++ codes "\nConfirm:\t\t"
    ++ text_if args.confirm
    ++ codes "\nAutoload:\t\t"
    ++ text_unless args.no_autoload
    ++ codes "\nAuto Re-authenticate:\t"
    ++ text_unless args.no_autoreauthenticate
    ++ codes "\nUse custom URI scheme:\t"
    ++ text_unless args.no_scheme
    ++ codes "\nWebserver:\t\t"
    ++ text_unless args.no_webserver
    ++ codes "\nAllow ID-Token:\t\t"
    ++ text_if args.always_allow_idtoken
    ++ codes "\nGroup:\t\t\t"
    ++ text_or_false args.group
    ++ codes "\nDaemon:\t\t\t"
    ++ text_unless args.console
    ++ codes "\nLog Debug:\t\t"
    ++ text_if args.debug
    ++ codes "\nLog to stderr:\t\t"
    ++ text_if args.log_console
    ++ codes "\nTrace HTTP:\t\t"
    ++ text_or_false args.trace_http
    ++ codes "\n"

-- `if (b) list_rpush(...)`
abbrev option_if : Bool → Str → List Str
option_if true option = option ∷ []
option_if false option = []

-- The group is not printed, since the format has no place for it.
abbrev with_group : Option Str → List Str
with_group none = []
with_group (some group) = codes "--with-group" ∷ []

abbrev trace_option : Option Str → List Str
trace_option none = []
trace_option (some t) = (codes "--trace-http=" ++ t) ∷ []

unfoldable pub command_line_options : Arguments → List Str
command_line_options args =
    (if args.lifetime == 0 then [] else (codes "--lifetime=" ++ print_lu args.lifetime) ∷ [])
    ++ option_if args.confirm (codes "--confirm")
    ++ option_if args.no_autoload (codes "--no-autoload")
    ++ option_if args.no_autoreauthenticate (codes "--no-autoreauthenticate")
    ++ option_if args.no_scheme (codes "--no-scheme")
    ++ option_if args.no_webserver (codes "--no-webserver")
    ++ option_if args.always_allow_idtoken (codes "--always-allow-idtoken")
    ++ option_if args.always_allow_idtoken (codes "--always-allow-idtoken")
    ++ with_group args.group
    ++ option_if args.console (codes "--console")
    ++ option_if args.debug (codes "--debug")
    ++ option_if args.log_console (codes "--log-stderr")
    ++ trace_option args.trace_http

unfoldable pub arguments_to_command_line_options : Arguments → Option Str
unfolding command_line_options list_to_delimited_string
arguments_to_command_line_options args =
    list_to_delimited_string (some (command_line_options args)) (codes " ")

abbrev pub all_some : List (Option Str) → Option (List Str)
all_some [] = some []
all_some (none ∷ l) = none
all_some (some s ∷ l) = do rest ← all_some l; some (s ∷ rest)

unfoldable pub status_text : World → Arguments → List Str → Str
unfolding arguments_to_options_text list_to_delimited_string
status_text w args names =
    codes
      "####################################\n##       oidc-agent status        ##\n####################################\n"
    ++ codes "\nThis agent is running version "
    ++ w.version
    ++ codes ".\n\nThis agent was started with the following options:\n"
    ++ arguments_to_options_text args
    ++ codes "\nCurrently there are "
    ++ print_lu (length names)
    ++ codes " accounts loaded: "
    ++ text_of (list_to_delimited_string (some names) (codes ", "))
    ++ codes "\n\n"

unfoldable pub status_of_names : World → Arguments → Agent → Option (List Str) → Option Agent
unfolding status_text send
status_of_names w args g none = none
status_of_names w args g (some names) =
    some (send g (response_success_info (status_text w args names)))

-- There is no result if an account has no name, since the code then copies NULL.
unfoldable pub oidcd_handle_agent_status : World → Arguments → Agent → Option Agent
unfolding status_of_names get_name_list_loaded_accounts
oidcd_handle_agent_status w args g =
    status_of_names w args g (all_some (get_name_list_loaded_accounts g))

unfoldable pub oidcd_handle_agent_status_json : World → Arguments → Agent → Agent
unfolding arguments_to_command_line_options get_name_list_loaded_accounts send
oidcd_handle_agent_status_json w args g = send g (
    response_success_info_object (
      w.status_json w.version (arguments_to_command_line_options args)
        (get_name_list_loaded_accounts g)))
