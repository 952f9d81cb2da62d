-- ===== src/Agent/Issuer.antt =====
-- src/oidc-agent/oidcd/oidcd_handler.c: the requests for a token of an issuer, where the agent chooses the
-- account.
pub mod Sealed
use oidc_agent.Prelude.{
  ℕ, Bool, true, false, ◌&&◌, ◌||◌, not, Option, none, some, List, [], ◌∷◌, if◌then◌else◌,
}
use oidc_agent.Text.{Str, codes}
use oidc_agent.Crypt.Memory.{Base64}
use oidc_agent.Account.{Account}
use oidc_agent.Accounts.{Accounts, store, decrypt_account, db_find_accounts_by_issuer_url}
use oidc_agent.Agent.{
  Agent, World, Arguments, OidcError, success, euserpwcncl, is_success, Message, response_error,
  autogen, send, with_accounts, fail, write_oidc_errno, update,
}
use oidc_agent.Agent.Load.{
  account_not_loaded, reencrypt, write_error_with_help, oidcd_autoload, get_decrypted,
  get_access_token_using_refresh_flow,
}
use oidc_agent.Agent.Token.{period, answer_token, idtoken_confirmed}

abbrev pub last_of : ℕ → List ℕ → ℕ
last_of p [] = p
last_of p (q ∷ ps) = last_of q ps

-- AGENT_SCOPE_ALL is "max".
abbrev pub autogen_scope : World → Option Str → Option Str
autogen_scope w scope = if w.autogen_exact then scope else some (codes "max")

abbrev or_empty : Option Str → Option Str
or_empty none = some []
or_empty (some s) = some s

module _ (b : Base64) (key : ℕ) (w : World) (args : Arguments) where
  -- The switch on the result of the autoload, for the default account.
  unfoldable pub after_autoload_issuer : Agent × OidcError → Option Str → Agent × Option ℕ
  unfolding send write_error_with_help
  after_autoload_issuer (g, success) default = get_decrypted b key w g default
  after_autoload_issuer (g, euserpwcncl) default =
      (send g (response_error account_not_loaded), none)
  after_autoload_issuer (g, e) default = (write_error_with_help w g, none)

  unfoldable pub load_for_issuer :
      Agent → Option Str → Option Str → Option Str → Option Str → Agent × Option ℕ
  unfolding send after_autoload_issuer
  load_for_issuer g none issuer scope hint =
      if w.autogen
      then (send g (autogen issuer (autogen_scope w scope) (or_empty hint)), none)
      else after_autoload_issuer (oidcd_autoload b key w g none issuer hint) none
  load_for_issuer g (some name) issuer scope hint =
      after_autoload_issuer (oidcd_autoload b key w g (some name) issuer hint) (some name)

  -- No account of the issuer is loaded.
  unfoldable pub none_for_issuer : Agent → Option Str → Option Str → Option Str → Agent × Option ℕ
  unfolding load_for_issuer fail send
  none_for_issuer g issuer scope hint =
      let (e, default) = w.query_default_account_issuer issuer in
      if args.no_autoload
      then (send g (response_error account_not_loaded), none)
      else load_for_issuer (fail g e) default issuer scope hint

  -- The account at `p` is decrypted in place.
  unfoldable pub decrypt_at : Agent → ℕ → Agent
  unfolding update
  decrypt_at g p = update g p (decrypt_account b key (g.accounts.heap p))

  -- Several accounts of the issuer are loaded: the default one, or the one that was loaded last.
  unfoldable pub default_or_last : Agent × Option ℕ → ℕ → Agent × ℕ
  unfolding decrypt_at
  default_or_last (g, some p) last = (g, p)
  default_or_last (g, none) last = (decrypt_at g last, last)

  unfoldable pub issuer_confirmed : Agent → ℕ → Option Str → Option Str → Agent × Option ℕ
  unfolding reencrypt fail write_oidc_errno
  issuer_confirmed g p issuer hint =
      let answer = w.get_confirmation false (g.accounts.heap p).shortname issuer hint in
      if (args.confirm || (g.accounts.heap p).confirmation_required) && not (is_success answer)
      then (write_oidc_errno (reencrypt b key (fail g answer) p), none)
      else (g, some p)

  unfoldable pub choose_for_issuer :
      Agent → Option (List ℕ) → Option Str → Option Str → Option Str → Agent × Option ℕ
  unfolding none_for_issuer decrypt_at default_or_last issuer_confirmed fail
  choose_for_issuer g none issuer scope hint = none_for_issuer g issuer scope hint
  choose_for_issuer g (some []) issuer scope hint = (g, none)
  choose_for_issuer g (some (p ∷ [])) issuer scope hint =
      issuer_confirmed (decrypt_at g p) p issuer hint
  choose_for_issuer g (some (p ∷ q ∷ ps)) issuer scope hint =
      let (e, default) = w.query_default_account_issuer issuer in
      let (g1, r) = default_or_last (get_decrypted b key w (fail g e) default) (last_of q ps) in
      issuer_confirmed g1 r issuer hint

  unfoldable pub get_loaded_unencrypted_account_for_issuer :
      Agent → Option Str → Option Str → Option Str → Agent × Option ℕ
  unfolding choose_for_issuer with_accounts
  get_loaded_unencrypted_account_for_issuer g issuer scope hint =
      let (s, found) = db_find_accounts_by_issuer_url g.accounts issuer in
      choose_for_issuer (with_accounts g s) found issuer scope hint

  unfoldable pub oidcd_handle_token_issuer :
      Agent → Option Str → Option Str → Option Str → Option Str → Option Str → Agent
  unfolding get_loaded_unencrypted_account_for_issuer answer_token
      get_access_token_using_refresh_flow
  oidcd_handle_token_issuer g issuer min_valid scope hint audience =
      let (g1, found) = get_loaded_unencrypted_account_for_issuer g issuer scope hint in
      elim found [
        | none ↦ g1
        | some p ↦
            answer_token b key w args
              (get_access_token_using_refresh_flow w g1 p (period min_valid) scope audience) p
      ]

  -- oidcd_handleIdToken with no name of an account.
  unfoldable pub oidcd_handle_id_token_issuer : Agent → Option Str → Option Str → Option Str → Agent
  unfolding get_loaded_unencrypted_account_for_issuer idtoken_confirmed
  oidcd_handle_id_token_issuer g issuer scope hint =
      let (g1, found) = get_loaded_unencrypted_account_for_issuer g issuer scope hint in
      elim found [ none ↦ g1 | some p ↦ idtoken_confirmed b key w args g1 p none issuer scope hint ]
