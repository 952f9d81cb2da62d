-- ===== src/Account.antt =====
-- src/account/account.h and its comparisons: the configuration of one OpenID Connect account.
pub mod Issuer
mod Examples
use Issuer.{comp_issuer_urls}
use oidc_agent.Prelude.{ℕ, ℤ, pos, Bool, true, false, Option, none, some, List}
use oidc_agent.Text.{Str, strequal, str_valid}

-- The fields of struct oidc_account that the agent daemon reads or writes. The bits of `mode` are
-- fields of their own, and the issuer is represented by the urls that are read from it.
pub record Account : Type 0 where
  pub shortname : Option Str
  pub issuer_url : Option Str
  pub mytoken_url : Option Str
  pub token_endpoint : Option Str
  pub client_id : Option Str
  pub client_secret : Option Str
  pub refresh_token : Option Str
  pub access_token : Option Str
  pub token_expires_at : ℕ
  pub death : ℤ
  pub confirmation_required : Bool
  pub always_allow_id : Bool
  pub used_state : Option Str
  pub used_state_checked : Bool
  pub flow : Option Str
  pub username : Option Str
  pub password : Option Str
  pub auth_scope : Option Str
  pub audience : Option Str
  pub scopes_supported : Option Str
  pub redirect_uris : Option (List Str)
  pub no_webserver : Bool
  pub no_scheme : Bool
  pub is_oauth2 : Bool

-- An account key on the stack of which only some fields are set.
abbrev pub blank : Account
blank = record {
  shortname = none;
  issuer_url = none;
  mytoken_url = none;
  token_endpoint = none;
  client_id = none;
  client_secret = none;
  refresh_token = none;
  access_token = none;
  token_expires_at = 0;
  death = pos 0;
  confirmation_required = false;
  always_allow_id = false;
  used_state = none;
  used_state_checked = false;
  flow = none;
  username = none;
  password = none;
  auth_scope = none;
  audience = none;
  scopes_supported = none;
  redirect_uris = none;
  no_webserver = false;
  no_scheme = false;
  is_oauth2 = false;
}

-- src/utils/matcher.c
unfoldable pub match_strings : Option Str → Option Str → Bool
match_strings none none = true
match_strings none (some b) = false
match_strings (some a) none = false
match_strings (some a) (some b) = strequal (some a) (some b)

unfoldable pub match_urls : Option Str → Option Str → Bool
match_urls none none = true
match_urls none (some b) = false
match_urls (some a) none = false
match_urls (some a) (some b) = comp_issuer_urls (some a) (some b)

unfoldable pub account_match_by_name : Account → Account → Bool
account_match_by_name p1 p2 = match_strings p1.shortname p2.shortname

unfoldable pub account_match_by_state : Account → Account → Bool
account_match_by_state p1 p2 = match_strings p1.used_state p2.used_state

unfoldable pub account_match_by_issuer_url : Account → Account → Bool
account_match_by_issuer_url p1 p2 = match_urls p1.issuer_url p2.issuer_url

unfoldable pub account_refresh_token_is_valid : Account → Bool
account_refresh_token_is_valid p = str_valid p.refresh_token
