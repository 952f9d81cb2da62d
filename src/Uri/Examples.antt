-- ===== src/Uri/Examples.antt =====
-- Tests of the uris.
use oidc_agent.Prelude.{
  ◌≡◌, ◌≢◌, ◌↔◌, refl, true, false, All, some, none, List, [], ◌∷◌, ◌++◌, map, arith,
}
use oidc_agent.Text.{Str, codes, IsText, str_valid}
use oidc_agent.Text.Edit.{strstarts}
use oidc_agent.Text.Number.{is_digit}
use oidc_agent.Text.Case.{strlower}
use oidc_agent.Crypt.Memory.{c_string}
use oidc_agent.Crypt.Answer.{ok, undefined}
use oidc_agent.Uri.{
  urldecode, extract_parameter_value_from_uri, code_state_from_uri, success,
  check_redirect_uris_for_errors, is_valid_auth_endpoint_url, get_top_host,
}
use oidc_agent.Uri.Decode.{percent_encode}
use oidc_agent.Uri.Search.{Lacks, query_of, value_of}
use oidc_agent.Uri.Query.{
  encoded, code_state_from_uri-query_of, extract_parameter_value_from_uri-empty_value,
}
use oidc_agent.Uri.Ports.{
  Redirect, custom, local, redirect_uri, IsAccepted, check_redirect_uris_for_errors_iff,
}
use oidc_agent.Uri.Endpoint.{IsEndpoint, is_valid_auth_endpoint_url_iff}
use oidc_agent.Uri.Host.{url_of, get_top_host_lem}

decoded : urldecode (some (codes "a%2Fb+c%2")) ≡ some (codes "a/b c%2")
unfolding urldecode c_string
decoded = refl

-- An escaped NUL ends the text.
cut_short : urldecode (some (codes "a%00b")) ≡ some (codes "a")
unfolding urldecode c_string
cut_short = refl

abbrev base : Str
base = codes "http://a:1/x"

abbrev parameters : List (Str × Str)
parameters = (codes "code", codes "c&") ∷ (codes "state", codes "s=1") ∷ []

code_state_from_uri-query_of_example :
    (code_state_from_uri (some (percent_encode base ++ b'?' ∷ query_of (encoded parameters)))).0
    ≡ record {
      uri = some base;
      state = value_of (codes "state") parameters;
      code = value_of (codes "code") parameters;
    }
code_state_from_uri-query_of_example =
    code_state_from_uri-query_of base parameters (λ e. cc) base-IsText
      (
        ((λ e. cc), code-plain, (λ e. cc), c-IsText),
        (((λ e. cc), state-plain, (λ e. cc), s-IsText), tt),
      )
  where
    base-IsText : IsText base
    base-IsText = omega arith

    c-IsText : IsText (codes "c&")
    c-IsText = omega arith

    s-IsText : IsText (codes "s=1")
    s-IsText = omega arith

    code-plain : Lacks b'=' (codes "code")
    code-plain = (refl, (refl, (refl, (refl, tt))))

    state-plain : Lacks b'=' (codes "state")
    state-plain = (refl, (refl, (refl, (refl, (refl, tt)))))

extract_parameter_value_from_uri-empty_value_example :
    (extract_parameter_value_from_uri (some (codes "u?e=&state=s")) (some (codes "state")) ≡ none)
    × (extract_parameter_value_from_uri (some (codes "u?e=&state=s")) (some (codes "e"))
        ≡ urldecode (some (codes "state=s")))
extract_parameter_value_from_uri-empty_value_example =
    extract_parameter_value_from_uri-empty_value (codes "u") (codes "e") (codes "state") (codes "s")
      (refl, tt) (λ e. cc) (refl, tt) (λ e. cc) (refl, (refl, (refl, (refl, (refl, tt)))))
      (refl, tt) (λ e. ground arith)

-- 4294968320 is 1024 + 2^32.
abbrev redirects : List Redirect
redirects = custom (codes "x") ∷ local 8080 (codes "/p") ∷ local 4294968320 [] ∷ []

check_redirect_uris_for_errors_iff_example :
    (check_redirect_uris_for_errors (some (map redirect_uri redirects)) ≡ success)
    ↔ ((redirects ≢ []) × All IsAccepted redirects)
check_redirect_uris_for_errors_iff_example =
    check_redirect_uris_for_errors_iff redirects
      (tt, ((omega arith, unfold is_digit in refl), ((omega arith, tt), tt)))

is_valid_auth_endpoint_url_iff_example :
    (is_valid_auth_endpoint_url (some (codes "HTTPS://a")) ≡ true) ↔ IsEndpoint (codes "HTTPS://a")
is_valid_auth_endpoint_url_iff_example = is_valid_auth_endpoint_url_iff (codes "HTTPS://a")

blank_refused : is_valid_auth_endpoint_url (some (codes "https://a b")) ≡ false
unfolding is_valid_auth_endpoint_url strlower str_valid strstarts
blank_refused = refl

get_top_host_lem_example :
    (get_top_host (some (url_of (codes "https") (codes "kit" ++ b'.' ∷ codes "edu") (codes "i")))
      ≡ ok (codes "kit"))
    × (get_top_host (
          some (
            url_of
              (codes "https")
              ((codes "a" ++ b'.' ∷ codes "kit") ++ b'.' ∷ codes "edu")
              (codes "i")))
        ≡ ok (codes "kit"))
    × (get_top_host (some (url_of (codes "https") (codes "kit") (codes "i"))) ≡ undefined)
get_top_host_lem_example =
    get_top_host_lem (codes "https") (codes "a") (codes "kit") (codes "edu") (codes "i")
      (refl, (refl, (refl, (refl, (refl, tt)))))
      ((refl, tt), (refl, (refl, (refl, tt))), (refl, (refl, (refl, tt))))
      ((refl, (refl, (refl, tt))), (refl, (refl, (refl, tt))))
