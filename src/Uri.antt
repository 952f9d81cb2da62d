-- ===== src/Uri.antt =====
-- src/utils/uriUtils.c, and the ports of uris in src/utils/portUtils.c. A string that is decoded in
-- place is seen up to its first NUL, which an escape can make.
pub mod Decode
pub mod Search
pub mod Query
pub mod Ports
pub mod Endpoint
pub mod Host
mod Examples
use oidc_agent.Prelude.{
  ℕ, zero, suc, ◌+◌, ◌-◌, ◌*◌, ◌%◌, ◌^◌, Bool, true, false, not, ◌&&◌, ◌||◌, Option, none, some,
  List, [], ◌∷◌, ◌==◌, ltb, leb, length, drop, find_first, if◌then◌else◌, ℤ, pos, negsuc,
}
use oidc_agent.Text.{Str, codes, strequal, str_valid}
use oidc_agent.Text.Number.{to_int, is_digit, is_space}
use oidc_agent.Text.Scan.{scan_number}
use oidc_agent.Text.Tokens.{strtok, first_of}
use oidc_agent.Text.Edit.{is_prefix, strstarts}
use oidc_agent.Text.Case.{strlower}
use oidc_agent.Crypt.Memory.{c_string}
use oidc_agent.Crypt.Answer.{Answer, ok, err, undefined, arg_null, ◌>>=◌, deref, non_null}
use oidc_agent.Port.{min_port, max_port}

-- isxdigit
unfoldable pub is_xdigit : ℕ → Bool
unfolding is_digit
is_xdigit c = is_digit c || (leb b'a' c && leb c b'f') || (leb b'A' c && leb c b'F')

-- The two changes of the character `a` of an escape.
unfoldable pub hex_value : ℕ → ℕ
hex_value c =
    let upper = if leb b'a' c then c - 32 else c in
    if leb b'A' upper then upper - 55 else upper - 48

unfoldable pub plain : ℕ → ℕ
plain c = if c == b'+' then b' ' else c

-- The bytes that the loop of urldecode writes.
unfoldable pub decode : Str → Str
unfolding is_xdigit hex_value plain
decode [] = []
decode (c ∷ []) = plain c ∷ []
decode (c ∷ (a ∷ [])) = plain c ∷ (plain a ∷ [])
decode (c ∷ (a ∷ (b ∷ s))) =
    let escaped = (16 * hex_value a + hex_value b) ∷ decode s in
    let next = plain c ∷ decode (a ∷ (b ∷ s)) in
    if c == b'%' && (is_xdigit a && is_xdigit b) then escaped else next

-- urldecode(s, s)
unfoldable pub urldecode : Option Str → Option Str
unfolding decode
urldecode none = none
urldecode (some s) = some (c_string (decode s))

abbrev pub is_char : ℕ → ℕ → Bool
is_char c x = x == c

unfoldable pub get_base_uri : Option Str → Option Str
unfolding urldecode
get_base_uri none = none
get_base_uri (some uri) = urldecode (first_of (strtok (is_char b'?') uri))

unfoldable pub with_front : ℕ → Option (Str × Str) → Option (Str × Str)
with_front x none = none
with_front x (some (a, b)) = some (x ∷ a, b)

-- strchr: the text before the first `c` and behind it; strrchr: those of the last one.
unfoldable pub cut_first : ℕ → Str → Option (Str × Str)
unfolding with_front
cut_first c [] = none
cut_first c (x ∷ s) =
    let rest = with_front x (cut_first c s) in if x == c then some ([], s) else rest

unfoldable pub this_or_later : Bool → Str → Option (Str × Str) → Option (Str × Str)
this_or_later here s none = if here then some ([], s) else none
this_or_later here s (some r) = some r

unfoldable pub cut_last : ℕ → Str → Option (Str × Str)
unfolding with_front this_or_later
cut_last c [] = none
cut_last c (x ∷ s) = this_or_later (x == c) s (with_front x (cut_last c s))

-- The loop over the parameters from the first strtok on, with fuel; `none` means that it ran out. With
-- no key there is no value.
unfoldable pub search_parameter : ℕ → Str → Str → Option (Option Str)
search_parameter zero parameter params = none
search_parameter (suc fuel) parameter params = elim (strtok (is_char b'=') params) [
  | none ↦ some none
  | some (param_k, after) ↦ elim (strtok (is_char b'&') after) [
    | none ↦ some none
    | some (param_v, rest) ↦
        (let more = search_parameter fuel parameter rest in
          if strequal (some parameter) (some param_k) then some (some param_v) else more)
  ]
]

-- Every turn of the loop takes a character.
unfoldable pub found_parameter : Option (Str × Str) → Str → Option Str
unfolding search_parameter urldecode
found_parameter none parameter = none
found_parameter (some (_, params)) parameter =
    elim (search_parameter (suc (length params)) parameter params) [
      | none ↦ none
      | some value ↦ urldecode value
    ]

unfoldable pub extract_parameter_value_from_uri : Option Str → Option Str → Option Str
unfolding found_parameter
extract_parameter_value_from_uri none parameter = none
extract_parameter_value_from_uri (some uri) none = none
extract_parameter_value_from_uri (some uri) (some parameter) =
    found_parameter (cut_first b'?' uri) parameter

pub data UriError : Type 0 where
  no_base_uri no_state no_code null_uri : UriError

pub record CodeState : Type 0 where
  pub uri : Option Str
  pub state : Option Str
  pub code : Option Str

-- What oidc_errno is set to, if it is.
unfoldable pub code_state_error : CodeState → Option UriError
code_state_error cs = elim cs.uri [
  | none ↦ some no_base_uri
  | some u ↦ elim cs.state [
    | none ↦ some no_state
    | some s ↦ elim cs.code [ none ↦ some no_code | some c ↦ none ]
  ]
]

unfoldable pub code_state_from_uri : Option Str → CodeState × Option UriError
unfolding extract_parameter_value_from_uri get_base_uri code_state_error
code_state_from_uri none = (record { uri = none; state = none; code = none }, some null_uri)
code_state_from_uri (some uri) =
    let cs : CodeState = record {
      uri = get_base_uri (some uri);
      state = extract_parameter_value_from_uri (some uri) (some (codes "state"));
      code = extract_parameter_value_from_uri (some uri) (some (codes "code"));
    } in
    (cs, code_state_error cs)

abbrev pub agent_custom_scheme : Str
agent_custom_scheme = codes "edu.kit.data.oidc-agent:/"

unfoldable pub is_custom : Str → Bool
is_custom uri = strstarts (some uri) (some agent_custom_scheme)

unfoldable pub find_custom_scheme_uri : List Str → Option Str
unfolding is_custom
find_custom_scheme_uri uris = find_first is_custom uris

-- An int that sscanf stores through a pointer to an unsigned int.
unfoldable pub to_unsigned : ℤ → ℕ
to_unsigned (pos n) = n
to_unsigned (negsuc n) = 2 ^ 32 - (n + 1)

abbrev pub localhost : Str
localhost = codes "http://localhost:"

-- The second call of sscanf converts what the first one does.
unfoldable pub get_port_from_uri : Option Str → ℕ
unfolding to_unsigned
get_port_from_uri none = 0
get_port_from_uri (some uri) =
    if is_prefix localhost uri
    then elim (scan_number (drop (length localhost) uri)) [
      | none ↦ 0
      | some (z, _) ↦ to_unsigned (to_int z)
    ]
    else 0

unfoldable pub find_redirect_uri_by_port : Option (List Str) → ℕ → Option Str
unfolding get_port_from_uri
find_redirect_uri_by_port none port = none
find_redirect_uri_by_port (some l) port = find_first (λ u. get_port_from_uri (some u) == port) l

pub data RedirectCheck : Type 0 where
  success null_uris uri_error : RedirectCheck

unfoldable pub port_error : RedirectCheck → ℕ → RedirectCheck
port_error e port =
    if port == 0 then uri_error else if ltb port min_port || ltb max_port port then uri_error else e

unfoldable pub check_uris : RedirectCheck → List Str → RedirectCheck
unfolding is_custom port_error
check_uris e [] = e
check_uris e (u ∷ us) =
    check_uris (if is_custom u then e else port_error e (get_port_from_uri (some u))) us

unfoldable pub check_redirect_uris_for_errors : Option (List Str) → RedirectCheck
unfolding check_uris
check_redirect_uris_for_errors none = null_uris
check_redirect_uris_for_errors (some []) = null_uris
check_redirect_uris_for_errors (some (u ∷ us)) = check_uris success (u ∷ us)

-- `strncasecmp(url, pre, strlen(pre)) == 0` for a `pre` in lower case
unfoldable pub has_scheme : Str → Str → Bool
has_scheme pre url = is_prefix pre (strlower url)

unfoldable pub is_url_char : ℕ → Bool
unfolding is_space
is_url_char c =
    not (ltb c 0x20 || c == 0x7f)
    && not (is_space c)
    && not (c == b'<' || c == b'>' || c == b'"' || c == b'`' || c == b'|')

unfoldable pub all_url_chars : Str → Bool
unfolding is_url_char
all_url_chars [] = true
all_url_chars (c ∷ s) = is_url_char c && all_url_chars s

unfoldable pub is_valid_auth_endpoint_url : Option Str → Bool
unfolding has_scheme all_url_chars
is_valid_auth_endpoint_url none = false
is_valid_auth_endpoint_url (some url) =
    if not (str_valid (some url))
    then false
    else if has_scheme (codes "https://") url
    then (if length url == 8 then false else all_url_chars url)
    else if has_scheme (codes "http://") url
    then (if length url == 7 then false else all_url_chars url)
    else false

-- The text behind the first `n`.
unfoldable pub behind : Str → Str → Option Str
behind n [] = if is_prefix n [] then some [] else none
behind n (x ∷ h) = if is_prefix n (x ∷ h) then some (drop (length n) (x ∷ h)) else behind n h

unfoldable pub last_label : Str → Option (Str × Str) → Str
last_label host none = host
last_label host (some (_, label)) = label

-- The code writes through the results of strchr and strrchr without a test.
unfoldable pub get_top_host : Option Str → Answer Str
unfolding last_label
get_top_host uri = do
  u ← non_null arg_null uri
  b ← deref (behind (codes "://") u)
  host ← deref (cut_first b'/' b)
  labels ← deref (cut_last b'.' host.0)
  ok (last_label labels.0 (cut_last b'.' labels.0))
