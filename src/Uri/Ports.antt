-- ===== src/Uri/Ports.antt =====
-- The ports of redirect uris.
use mathlib.Core.List.{append-nil}
use oidc_agent.Prelude.{
  ℕ, ◌%◌, ◌^◌, ◌≤◌, ◌<◌, ◌≡◌, ◌≢◌, ◌↔◌, ◌⊎◌, refl, sym, ap, ◌∙◌, Bool, true, false, ◌&&◌, ◌||◌,
  none, some, List, [], ◌∷◌, ◌++◌, ◌==◌, ==_iff, ltb, leb, All, In, Bool-cases, inl, inr, length,
  drop, map, find_first, arith, pos, subst,
}
use oidc_agent.Text.{Str}
use oidc_agent.Text.Number.{print_lu, to_int}
use oidc_agent.Text.Scan.Laws.{scan_number-print_lu, NoDigit}
use oidc_agent.Text.Edit.{strstarts}
use oidc_agent.Text.Edit.Laws.{is_prefix-append}
use oidc_agent.Port.{min_port, max_port, port_is_in_range, port_to_uri}
use oidc_agent.Uri.{
  localhost, agent_custom_scheme, is_custom, to_unsigned, get_port_from_uri,
  find_redirect_uri_by_port, success, uri_error, port_error, check_uris,
  check_redirect_uris_for_errors,
}

drop-append : (a b : Str) → drop (length a) (a ++ b) ≡ b
drop-append [] b = refl
drop-append (x ∷ a) b = drop-append a b

to_unsigned-to_int : (n : ℕ) → n < 2 ^ 63 → to_unsigned (to_int (pos n)) ≡ n % 2 ^ 32
unfolding to_unsigned to_int
to_unsigned-to_int n h = ground arith

-- The port of a uri with a written number is the number, kept to 32 bits.
pub get_port_from_uri-localhost :
    (n : ℕ) (path : Str)
    → n < 2 ^ 63
    → NoDigit path
    → get_port_from_uri (some (localhost ++ (print_lu n ++ path))) ≡ n % 2 ^ 32
unfolding get_port_from_uri
get_port_from_uri-localhost n path h k =
    rw
      (
        is_prefix-append localhost (print_lu n ++ path),
        drop-append localhost (print_lu n ++ path),
        scan_number-print_lu n path k,
      )
      (to_unsigned-to_int n h)

-- Redirect uris as they are written: of the custom scheme, or with a port and a path.
pub data Redirect : Type 0 where
  custom : Str → Redirect
  local : ℕ → Str → Redirect

unfoldable pub redirect_uri : Redirect → Str
redirect_uri (custom t) = agent_custom_scheme ++ t
redirect_uri (local n path) = localhost ++ (print_lu n ++ path)

abbrev pub IsRedirect : Redirect → Type 0
IsRedirect (custom t) = Unit
IsRedirect (local n path) = (n < 2 ^ 63) × NoDigit path

-- What is accepted.
abbrev pub IsAccepted : Redirect → Type 0
IsAccepted (custom t) = Unit
IsAccepted (local n path) = (min_port ≤ n % 2 ^ 32) × (n % 2 ^ 32 ≤ max_port)

is_custom-custom : (t : Str) → is_custom (agent_custom_scheme ++ t) ≡ true
unfolding is_custom strstarts
is_custom-custom t = is_prefix-append agent_custom_scheme t

is_custom-localhost : (t : Str) → is_custom (localhost ++ t) ≡ false
unfolding is_custom strstarts
is_custom-localhost t = refl

-- An error stays.
check_uris-uri_error : (us : List Str) → check_uris uri_error us ≡ uri_error
unfolding check_uris port_error
check_uris-uri_error [] = refl
check_uris-uri_error (u ∷ us) = elim (Bool-cases (is_custom u)) [
  | inl c ↦ rw c (check_uris-uri_error us)
  | inr c ↦ rw c (rest (get_port_from_uri (some u)) (check_uris-uri_error us))
]
  where
    rest :
        (port : ℕ)
        → check_uris uri_error us ≡ uri_error
        → check_uris (port_error uri_error port) us ≡ uri_error
    rest port ih = ap (λ e. check_uris e us) (same port) ∙ ih
      where
        same : (p : ℕ) → port_error uri_error p ≡ uri_error
        same p = ground arith

port_error-cases :
    (port : ℕ)
    → ((port_error success port ≡ success) × (min_port ≤ port) × (port ≤ max_port))
      ⊎ ((port_error success port ≡ uri_error) × ¬ ((min_port ≤ port) × (port ≤ max_port)))
unfolding port_error
port_error-cases port = elim (Bool-cases (ltb port min_port || ltb max_port port)) [
  | inl h ↦ inr (ground arith, λ k. ground arith)
  | inr h ↦ inl (ground arith, ground arith, ground arith)
]

-- One turn of the loop: an accepted uri changes nothing, another one is an error.
check_uris-next :
    (r : Redirect) (us : List Str)
    → IsRedirect r
    → (IsAccepted r × (check_uris success (redirect_uri r ∷ us) ≡ check_uris success us))
      ⊎ ((¬ (IsAccepted r)) × (check_uris success (redirect_uri r ∷ us) ≡ uri_error))
unfolding check_uris redirect_uri
check_uris-next (custom t) us w = inl (tt, rw (is_custom-custom t) refl)
check_uris-next (local n path) us w =
    let port = get_port_from_uri-localhost n path w.0 w.1 in
    let turn = is_custom-localhost (print_lu n ++ path) in
    elim (port_error-cases (n % 2 ^ 32)) [
      | inl (e, lo, hi) ↦ inl ((lo, hi), rw (turn, port, e) refl)
      | inr (e, out) ↦ inr (out, rw (turn, port, e) (check_uris-uri_error us))
    ]

check_uris_iff :
    (rs : List Redirect)
    → All IsRedirect rs
    → (check_uris success (map redirect_uri rs) ≡ success) ↔ All IsAccepted rs
unfolding check_uris
check_uris_iff [] w = (λ e. tt, λ h. refl)
check_uris_iff (r ∷ rs) w =
    let (to, from) = check_uris_iff rs w.1 in
    elim (check_uris-next r (map redirect_uri rs) w.0) [
      | inl (a, e) ↦ (λ h. (a, to (sym e ∙ h)), λ k. e ∙ from k.1)
      | inr (n, e) ↦ (λ h. absurd (no_success (sym e ∙ h)), λ k. absurd (n k.0))
    ]
  where
    no_success : uri_error ≢ success
    no_success e = cc

-- Which redirect uris are accepted: a list of uris of the custom scheme, and of uris for localhost with a
-- number of less than 63 bits and a path that does not go on with a digit, passes
-- checkRedirectUrisForErrors exactly when it is not empty and the low 32 bits of every number are a
-- port from 1024 to 49151, whatever the number itself is.
pub check_redirect_uris_for_errors_iff :
    (rs : List Redirect)
    → All IsRedirect rs
    → (check_redirect_uris_for_errors (some (map redirect_uri rs)) ≡ success)
      ↔ ((rs ≢ []) × All IsAccepted rs)
unfolding check_redirect_uris_for_errors
check_redirect_uris_for_errors_iff [] w = (λ e. cc, λ h. absurd (h.0 refl))
check_redirect_uris_for_errors_iff (r ∷ rs) w =
    let (to, from) = check_uris_iff (r ∷ rs) w in (λ h. ((λ e. cc), to h), λ k. from k.1)

-- The uri that is made for a port is found by it.
pub get_port_from_uri-port_to_uri :
    (port : ℕ) (u : Str) → port_to_uri port ≡ some u → get_port_from_uri (some u) ≡ port
unfolding port_to_uri port_is_in_range
get_port_from_uri-port_to_uri port u e =
    elim (Bool-cases (leb min_port port && leb port max_port)) [
      | inl h ↦
          let made : some (localhost ++ print_lu port) ≡ some u = rw h at e in
          let same : localhost ++ print_lu port ≡ u = cc in
          subst (λ x. get_port_from_uri (some x) ≡ port)
            (ap (λ d. localhost ++ d) (append-nil (print_lu port)) ∙ same)
            (get_port_from_uri-localhost port [] (ground arith) tt ∙ ground arith)
      | inr h ↦ (let none_made : none ≡ some u = rw h at e in cc)
    ]

find_first-passes :
    (t : Str → Bool) (l : List Str) (u : Str)
    → In u l
    → t u ≡ true
    → (x : Str) × (find_first t l ≡ some x) × (t x ≡ true)
find_first-passes t [] u i h = absurd i
find_first-passes t (x ∷ l) u i h = elim (Bool-cases (t x)) [
  | inl y ↦ (x, rw y refl, y)
  | inr n ↦
      let (z, found, passes) = find_first-passes t l u (later i n) h in (z, rw n found, passes)
]
  where
    later : (u ≡ x) ⊎ In u l → t x ≡ false → In u l
    later (inl same) n = let clash : true ≡ false = sym h ∙ ap t same ∙ n in cc
    later (inr k) n = k

-- A registered redirect uri is found by its port: if a list of uris holds the one that portToUri makes
-- for a port, then findRedirectUriByPort gives a uri of the list with that port.
pub find_redirect_uri_by_port-port_to_uri :
    (l : List Str) (port : ℕ) (u : Str)
    → port_to_uri port ≡ some u
    → In u l
    → (x : Str) × (find_redirect_uri_by_port (some l) port ≡ some x)
      × (get_port_from_uri (some x) ≡ port)
unfolding find_redirect_uri_by_port
find_redirect_uri_by_port-port_to_uri l port u e i =
    let (x, found, passes) =
      find_first-passes (λ v. get_port_from_uri (some v) == port) l u i
        ((==_iff _ port).1 (get_port_from_uri-port_to_uri port u e)) in
    (x, found, (==_iff _ port).0 passes)
