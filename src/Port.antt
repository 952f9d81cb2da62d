-- ===== src/Port.antt =====
-- src/utils/portUtils.c: the choice of a port for the web server that waits for a redirect. The draws of
-- random() are a list, and RAND_MAX is the parameter `rand_max`.
pub mod Bounds
mod Examples
use oidc_agent.Prelude.{
  ℕ, ◌+◌, ◌-◌, ◌/◌, ◌%◌, Bool, true, false, ◌&&◌, Option, none, some, List, [], ◌∷◌, ◌++◌, leb,
  if◌then◌else◌, ◌>>=◌,
}
use oidc_agent.Text.{Str, codes}
use oidc_agent.Text.Number.{print_lu}

abbrev pub min_port : ℕ
min_port = 1024

abbrev pub max_port : ℕ
max_port = 49151

-- Draws until one is under a multiple of the number of bins; `none` if the list ends before.
pub random_at_most : ℕ → ℕ → List ℕ → Option ℕ
random_at_most rand_max max [] = none
random_at_most rand_max max (x ∷ draws) =
    let rest = random_at_most rand_max max draws in
    let num_bins = max + 1 in
    let num_rand = rand_max + 1 in
    if leb (num_rand - num_rand % num_bins) x then rest else some (x / (num_rand / num_bins))

unfoldable pub get_random_port : ℕ → List ℕ → Option ℕ
get_random_port rand_max draws = do
  x ← random_at_most rand_max (max_port - min_port) draws
  some (x + min_port)

unfoldable pub port_is_in_range : ℕ → Bool
port_is_in_range port = leb min_port port && leb port max_port

unfoldable pub port_to_uri : ℕ → Option Str
unfolding port_is_in_range
port_to_uri port =
    if port_is_in_range port then some (codes "http://localhost:" ++ print_lu port) else none
