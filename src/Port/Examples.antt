-- ===== src/Port/Examples.antt =====
-- Tests of src/utils/portUtils.c.
use oidc_agent.Prelude.{ℕ, inl, inr, ◌≡◌, refl, true, some, [], ◌∷◌, ◌++◌, arith}
use oidc_agent.Text.{codes}
use oidc_agent.Text.Number.{print_lu}
use oidc_agent.Port.{get_random_port, port_is_in_range, port_to_uri}
use oidc_agent.Port.Bounds.{port_to_uri-get_random_port}

port_to_uri-get_random_port_example :
    (port : ℕ) × (get_random_port 65535 (65000 ∷ 8167 ∷ []) ≡ some port)
    × (port_is_in_range port ≡ true)
    × (port_to_uri port ≡ some (codes "http://localhost:" ++ print_lu port))
port_to_uri-get_random_port_example =
    port_to_uri-get_random_port 65535 (65000 ∷ 8167 ∷ []) 8167 (omega arith) (inr (inl refl))
      (omega arith)
