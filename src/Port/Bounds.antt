-- ===== src/Port/Bounds.antt =====
-- The ports that are drawn.
use native.Mathlib.Nat.{div-lt_iff_lt-mul, le-div_iff_mul-le, div-add-mod}
use oidc_agent.Prelude.{
  ℕ, ◌+◌, ◌-◌, ◌*◌, ◌/◌, ◌%◌, ◌≤◌, ◌<◌, ◌≡◌, refl, subst, inl, inr, true, false, some, List, [],
  ◌∷◌, ◌++◌, leb, arith, In, ◌⊎◌, Bool-cases,
}
use oidc_agent.Text.{codes}
use oidc_agent.Text.Number.{print_lu}
use oidc_agent.Port.{
  random_at_most, get_random_port, port_is_in_range, port_to_uri, min_port, max_port,
}

a_bin : (n m : ℕ) → m ≤ n → 1 ≤ (n + 1) / (m + 1)
a_bin n m le = (le-div_iff_mul-le (omega arith)).1 (omega arith)

in_bin : (x m bin : ℕ) → 1 ≤ bin → x < (m + 1) * bin → x / bin < m + 1
in_bin x m bin some_bin below = (div-lt_iff_lt-mul (omega arith)).1 below

-- An accepted draw falls in one of the bins.
accepted :
    (rand_max max x : ℕ)
    → max ≤ rand_max
    → leb (rand_max + 1 - (rand_max + 1) % (max + 1)) x ≡ false
    → x / ((rand_max + 1) / (max + 1)) ≤ max
accepted rand_max max x le e =
    let bin = (rand_max + 1) / (max + 1) in
    let whole : (max + 1) * bin + (rand_max + 1) % (max + 1) ≡ rand_max + 1 =
      div-add-mod (rand_max + 1) (max + 1) in
    let some_bin = a_bin rand_max max le in
    let below : x < (max + 1) * bin = ground arith in
    let small = in_bin x max bin some_bin below in omega (arith, small)

random_at_most_le :
    (rand_max max : ℕ) (draws : List ℕ) (r : ℕ)
    → max ≤ rand_max
    → random_at_most rand_max max draws ≡ some r
    → r ≤ max
unfolding random_at_most
random_at_most_le rand_max max [] r le e = cc
random_at_most_le rand_max max (x ∷ draws) r le e =
    elim (Bool-cases (leb (rand_max + 1 - (rand_max + 1) % (max + 1)) x)) [
      | inl refused ↦ random_at_most_le rand_max max draws r le (rw refused at e)
      | inr taken ↦
          let same : some (x / ((rand_max + 1) / (max + 1))) ≡ some r = rw taken at e in
          let here : x / ((rand_max + 1) / (max + 1)) ≡ r = cc in
          subst (λ y. y ≤ max) here (accepted rand_max max x le taken)
    ]

in_range : (x : ℕ) → x ≤ max_port - min_port → port_is_in_range (x + min_port) ≡ true
unfolding port_is_in_range
in_range x le = ground arith

random_at_most_returns :
    (rand_max max : ℕ) (draws : List ℕ) (x : ℕ)
    → In x draws
    → x < rand_max + 1 - (rand_max + 1) % (max + 1)
    → (r : ℕ) × (random_at_most rand_max max draws ≡ some r)
unfolding random_at_most
random_at_most_returns rand_max max [] x i lt = absurd i
random_at_most_returns rand_max max (y ∷ draws) x i lt =
    elim (Bool-cases (leb (rand_max + 1 - (rand_max + 1) % (max + 1)) y)) [
      | inl refused ↦
          let (r, e) = random_at_most_returns rand_max max draws x (later i refused) lt in
          (r, rw refused e)
      | inr taken ↦ (y / ((rand_max + 1) / (max + 1)), rw taken refl)
    ]
  where
    later :
        (x ≡ y) ⊎ In x draws → leb (rand_max + 1 - (rand_max + 1) % (max + 1)) y ≡ true → In x draws
    later (inl same) refused = ground arith
    later (inr k) refused = k

-- If a draw is under the largest multiple of the number of ports, a port is chosen; it is in the range
-- of the ports, so that its uri is given.
pub port_to_uri-get_random_port :
    (rand_max : ℕ) (draws : List ℕ) (x : ℕ)
    → max_port ≤ rand_max
    → In x draws
    → x < rand_max + 1 - (rand_max + 1) % (max_port - min_port + 1)
    → (port : ℕ) × (get_random_port rand_max draws ≡ some port)
      × (port_is_in_range port ≡ true)
      × (port_to_uri port ≡ some (codes "http://localhost:" ++ print_lu port))
unfolding get_random_port port_to_uri
port_to_uri-get_random_port rand_max draws x le i lt =
    let (r, drawn) = random_at_most_returns rand_max (max_port - min_port) draws x i lt in
    let small = random_at_most_le rand_max (max_port - min_port) draws r (omega arith) drawn in
    let ok = in_range r small in (r + min_port, rw drawn refl, ok, rw (ok, port_to_uri) refl)
