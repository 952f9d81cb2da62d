-- ===== src/Text/Tokens.antt =====
-- The C library's `strtok` with its saved position passed on: the next token and what follows it.
use mathlib.Core.Path.{ap₂}
use oidc_agent.Prelude.{
  ℕ, suc, ◌≤◌, ◌<◌, ◌≡◌, ◌≢◌, refl, ap, Bool, true, false, Option, none, some, [], ◌∷◌, ◌++◌, All,
  if◌then◌else◌, length, arith, subst,
}
use oidc_agent.Text.{Str}

skip : (ℕ → Bool) → Str → Str
skip delim [] = []
skip delim (c ∷ s) = if delim c then skip delim s else c ∷ s

pub token : (ℕ → Bool) → Str → Str
token delim [] = []
token delim (c ∷ s) = if delim c then [] else c ∷ token delim s

pub after_token : (ℕ → Bool) → Str → Str
after_token delim [] = []
after_token delim (c ∷ s) = if delim c then s else after_token delim s

next_token : (ℕ → Bool) → Str → Option (Str × Str)
unfolding token after_token
next_token delim [] = none
next_token delim (c ∷ s) = some (token delim (c ∷ s), after_token delim (c ∷ s))

unfoldable pub strtok : (ℕ → Bool) → Str → Option (Str × Str)
unfolding skip next_token
strtok delim s = next_token delim (skip delim s)

-- The token, NULL if there is none, and what the next call goes on with.
abbrev pub first_of : Option (Str × Str) → Option Str
first_of none = none
first_of (some (t, rest)) = some t

abbrev pub rest_of : Option (Str × Str) → Str
rest_of none = []
rest_of (some (t, rest)) = rest

module _ (delim : ℕ → Bool) where
  token-append :
      (xs r : Str) (c : ℕ)
      → All (λ x. delim x ≡ false) xs
      → delim c ≡ true
      → token delim (xs ++ c ∷ r) ≡ xs
  unfolding token
  token-append [] r c h d = rw d
  token-append (x ∷ xs) r c h d = rw (h.0) (ap (◌∷◌ x) (token-append xs r c h.1 d))

  after_token-append :
      (xs r : Str) (c : ℕ)
      → All (λ x. delim x ≡ false) xs
      → delim c ≡ true
      → after_token delim (xs ++ c ∷ r) ≡ r
  unfolding after_token
  after_token-append [] r c h d = rw d
  after_token-append (x ∷ xs) r c h d = rw (h.0) (after_token-append xs r c h.1 d)

  token-All : (xs : Str) → All (λ x. delim x ≡ false) xs → token delim xs ≡ xs
  unfolding token
  token-All [] h = refl
  token-All (x ∷ xs) h = rw (h.0) (ap (◌∷◌ x) (token-All xs h.1))

  after_token-All : (xs : Str) → All (λ x. delim x ≡ false) xs → after_token delim xs ≡ []
  unfolding after_token
  after_token-All [] h = refl
  after_token-All (x ∷ xs) h = rw (h.0) (after_token-All xs h.1)

  -- A token with no delimiter in it ends at the next delimiter,
  pub strtok-append :
      (xs r : Str) (c : ℕ)
      → xs ≢ []
      → All (λ x. delim x ≡ false) xs
      → delim c ≡ true
      → strtok delim (xs ++ c ∷ r) ≡ some (xs, r)
  unfolding strtok
  strtok-append [] r c n h d = absurd (n refl)
  strtok-append (x ∷ xs) r c n h d = rw (h.0) (
      ap₂ (λ a b. some (a, b)) (token-append (x ∷ xs) r c h d)
        (after_token-append (x ∷ xs) r c h d))

  -- or with the text.
  pub strtok_last :
      (xs : Str) → xs ≢ [] → All (λ x. delim x ≡ false) xs → strtok delim xs ≡ some (xs, [])
  unfolding strtok
  strtok_last [] n h = absurd (n refl)
  strtok_last (x ∷ xs) n h =
      rw (h.0) (ap₂ (λ a b. some (a, b)) (token-All (x ∷ xs) h) (after_token-All (x ∷ xs) h))

  skip-All : (xs s : Str) → All (λ x. delim x ≡ true) xs → skip delim (xs ++ s) ≡ skip delim s
  unfolding skip
  skip-All [] s h = refl
  skip-All (x ∷ xs) s h = rw (h.0) (skip-All xs s h.1)

  -- Delimiters in front are passed over.
  pub strtok_skips :
      (xs s : Str) → All (λ x. delim x ≡ true) xs → strtok delim (xs ++ s) ≡ strtok delim s
  unfolding strtok
  strtok_skips xs s h = rw (skip-All xs s h)

  skip-le : (s : Str) → length (skip delim s) ≤ length s
  unfolding skip
  skip-le [] = omega arith
  skip-le (c ∷ s) = ground (arith, skip-le s)

  after_token-le : (s : Str) → length (after_token delim s) ≤ length s
  unfolding after_token
  after_token-le [] = omega arith
  after_token-le (c ∷ s) = ground (arith, after_token-le s)

  next_token-lt : (s t r : Str) → next_token delim s ≡ some (t, r) → length r < length s
  unfolding next_token after_token
  next_token-lt [] t r e = cc
  next_token-lt (c ∷ s) t r e =
      let same : after_token delim (c ∷ s) ≡ r = cc in
      subst (λ x. length x < suc (length s)) same (ground (arith, after_token-le s))

  -- What follows a token is shorter than the text.
  pub strtok_rest-lt : (s t r : Str) → strtok delim s ≡ some (t, r) → length r < length s
  unfolding strtok
  strtok_rest-lt s t r e = omega (arith, next_token-lt (skip delim s) t r e, skip-le s)
