-- ===== src/Account/Issuer.antt =====
-- compIssuerUrls of src/account/issuer_helper.c: issuer urls up to one trailing slash.
use oidc_agent.Prelude.{
  ℕ, zero, suc, ◌+◌, ◌-◌, ◌≡◌, refl, ◌↔◌, ◌⊎◌, Bool, true, false, ◌&&◌, Option, none, some, [], ◌∷◌,
  ◌++◌, arith, ◌==◌, ◌≢◌, length, length-append, get_or, if◌then◌else◌,
}
use oidc_agent.Text.{Str, strequal}
use oidc_agent.Text.Laws.{same_text_iff}

-- `strncmp(a, b, n) == 0`: the first `n` bytes agree, the end of a string counting as NUL.
same_prefix : ℕ → Str → Str → Bool
same_prefix zero a b = true
same_prefix (suc n) [] [] = true
same_prefix (suc n) [] (y ∷ b) = false
same_prefix (suc n) (x ∷ a) [] = false
same_prefix (suc n) (x ∷ a) (y ∷ b) = x == y && same_prefix n a b

-- The last test, after the shorter url has been put first.
misses_slash : Str → Str → Bool
unfolding same_prefix
misses_slash a b =
    if length a == length b - 1 && get_or b (length b - 1) 0 == b'/'
    then same_prefix (length a) a b
    else false

-- `b_len == a_len - 1` is a comparison of `size_t`: an empty `a` wraps to a length that no `b` has.
unfoldable pub comp_issuer_urls : Option Str → Option Str → Bool
unfolding misses_slash
comp_issuer_urls none b = false
comp_issuer_urls (some a) none = false
comp_issuer_urls (some a) (some b) =
    if length a == length b
    then strequal (some a) (some b)
    else if length b + 1 == length a
    then misses_slash b a
    else misses_slash a b

same_prefix_slash :
    (a b : Str)
    → length b ≡ length a + 1
    → (get_or b (length a) 0 == b'/') ≡ true
    → same_prefix (length a) a b ≡ true
    → b ≡ a ++ b'/' ∷ []
unfolding same_prefix
same_prefix_slash [] [] h e p = absurd (omega arith)
same_prefix_slash [] (y ∷ []) h e p = ground arith
same_prefix_slash [] (y ∷ z ∷ b) h e p = absurd (omega arith)
same_prefix_slash (x ∷ a) [] h e p = absurd (omega arith)
same_prefix_slash (x ∷ a) (y ∷ b) h e p = ground (arith, same_prefix_slash a b)

same_prefix-append : (a : Str) → same_prefix (length a) a (a ++ b'/' ∷ []) ≡ true
unfolding same_prefix
same_prefix-append [] = refl
same_prefix-append (x ∷ a) = ground (arith, same_prefix-append a)

get_or-append : (a : Str) → get_or (a ++ b'/' ∷ []) (length a) 0 ≡ b'/'
get_or-append [] = refl
get_or-append (x ∷ a) = get_or-append a

slash : (a : Str) → misses_slash a (a ++ b'/' ∷ []) ≡ true
unfolding misses_slash
slash a =
    let e : length (a ++ b'/' ∷ []) - 1 ≡ length a = omega (arith, length-append a (b'/' ∷ [])) in
    rw (e, get_or-append a, same_prefix-append a) (ground arith)

misses_slash_iff :
    (a b : Str) → length a ≢ length b → (misses_slash a b ≡ true) ↔ (b ≡ a ++ b'/' ∷ [])
unfolding misses_slash
misses_slash_iff a b ne = (to, from)
  where
    to : misses_slash a b ≡ true → b ≡ a ++ b'/' ∷ []
    to h =
        let len : length b ≡ length a + 1 = ground arith in
        let last : (get_or b (length a) 0 == b'/') ≡ true = ground arith in
        same_prefix_slash a b len last (ground arith)

    from : b ≡ a ++ b'/' ∷ [] → misses_slash a b ≡ true
    from e = rw e (slash a)

-- Two urls match exactly when they are equal or differ by one trailing slash.
pub comp_issuer_urls_iff :
    (a b : Str)
    → (comp_issuer_urls (some a) (some b) ≡ true)
      ↔ ((a ≡ b) ⊎ (b ≡ a ++ b'/' ∷ []) ⊎ (a ≡ b ++ b'/' ∷ []))
unfolding comp_issuer_urls strequal
comp_issuer_urls_iff a b = (to, from)
  where
    to :
        comp_issuer_urls (some a) (some b) ≡ true
        → (a ≡ b) ⊎ (b ≡ a ++ b'/' ∷ []) ⊎ (a ≡ b ++ b'/' ∷ [])
    to h = ground (arith, same_text_iff a b, misses_slash_iff a b, misses_slash_iff b a)

    from :
        (a ≡ b) ⊎ (b ≡ a ++ b'/' ∷ []) ⊎ (a ≡ b ++ b'/' ∷ [])
        → comp_issuer_urls (some a) (some b) ≡ true
    from h = ground (
      arith,
      same_text_iff a b,
      misses_slash_iff a b,
      misses_slash_iff b a,
      length-append a (b'/' ∷ []),
      length-append b (b'/' ∷ []),
    )
