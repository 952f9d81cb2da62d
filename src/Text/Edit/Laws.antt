-- ===== src/Text/Edit/Laws.antt =====
-- What the tests find and what the changes leave.
use oidc_agent.Prelude.{
  ℕ, ◌+◌, ◌≡◌, ◌≢◌, ◌↔◌, refl, ap, Bool, true, false, ◌&&◌, ◌||◌, some, [], ◌∷◌, ◌++◌, ◌==◌, ==_iff,
  arith, length, inl, inr, ◌⊎◌, Bool-cases,
}
use oidc_agent.Text.{Str}
use oidc_agent.Account.Issuer.{comp_issuer_urls, comp_issuer_urls_iff}
use oidc_agent.Text.Edit.{
  is_prefix, contains, str_sub_string, elim_from, strelim, count_char, str_count_char, escape_from,
  escape_char_in_str, last_char, with_trailing_slash, str_replace_char, strcutafterfirst,
}

pub is_prefix_to : (pre str : Str) → is_prefix pre str ≡ true → (rest : Str) × (str ≡ pre ++ rest)
unfolding is_prefix
is_prefix_to [] str h = (str, refl)
is_prefix_to (x ∷ pre) [] h = cc
is_prefix_to (x ∷ pre) (y ∷ str) h =
    let same : x ≡ y = ground (arith, ==_iff x y) in
    let (rest, e) = is_prefix_to pre str (ground arith) in (rest, cc)

pub is_prefix-append : (pre rest : Str) → is_prefix pre (pre ++ rest) ≡ true
unfolding is_prefix
is_prefix-append [] rest = refl
is_prefix-append (x ∷ pre) rest = ground (arith, is_prefix-append pre rest)

contains_to :
    (h n : Str) → contains h n ≡ true → (before : Str) × (after : Str) × (h ≡ before ++ n ++ after)
unfolding contains
contains_to [] n e = let (rest, q) = is_prefix_to n [] e in ([], rest, q)
contains_to (x ∷ h) n e = elim (Bool-cases (is_prefix n (x ∷ h))) [
  | inl y ↦ let (rest, q) = is_prefix_to n (x ∷ h) y in ([], rest, q)
  | inr y ↦
      let (before, after, q) = contains_to h n (ground arith) in
      (x ∷ before, after, ap (λ t. x ∷ t) q)
]

prefix_contained : (h n : Str) → is_prefix n h ≡ true → contains h n ≡ true
unfolding contains
prefix_contained [] n e = e
prefix_contained (x ∷ h) n e = ground arith

contains-append : (before n after : Str) → contains (before ++ n ++ after) n ≡ true
unfolding contains
contains-append [] n after = prefix_contained (n ++ after) n (is_prefix-append n after)
contains-append (x ∷ before) n after = ground (arith, contains-append before n after)

-- A string is found in another exactly when the other is made of a part before it, it, and a part
-- after it.
pub str_sub_string_iff :
    (h n : Str)
    → (str_sub_string (some h) (some n) ≡ true)
      ↔ ((before : Str) × (after : Str) × (h ≡ before ++ n ++ after))
unfolding str_sub_string
str_sub_string_iff h n =
    (contains_to h n, λ (before, after, e). rw e (contains-append before n after))

-- Two neighbours that are both `c`.
pub has_double : ℕ → Str → Bool
has_double c [] = false
has_double c (x ∷ []) = false
has_double c (x ∷ y ∷ s) = (x == c && y == c) || has_double c (y ∷ s)

unfoldable pub has_char : ℕ → Str → Bool
has_char c [] = false
has_char c (x ∷ s) = x == c || has_char c s

has_double-skip : (c y : ℕ) (s : Str) → (y == c) ≡ false → has_double c (y ∷ s) ≡ has_double c s
unfolding has_double
has_double-skip c y [] e = refl
has_double-skip c y (z ∷ s) e = rw e refl

has_char-elim_from : (c : ℕ) (s : Str) → has_char c (elim_from c false s) ≡ has_double c s
unfolding has_char elim_from has_double
has_char-elim_from c [] = refl
has_char-elim_from c (x ∷ []) = ground arith
has_char-elim_from c (x ∷ y ∷ s) =
    ground (arith, has_char-elim_from c (y ∷ s), has_char-elim_from c s, has_double-skip c y s)

-- The result of strelim holds the character that it eliminates exactly when the string held it twice
-- in a row.
pub strelim_leaves :
    (s : Str) (c : ℕ)
    → (out : Str) × (strelim (some s) c ≡ some out) × (has_char c out ≡ has_double c s)
unfolding strelim
strelim_leaves s c = (elim_from c false s, refl, has_char-elim_from c s)

length-escape_from : (c : ℕ) (s : Str) → length (escape_from c s) ≡ length s + count_char c s
unfolding escape_from count_char
length-escape_from c [] = refl
length-escape_from c (x ∷ s) = ground (arith, length-escape_from c s)

-- Escaping adds one character for each character that is escaped.
pub length-escape_char_in_str :
    (s : Str) (c : ℕ)
    → (out : Str) × (escape_char_in_str (some s) c ≡ some out)
      × (length out ≡ length s + str_count_char (some s) c)
unfolding escape_char_in_str str_count_char
length-escape_char_in_str s c = (escape_from c s, refl, length-escape_from c s)

last_char-append : (x y : ℕ) (s : Str) → last_char x (s ++ y ∷ []) ≡ y
unfolding last_char
last_char-append x y [] = refl
last_char-append x y (z ∷ s) = last_char-append z y s

-- Adding a trailing slash to a url that is not empty gives a url that ends with one, that counts as the
-- same issuer, and to which nothing is added again.
pub with_trailing_slash_lem :
    (s : Str)
    → s ≢ []
    → (out : Str) × (with_trailing_slash s ≡ some out)
      × (comp_issuer_urls (some s) (some out) ≡ true)
      × (with_trailing_slash out ≡ some out)
unfolding with_trailing_slash
with_trailing_slash_lem [] h = absurd (h refl)
with_trailing_slash_lem (x ∷ s) h = elim (Bool-cases (last_char x s == b'/')) [
  | inl e ↦ (x ∷ s, rw e refl, (comp_issuer_urls_iff _ _).1 (inl refl), rw e refl)
  | inr e ↦ (
    (x ∷ s) ++ b'/' ∷ [],
    rw e refl,
    (comp_issuer_urls_iff _ _).1 (inr (inl refl)),
    rw (last_char-append x b'/' s) refl,
  )
]

-- Replacing a character by another one leaves none of it and keeps the length.
pub str_replace_char_lem :
    (s : Str) (orig rep : ℕ)
    → orig ≢ rep
    → (has_char orig (str_replace_char s orig rep) ≡ false)
      × (length (str_replace_char s orig rep) ≡ length s)
unfolding has_char str_replace_char
str_replace_char_lem [] orig rep ne = (refl, refl)
str_replace_char_lem (x ∷ s) orig rep ne =
    ground (arith, str_replace_char_lem s orig rep ne, ==_iff rep orig)

-- A string is cut before the first of a character: the result does not hold it, and what is cut off is
-- nothing or starts with it.
pub strcutafterfirst_lem :
    (s : Str) (c : ℕ)
    → (has_char c (strcutafterfirst s c) ≡ false)
      × ((s ≡ strcutafterfirst s c) ⊎ ((rest : Str) × (s ≡ strcutafterfirst s c ++ c ∷ rest)))
unfolding has_char strcutafterfirst
strcutafterfirst_lem [] c = (refl, inl refl)
strcutafterfirst_lem (x ∷ s) c = elim (Bool-cases (x == c)) [
  | inl e ↦ rw e (refl, inr (s, ap (λ y. y ∷ s) ((==_iff x c).0 e)))
  | inr e ↦
      let (absent, cut) = strcutafterfirst_lem s c in
      rw e (
        rw e absent,
        elim cut [
          | inl k ↦ inl (ap (λ t. x ∷ t) k)
          | inr (rest, k) ↦ inr (rest, ap (λ t. x ∷ t) k)
        ],
      )
]
