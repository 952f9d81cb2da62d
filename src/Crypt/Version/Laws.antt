-- ===== src/Crypt/Version/Laws.antt =====
-- Versions are compared number by number, and the version of a version line is found again.
use oidc_agent.Prelude.{
  ℕ, ◌^◌, ◌<◌, ◌≡◌, ◌≢◌, refl, ◌∙◌, Bool, true, false, some, [], ◌∷◌, ◌++◌, ◌&&◌, ◌||◌, ◌==◌, leb,
  ltb, All, length, length-append, arith, pos,
}
use oidc_agent.Text.{Str}
use oidc_agent.Text.Number.{print_lu, print_lu-cons, is_digit}
use oidc_agent.Text.Tokens.{strtok, strtok_skips, strtok_last}
use oidc_agent.Text.Scan.{scan_fields, to_ushort, to_ulong}
use oidc_agent.Text.Scan.Laws.{scan_fields-next, scan_fields_last}
use oidc_agent.Crypt.Answer.{ok}
use oidc_agent.Crypt.Version.{
  version_line_fmt, in_version_line_fmt, version_line_to_simple_version,
  simple_version_to_version_line, version_at_least, compare_major, compare_minor, compare_patch,
  number_at,
}

every : (ℕ → Bool) → Str → Bool
every p [] = true
every p (c ∷ s) = p c && every p s

every-All : (p : ℕ → Bool) (s : Str) → every p s ≡ true → All (λ c. p c ≡ true) s
unfolding every
every-All p [] h = tt
every-All p (c ∷ s) h = (ground arith, every-All p s (ground arith))

-- The version of a version line is found again: if a version is not empty and none of its characters
-- stands in "Generated using version: ", then versionLineToSimpleVersion gives back the version that
-- simpleVersionToVersionLine put into the line.
pub version_line_to_simple_version-simple_version_to_version_line :
    (version : Str)
    → version ≢ []
    → All (λ c. in_version_line_fmt c ≡ false) version
    → version_line_to_simple_version (some (simple_version_to_version_line (some version)))
      ≡ some version
unfolding version_line_to_simple_version simple_version_to_version_line
version_line_to_simple_version-simple_version_to_version_line version n h =
    let found : strtok in_version_line_fmt (version_line_fmt ++ version) ≡ some (version, []) =
      strtok_skips in_version_line_fmt version_line_fmt version
        (every-All in_version_line_fmt version_line_fmt (unfold every in refl))
      ∙ strtok_last in_version_line_fmt version n h in
    rw (found, version_line_to_simple_version) refl

-- A version as it is written.
abbrev pub rendered : ℕ → ℕ → ℕ → Str
rendered major minor patch = print_lu major ++ b'.' ∷ (print_lu minor ++ b'.' ∷ print_lu patch)

scan_fields-rendered :
    (a b c : ℕ) → scan_fields 3 b'.' (rendered a b c) ≡ pos a ∷ pos b ∷ pos c ∷ []
scan_fields-rendered a b c =
    let first =
      scan_fields-next 2 b'.' a (print_lu b ++ b'.' ∷ print_lu c) (unfold is_digit in refl) in
    let second = scan_fields-next 1 b'.' b (print_lu c) (unfold is_digit in refl) in
    rw (first, second, scan_fields_last 0 b'.' c) refl

print_lu-nonempty : (n : ℕ) → 0 < length (print_lu n)
print_lu-nonempty n = let (c, s, e, k) = print_lu-cons n in rw e (omega arith)

rendered-long : (a b c : ℕ) → ltb (length (rendered a b c)) 5 ≡ false
rendered-long a b c = ground (
  arith,
  length-append (print_lu a) (b'.' ∷ (print_lu b ++ b'.' ∷ print_lu c)),
  length-append (print_lu b) (b'.' ∷ print_lu c),
  print_lu-nonempty a,
  print_lu-nonempty b,
  print_lu-nonempty c,
)

to_ushort-pos : (n : ℕ) → n < 2 ^ 16 → to_ushort (pos n) ≡ n
unfolding to_ushort to_ulong
to_ushort-pos n h = ground arith

abbrev pub IsVersion : ℕ → ℕ → ℕ → Type 0
IsVersion a b c = (a < 2 ^ 16) × (b < 2 ^ 16) × (c < 2 ^ 16)

-- The order of versions.
abbrev pub not_older : ℕ → ℕ → ℕ → ℕ → ℕ → ℕ → Bool
not_older a b c a' b' c' = ltb a' a || (a' == a && (ltb b' b || (b' == b && leb c' c)))

-- Written versions are compared number by number: if the numbers of two versions fit 16 bits, then
-- versionAtLeast accepts the first one exactly when it has a larger major number, or the same major
-- number and a larger minor number, or the same two and a patch number that is not smaller; and it
-- refuses it otherwise.
pub version_at_least-rendered :
    (a b c a' b' c' : ℕ)
    → IsVersion a b c
    → IsVersion a' b' c'
    → version_at_least (some (rendered a b c)) (rendered a' b' c') ≡ ok (not_older a b c a' b' c')
unfolding version_at_least compare_major compare_minor compare_patch number_at
version_at_least-rendered a b c a' b' c' v v' =
    rw
      (
        rendered-long a b c,
        scan_fields-rendered a b c,
        scan_fields-rendered a' b' c',
        to_ushort-pos a v.0,
        to_ushort-pos b v.1,
        to_ushort-pos c v.2,
        to_ushort-pos a' v'.0,
        to_ushort-pos b' v'.1,
        to_ushort-pos c' v'.2,
      )
      (ground arith)
