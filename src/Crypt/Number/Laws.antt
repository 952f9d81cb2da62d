-- ===== src/Crypt/Number/Laws.antt =====
-- A number that is written in base 96 is read back, and which numbers cannot be written.
use oidc_agent.Prelude.{
  ℕ, zero, suc, ◌+◌, ◌*◌, ◌/◌, ◌%◌, ◌^◌, ◌≤◌, ◌<◌, ◌≡◌, refl, ap, ◌∙◌, Bool, true, false, Option,
  none, some, [], ◌∷◌, ◌==◌, length, arith, Bool-cases, Option-cases, inl, inr, ◌⊎◌,
}
use oidc_agent.Text.{Str}
use oidc_agent.Crypt.Memory.Laws.{counterexample, no_counterexample}
use oidc_agent.Crypt.Number.{
  char_to_number, number_to_char, lpow, number_loop, string_to_number, string_loop,
  number_to_string,
}

abbrev reads : Option ℕ → ℕ → Bool
reads none d = d == 0
reads (some c) d = char_to_number c == d

abbrev reads_back : ℕ → Bool
reads_back d = reads (number_to_char d) d

reads_back_table : counterexample reads_back 96 ≡ none
unfolding counterexample number_to_char char_to_number
reads_back_table = refl

char_to_number-number_to_char :
    (d c : ℕ) → d < 96 → number_to_char d ≡ some c → char_to_number c ≡ d
char_to_number-number_to_char d c h e =
    let checked = no_counterexample reads_back 96 d reads_back_table h in
    let read : (char_to_number c == d) ≡ true = rw e at checked in ground arith

abbrev is_power : ℕ → Bool
is_power n = lpow 96 n == 96 ^ n

lpow_table : counterexample is_power 9 ≡ none
unfolding counterexample lpow
lpow_table = refl

lpow-power : (n : ℕ) → n < 9 → lpow 96 n ≡ 96 ^ n
lpow-power n h = let checked = no_counterexample is_power 9 n lpow_table h in ground arith

-- The number that a text stands for, of any length.
pub base_96 : Str → ℕ
base_96 [] = 0
base_96 (c ∷ s) = 96 ^ length s * char_to_number c + base_96 s

number_loop-base_96 :
    (i : ℕ) (str : Str)
    → i < 2 ^ 64
    → length str ≤ 9
    → number_loop i str ≡ (i + base_96 str) % 2 ^ 64
unfolding number_loop base_96
number_loop-base_96 i [] h l = omega arith
number_loop-base_96 i (c ∷ s) h l = rw (lpow-power (length s) (omega arith)) (
    number_loop-base_96 ((i + 96 ^ length s * char_to_number c) % 2 ^ 64) s (omega arith)
      (omega arith)
    ∙ omega arith)

-- One digit more in front.
digit_more : (l t : ℕ) → l / 96 * (96 * t) + t * (l % 96) ≡ l * t
digit_more l t =
    let split : l / 96 * 96 + l % 96 ≡ l = omega arith in omega (arith, ap (λ (k : ℕ). k * t) split)

some_injective : {a b : Str} → some a ≡ some b → a ≡ b
some_injective e = cc

more :
    (q n d rest l : ℕ)
    → d ≡ l % 96
    → q ≡ l / 96
    → q * 96 ^ suc n + (96 ^ n * d + rest) ≡ l * 96 ^ n + rest
more q n d rest l e f =
    let power : 96 ^ suc n ≡ 96 * 96 ^ n = omega arith in
    rw (power, e, f) (omega (arith, digit_more l (96 ^ n)))

string_loop-base_96 :
    (i l : ℕ) (acc out : Str)
    → string_loop i l acc ≡ some out
    → (base_96 out ≡ l * 96 ^ length acc + base_96 acc) × (length out ≤ i + length acc)
unfolding string_loop base_96
string_loop-base_96 zero l acc out e = elim (Bool-cases (l == 0)) [
  | inl z ↦
      (let same : acc ≡ out = some_injective (rw z at e) in
        rw (← same) (let l0 : l ≡ 0 = ground arith in rw l0 (omega arith, omega arith)))
  | inr z ↦ (let no : none ≡ some out = rw z at e in cc)
]
string_loop-base_96 (suc i) l acc out e = elim (Bool-cases (l == 0)) [
  | inl z ↦
      (let same : acc ≡ out = some_injective (rw z at e) in
        rw (← same) (let l0 : l ≡ 0 = ground arith in rw l0 (omega arith, omega arith)))
  | inr z ↦ elim (Option-cases (number_to_char (l % 96))) [
    | inl n ↦ (let no : none ≡ some out = rw (z, n) at e in cc)
    | inr (c, f) ↦
        (let (value, long) = string_loop-base_96 i (l / 96) (c ∷ acc) out (rw (z, f) at e) in
          let digit = char_to_number-number_to_char (l % 96) c (omega arith) f in
          (
            value ∙ more (l / 96) (length acc) (char_to_number c) (base_96 acc) l digit refl,
            omega arith,
          ))
  ]
]

-- A number that is written is read back: if numberToString writes a 64-bit number within its buffer and
-- its table, then the text has at most nine characters and stringToNumber gives the number.
pub string_to_number-number_to_string :
    (l : ℕ) (str : Str)
    → l < 2 ^ 64
    → number_to_string l ≡ some str
    → (length str ≤ 9) × (string_to_number (some str) ≡ l)
unfolding number_to_string string_to_number base_96
string_to_number-number_to_string l str h e =
    let (value, long) = string_loop-base_96 9 l [] str e in
    (omega arith, number_loop-base_96 0 str (omega arith) (omega arith) ∙ omega arith)

string_loop-zero_digit : (i l : ℕ) (acc : Str) → 0 < l → l % 96 ≡ 0 → string_loop i l acc ≡ none
unfolding string_loop number_to_char
string_loop-zero_digit zero l acc p h = let z : (l == 0) ≡ false = ground arith in rw z refl
string_loop-zero_digit (suc i) l acc p h = let z : (l == 0) ≡ false = ground arith in rw (z, h) refl

power_pos : (i : ℕ) → 0 < 96 ^ i
power_pos zero = omega arith
power_pos (suc i) = let power : 96 ^ suc i ≡ 96 * 96 ^ i = omega arith in omega (arith, power_pos i)

string_loop-too_large : (i l : ℕ) (acc : Str) → 96 ^ i ≤ l → string_loop i l acc ≡ none
unfolding string_loop
string_loop-too_large zero l acc h = let z : (l == 0) ≡ false = ground arith in rw z refl
string_loop-too_large (suc i) l acc h =
    let power : 96 ^ suc i ≡ 96 * 96 ^ i = omega arith in
    let least = power_pos i in
    let z : (l == 0) ≡ false = ground arith in
    elim (Option-cases (number_to_char (l % 96))) [
      | inl n ↦ rw (z, n) refl
      | inr (c, f) ↦ rw (z, f) (string_loop-too_large i (l / 96) (c ∷ acc) (omega arith))
    ]

-- Which numbers cannot be written: if the last digit of a positive number in base 96 is 0, or if the
-- number has more than nine digits, then numberToString reads or writes outside of an array.
pub number_to_string-none :
    (l : ℕ) → 0 < l → (l % 96 ≡ 0) ⊎ (96 ^ 9 ≤ l) → number_to_string l ≡ none
unfolding number_to_string
number_to_string-none l p (inl h) = string_loop-zero_digit 9 l [] p h
number_to_string-none l p (inr h) = string_loop-too_large 9 l [] h
