-- ===== src/Crypt/Toy.antt =====
-- Functions that fill the place of libsodium's: keys made of the password's first character, and boxes
-- that hold the message behind one byte.
use oidc_agent.Prelude.{
  ℕ, zero, suc, ◌+◌, ◌*◌, ◌%◌, ◌<◌, ◌≡◌, refl, false, Option, none, some, List, [], ◌∷◌, ◌==◌, All,
  length, replicate, length-replicate, arith, pos,
}
use oidc_agent.Text.{Str}
use oidc_agent.Crypt.Examples.{letters, letters-IsCoding, to_letters}
use oidc_agent.Crypt.Format.{Sodium}
use oidc_agent.Crypt.Format.Sealed.{IsSodium, IsBytes}

abbrev key_of : Str → ℕ
key_of [] = 0
key_of (c ∷ s) = c % 256

abbrev opened_box : List ℕ → Option (List ℕ)
opened_box [] = none
opened_box (c ∷ s) = some s

unfoldable pub toy : Sodium
unfolding letters
toy = record {
  nonce_bytes = 1;
  salt_bytes = 1;
  mac_bytes = 1;
  key_bytes = 1;
  variant_original = pos 1;
  ops_limit = pos 2;
  mem_limit = pos 67108864;
  alg_default = pos 2;
  base64 = letters;
  hex2bin = λ text n. replicate n 0;
  pwhash = λ len password salt ops mem alg. some (replicate len (key_of password));
  secretbox = λ message nonce key. some (7 ∷ message);
  secretbox_open = λ box nonce key. opened_box box;
}

replicate-IsBytes : (n c : ℕ) → c < 256 → IsBytes (replicate n c)
replicate-IsBytes zero c h = tt
replicate-IsBytes (suc n) c h = (h, replicate-IsBytes n c h)

key_of-lt : (s : Str) → key_of s < 256
key_of-lt [] = omega arith
key_of-lt (c ∷ s) = omega arith

letters-no_newline : (bin : List ℕ) → All (λ c. (c == b'\n') ≡ false) (to_letters bin)
unfolding to_letters
letters-no_newline [] = tt
letters-no_newline (c ∷ s) = (ground arith, (ground arith, letters-no_newline s))

letters-length : (bin : List ℕ) → length (to_letters bin) ≡ 2 * length bin
unfolding to_letters
letters-length [] = refl
letters-length (c ∷ s) = omega (arith, letters-length s)

pub toy-IsSodium : IsSodium toy
unfolding toy letters
toy-IsSodium = record {
  coding = letters-IsCoding;
  no_newline = letters-no_newline;
  coded_length = λ a b e. omega (arith, letters-length a, letters-length b);
  nonce_fits = (omega arith, omega arith);
  salt_fits = (omega arith, omega arith);
  mac_fits = (omega arith, omega arith);
  key_fits = (omega arith, omega arith);
  hash_length = λ len password salt key ops mem alg e. hashed len password key e;
  box_length = λ message nonce key box e. boxed message box e;
  box_bytes = λ message nonce key box b e. bytes message box b e;
  opens = λ message nonce key box e. reopened message box e;
}
  where
    hashed :
        (len : ℕ) (password : Str) (key : List ℕ)
        → some (replicate len (key_of password)) ≡ some key
        → (length key ≡ len) × IsBytes key
    hashed len password key e =
        let same : replicate len (key_of password) ≡ key = cc in
        rw (← same) (
          length-replicate len (key_of password),
          replicate-IsBytes len (key_of password) (key_of-lt password),
        )

    boxed : (message box : List ℕ) → some (7 ∷ message) ≡ some box → length box ≡ length message + 1
    boxed message box e = let same : 7 ∷ message ≡ box = cc in rw (← same) (omega arith)

    bytes : (message box : List ℕ) → IsBytes message → some (7 ∷ message) ≡ some box → IsBytes box
    bytes message box b e = let same : 7 ∷ message ≡ box = cc in rw (← same) (omega arith, b)

    reopened :
        (message box : List ℕ) → some (7 ∷ message) ≡ some box → opened_box box ≡ some message
    reopened message box e = let same : 7 ∷ message ≡ box = cc in rw (← same) refl
