-- ===== src/Crypt/Memory/Laws.antt =====
-- Decryption undoes encryption.
use Prim.Native.Nat.{bit_xor}
use mathlib.Core.Path.{ap₂}
use oidc_agent.Prelude.{
  ℕ, ◌^◌, zero, suc, ◌+◌, ◌%◌, ◌<◌, ◌≡◌, ◌≢◌, refl, ap, ◌∙◌, subst, Bool, true, false, none, Option,
  if◌then◌else◌, ==_iff, ◌&&◌, some, List, [], ◌∷◌, ◌++◌, ◌==◌, ltb, arith, length, All, All-imp,
}
use oidc_agent.ListUtils.{is_none}
use oidc_agent.Text.{Str, str_valid, IsText}
use oidc_agent.Text.Tokens.{strtok, strtok-append, strtok_last}
use oidc_agent.Text.Number.{print_lu, print_lu-digits, print_lu-cons, str_to_int-print_lu, is_digit}
use oidc_agent.Crypt.Memory.{
  xor_crypt, xor_from, key_byte, c_string, Base64, IsCoding, is_colon, memory_encrypt,
  memory_decrypt, decrypt_tokens,
}

-- The largest number under a bound that fails a test.
unfoldable pub counterexample : (ℕ → Bool) → ℕ → Option ℕ
counterexample test zero = none
counterexample test (suc bound) =
    let smaller = counterexample test bound in if test bound then smaller else some bound

pub no_counterexample :
    (test : ℕ → Bool) (bound c : ℕ) → counterexample test bound ≡ none → c < bound → test c ≡ true
unfolding counterexample
no_counterexample test zero c none_found lt = absurd (omega arith)
no_counterexample test (suc bound) c none_found lt =
    ground (arith, no_counterexample test bound c, ==_iff c bound)

abbrev xor_undone : ℕ → ℕ → Bool
xor_undone k x = bit_xor (bit_xor x k) k == x && ltb (bit_xor x k) 256

abbrev key_undone : ℕ → Bool
key_undone k = is_none (counterexample (xor_undone k) 256)

xor_table : counterexample key_undone 256 ≡ none
unfolding counterexample
xor_table = refl

pub is_none-none : (o : Option ℕ) → is_none o ≡ true → o ≡ none
is_none-none none h = refl
is_none-none (some x) h = cc

xor_byte : (k x : ℕ) → k < 256 → x < 256 → (bit_xor (bit_xor x k) k ≡ x) × (bit_xor x k < 256)
xor_byte k x hk hx =
    let all_keys : counterexample (xor_undone k) 256 ≡ none =
      is_none-none _ (no_counterexample key_undone 256 k xor_table hk) in
    ground (arith, no_counterexample (xor_undone k) 256 x all_keys hx)

key_byte-lt : (key i : ℕ) → key_byte key i < 256
unfolding key_byte
key_byte-lt key i = omega arith

abbrev IsBytes : List ℕ → Type 0
IsBytes = All (λ c. c < 256)

xor_from-IsBytes : (key i : ℕ) (s : List ℕ) → IsBytes s → IsBytes (xor_from key i s)
unfolding xor_from
xor_from-IsBytes key i [] h = tt
xor_from-IsBytes key i (c ∷ s) h = (
  (xor_byte (key_byte key (i % 8)) c (key_byte-lt key (i % 8)) h.0).1,
  xor_from-IsBytes key (i + 1) s h.1,
)

xor_from-xor_from : (key i : ℕ) (s : List ℕ) → IsBytes s → xor_from key i (xor_from key i s) ≡ s
unfolding xor_from
xor_from-xor_from key i [] h = refl
xor_from-xor_from key i (c ∷ s) h =
    ap₂ ◌∷◌ (xor_byte (key_byte key (i % 8)) c (key_byte-lt key (i % 8)) h.0).0
      (xor_from-xor_from key (i + 1) s h.1)

length-xor_from : (key i : ℕ) (s : List ℕ) → length (xor_from key i s) ≡ length s
unfolding xor_from
length-xor_from key i [] = refl
length-xor_from key i (c ∷ s) = ap suc (length-xor_from key (i + 1) s)

-- The same key gives the bytes back.
pub xor_crypt-xor_crypt : (key : ℕ) (s : List ℕ) → IsBytes s → xor_crypt (xor_crypt s key) key ≡ s
unfolding xor_crypt
xor_crypt-xor_crypt key s h = xor_from-xor_from key 0 s h

pub c_string-text : (s : Str) → IsText s → c_string s ≡ s
unfolding c_string
c_string-text [] h = refl
c_string-text (c ∷ s) h = ground (arith, c_string-text s h.1)

str_valid-digit : (c : ℕ) (s : Str) → is_digit c ≡ true → str_valid (some (c ∷ s)) ≡ true
unfolding str_valid is_digit
str_valid-digit c s h = ground arith

digit-no_colon : (c : ℕ) → is_digit c ≡ true → is_colon c ≡ false
unfolding is_digit
digit-no_colon c h = ground arith

valid_not_empty : (s : Str) → str_valid (some s) ≡ true → s ≢ []
unfolding str_valid
valid_not_empty [] h e = cc
valid_not_empty (c ∷ s) h e = cc

module _ (b : Base64) (coding : IsCoding b) (key : ℕ) where
  decrypt_tokens_lem :
      (n : ℕ) (bin : List ℕ)
      → 0 < n
      → n < 2 ^ 31
      → length bin ≡ n
      → IsBytes bin
      → bin ≢ []
      → decrypt_tokens b key (strtok is_colon (print_lu n ++ b':' ∷ b.to_base64 bin))
        ≡ some (c_string (xor_crypt bin key))
  unfolding decrypt_tokens xor_crypt
  decrypt_tokens_lem n bin pos_n short e bytes ne =
      rw
        (
          strtok-append is_colon (print_lu n) (b.to_base64 bin) b':' printed
              (All-imp (print_lu n) digit-no_colon (print_lu-digits n)) refl,
          strtok_last is_colon (b.to_base64 bin) (coding.not_empty bin ne) (coding.no_colon bin),
          str_to_int-print_lu n short,
        )
        (rw (some_bytes n pos_n, decoded))
    where
      some_bytes : (k : ℕ) → 0 < k → (k == 0) ≡ false
      some_bytes k h = ground arith

      decoded : b.from_base64 (b.to_base64 bin) n ≡ bin
      decoded = subst (λ k. b.from_base64 (b.to_base64 bin) k ≡ bin) e (coding.decodes bin bytes)

      printed : print_lu n ≢ []
      printed h = let (c, s, p, d) = print_lu-cons n in cc

  text-IsBytes : (s : Str) → IsText s → IsBytes s
  text-IsBytes s h = All-imp s (λ c p. p.1) h

  not_empty_pos : (s : Str) → s ≢ [] → 0 < length s
  not_empty_pos [] h = absurd (h refl)
  not_empty_pos (c ∷ s) h = omega arith

  xor_not_empty : (s : Str) → s ≢ [] → xor_crypt s key ≢ []
  unfolding xor_crypt
  xor_not_empty [] h e = h refl
  xor_not_empty (c ∷ s) h e = cc

  -- A valid C string whose length fits an int comes back from encryption and decryption under one
  -- key, whatever the key is.
  pub memory_decrypt-memory_encrypt :
      (t : Str)
      → str_valid (some t) ≡ true
      → IsText t
      → length t < 2 ^ 31
      → memory_decrypt b key (memory_encrypt b key (some t)) ≡ some t
  unfolding memory_encrypt memory_decrypt
  memory_decrypt-memory_encrypt t v h short =
      let ne = valid_not_empty t v in
      let (c, s, p, d) = print_lu-cons (length t) in
      let valid : str_valid (some (print_lu (length t) ++ b':' ∷ b.to_base64 (xor_crypt t key)))
          ≡ true =
        rw p (str_valid-digit c (s ++ b':' ∷ b.to_base64 (xor_crypt t key)) d) in
      let bytes = text-IsBytes t h in
      rw (v, memory_decrypt, valid)
        (decrypt_tokens_lem (length t) (xor_crypt t key) (not_empty_pos t ne) short
            (unfold xor_crypt in length-xor_from key 0 t)
            (unfold xor_crypt in xor_from-IsBytes key 0 t bytes) (xor_not_empty t ne)
          ∙ ap (λ k. some (c_string k)) (xor_crypt-xor_crypt key t bytes)
          ∙ ap some (c_string-text t h))
