-- ===== src/Crypt/Format/Refused.antt =====
-- What decryption with another password, or of texts that were not written so, gives.
use mathlib.Core.List.{append-nil}
use oidc_agent.Prelude.{
  ℕ, zero, suc, ◌+◌, ◌*◌, ◌^◌, ◌<◌, ◌≡◌, ◌≢◌, refl, ap, ◌∙◌, sym, subst, true, false, some, List,
  [], ◌∷◌, ◌++◌, ltb, Bool-cases, inl, inr, take, drop, length, length-append, length-take,
  length-drop, arith,
}
use oidc_agent.Text.{Str}
use oidc_agent.Text.Edit.{is_prefix}
use oidc_agent.Text.Edit.Laws.{is_prefix_to}
use oidc_agent.Crypt.Answer.{ok, err, wrong_password}
use oidc_agent.Crypt.Format.{
  Sodium, CryptParameter, crypt_encrypt, crypt_decrypt, crypt_decrypt_base64,
  crypt_key_derivation_base64, split_key, check_password,
}
use oidc_agent.Crypt.Format.Sealed.{
  IsSodium, IsRandom, IsBytes, hash_of, encryption_part, hash_part, read_info, with_lengths,
  decodes_to,
}
use oidc_agent.Crypt.Format.Round.{
  written, crypt_encrypt-written, crypt_decrypt-written, crypt_decrypt_from_list-read, scanned,
}

take-IsBytes : (n : ℕ) (xs : List ℕ) → IsBytes xs → IsBytes (take n xs)
take-IsBytes zero xs h = tt
take-IsBytes (suc n) [] h = tt
take-IsBytes (suc n) (x ∷ xs) h = (h.0, take-IsBytes n xs h.1)

drop-IsBytes : (n : ℕ) (xs : List ℕ) → IsBytes xs → IsBytes (drop n xs)
drop-IsBytes zero xs h = h
drop-IsBytes (suc n) [] h = tt
drop-IsBytes (suc n) (x ∷ xs) h = drop-IsBytes n xs h.1

empty_rest : (x rest : Str) → length (x ++ rest) ≡ length x → x ++ rest ≡ x
empty_rest x [] h = append-nil x
empty_rest x (c ∷ rest) h = absurd (omega (arith, length-append x (c ∷ rest)))

module _ (s : Sodium) (h : IsSodium s) where
  -- Two sequences of the same length whose texts fit are the same.
  coded_same :
      (a b : List ℕ)
      → IsBytes a
      → IsBytes b
      → length a ≡ length b
      → is_prefix (s.base64.to_base64 a) (s.base64.to_base64 b) ≡ true
      → a ≡ b
  coded_same a b ha hb l p =
      let (rest, e) = is_prefix_to (s.base64.to_base64 a) (s.base64.to_base64 b) p in
      let same_length = h.coded_length a b l in
      let equal : s.base64.to_base64 b ≡ s.base64.to_base64 a =
        e ∙ empty_rest (s.base64.to_base64 a) rest (ap length (sym e) ∙ sym same_length) in
      sym (h.coding.decodes a ha)
      ∙ ap (λ t. s.base64.from_base64 t (length a)) (sym equal)
      ∙ ap (λ n. s.base64.from_base64 (s.base64.to_base64 b) n) l
      ∙ h.coding.decodes b hb

  hash_part-lem :
      (password : Str) (salt key : List ℕ)
      → hash_of s password salt ≡ some key
      → (length (hash_part s key) ≡ s.key_bytes) × IsBytes (hash_part s key)
  hash_part-lem password salt key e =
      let (len, bytes) =
        h.hash_length (2 * s.key_bytes) password salt key s.ops_limit s.mem_limit s.alg_default e in
      (
        omega (arith, length-take s.key_bytes (drop s.key_bytes key), length-drop s.key_bytes key),
        take-IsBytes s.key_bytes _ (drop-IsBytes s.key_bytes key bytes),
      )

  module _ (text password : Str) (salt nonce key box : List ℕ) (r : IsRandom s salt nonce)
      (e : hash_of s password salt ≡ some key)
      (f : s.secretbox text nonce (encryption_part s key) ≡ some box) (other : Str)
      (other_key : List ℕ) (o : hash_of s other salt ≡ some other_key)
      (differ : hash_part s key ≢ hash_part s other_key) where
    not_prefix :
        is_prefix
          (s.base64.to_base64 (hash_part s key))
          (s.base64.to_base64 (hash_part s other_key))
        ≡ false
    not_prefix =
        let (l, b) = hash_part-lem password salt key e in
        let (l', b') = hash_part-lem other salt other_key o in
        elim (Bool-cases (
          is_prefix (s.base64.to_base64 (hash_part s key))
            (s.base64.to_base64 (hash_part s other_key)))) [
              | inl p ↦ absurd (differ (coded_same _ _ b b' (l ∙ sym l') p))
              | inr p ↦ p
            ]

    crypt_decrypt_base64-refused :
        (p : CryptParameter)
        → p ≡ with_lengths s p.base64_variant p.hash_ops_limit p.hash_mem_limit p.hash_alg
        → crypt_decrypt_base64 s
            (read_info s p salt nonce key box)
            (length text + s.mac_bytes)
            (some other)
          ≡ err wrong_password
    unfolding crypt_decrypt_base64 crypt_key_derivation_base64 split_key check_password
    crypt_decrypt_base64-refused p same =
        let long : ltb (length text + s.mac_bytes) s.mac_bytes ≡ false = ground arith in
        let salted = decodes_to s h salt s.salt_bytes r.salt_bytes r.salt_length in
        subst
          (λ q.
            crypt_decrypt_base64 s (read_info s q salt nonce key box) (length text + s.mac_bytes)
              (some other)
            ≡ err wrong_password)
          (sym same) (rw (long, salted, o, not_prefix) refl)

    -- A wrong password is told apart from a damaged text: if a text was encrypted with a password, then
    -- decrypting it with another one, of which the part of the hash that is stored differs, gives the
    -- error for a wrong password.
    pub crypt_decrypt-wrong_password :
        length text + s.mac_bytes < 2 ^ 64
        → (cipher : Str) × (crypt_encrypt s (some text) (some password) salt nonce ≡ ok cipher)
          × (crypt_decrypt s (some cipher) (some other) ≡ err wrong_password)
    crypt_decrypt-wrong_password l = (
      written s h text password salt nonce key box r e f,
      crypt_encrypt-written s h text password salt nonce key box r e f,
      crypt_decrypt-written s h text password salt nonce key box r e f other
          ∙ crypt_decrypt_from_list-read s h text salt nonce key box l other
          ∙ crypt_decrypt_base64-refused _ (scanned s h),
    )
