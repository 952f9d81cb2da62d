-- ===== src/Crypt/Format/Written.antt =====
-- The lines that crypt_encrypt writes are read back by crypt_decrypt.
use oidc_agent.Prelude.{
  ℕ, suc, ◌^◌, ◌<◌, ◌≡◌, ◌≢◌, refl, true, false, some, List, [], ◌∷◌, ◌++◌, ◌==◌, All, All-imp,
  All-append, length, arith, ℤ, pos, negsuc,
}
use oidc_agent.Text.{Str, codes}
use oidc_agent.Text.Number.{print_lu, print_lu-digits, print_lu-cons, is_digit}
use oidc_agent.Text.Scan.{to_ulong, print_d}
use oidc_agent.Text.Scan.Laws.{scan_fields-next}
use oidc_agent.ListUtils.Delimited.{joined, delimited_string_to_list, list_to_delimited_string}
use oidc_agent.ListUtils.Delimited.Laws.{IsToken, delimited_string_to_list-list_to_delimited_string}
use oidc_agent.Crypt.Format.{
  Sodium, CryptParameter, scan_parameters, print_parameters, format_lines,
}
use oidc_agent.Crypt.Format.Sealed.{IsSodium, sealed_info, hash_part}

abbrev pub Lacks : ℕ → Str → Type 0
Lacks d = All (λ c. (c == d) ≡ false)

pub print_lu-Lacks : (d n : ℕ) → is_digit d ≡ false → Lacks d (print_lu n)
print_lu-Lacks d n h = All-imp (print_lu n) (λ c k. other c k) (print_lu-digits n)
  where
    other : (c : ℕ) → is_digit c ≡ true → (c == d) ≡ false
    other c k = ground arith

print_d-Lacks : (z : ℤ) → Lacks b'\n' (print_d z)
unfolding print_d is_digit
print_d-Lacks (pos n) = print_lu-Lacks b'\n' n refl
print_d-Lacks (negsuc n) = (refl, print_lu-Lacks b'\n' (suc n) refl)

pub joined-Lacks :
    (c : ℕ) (x d : Str) (xs : List Str)
    → Lacks c x
    → Lacks c d
    → All (Lacks c) xs
    → Lacks c (joined x d xs)
unfolding joined
joined-Lacks c x d [] h k hs = h
joined-Lacks c x d (y ∷ ys) h k hs =
    All-append _ x (d ++ joined y d ys) h
      (All-append _ d (joined y d ys) k (joined-Lacks c y d ys hs.0 k hs.1))

pub print_lu-IsToken : (d n : ℕ) → is_digit d ≡ false → IsToken d (print_lu n)
print_lu-IsToken d n h = let (c, s, e, k) = print_lu-cons n in ((λ empty. cc), print_lu-Lacks d n h)

append-not_empty : (x y : Str) → x ≢ [] → x ++ y ≢ []
append-not_empty [] y h e = h refl
append-not_empty (c ∷ x) y h e = cc

print_parameters-IsToken : (p : CryptParameter) → IsToken b'\n' (print_parameters p)
unfolding print_parameters is_digit joined
print_parameters-IsToken p = (
  append-not_empty (print_lu p.nonce_len) _ (print_lu-IsToken b'\n' p.nonce_len refl).0,
  joined-Lacks b'\n' (print_lu p.nonce_len) (codes ":")
      (print_lu p.salt_len
        ∷ print_lu p.mac_len
        ∷ print_lu p.key_len
        ∷ print_d p.base64_variant
        ∷ print_d p.hash_ops_limit
        ∷ print_d p.hash_mem_limit
        ∷ print_d p.hash_alg
        ∷ [])
      (print_lu-Lacks b'\n' p.nonce_len refl) (refl, tt)
      (
        print_lu-Lacks b'\n' p.salt_len refl,
        (
          print_lu-Lacks b'\n' p.mac_len refl,
          (
            print_lu-Lacks b'\n' p.key_len refl,
            (
              print_d-Lacks p.base64_variant,
              (
                print_d-Lacks p.hash_ops_limit,
                (print_d-Lacks p.hash_mem_limit, (print_d-Lacks p.hash_alg, tt)),
              ),
            ),
          ),
        ),
      ),
)

pub to_ulong-pos : (n : ℕ) → n < 2 ^ 64 → to_ulong (pos n) ≡ n
unfolding to_ulong
to_ulong-pos n h = ground arith

-- The four lengths are read back.
pub scan_parameters-print_parameters :
    (p : CryptParameter)
    → p.nonce_len < 2 ^ 64
    → p.salt_len < 2 ^ 64
    → p.mac_len < 2 ^ 64
    → p.key_len < 2 ^ 64
    → let q = scan_parameters (print_parameters p) in
      (q.nonce_len ≡ p.nonce_len)
      × (q.salt_len ≡ p.salt_len)
      × (q.mac_len ≡ p.mac_len)
      × (q.key_len ≡ p.key_len)
unfolding scan_parameters print_parameters joined
scan_parameters-print_parameters p n s m k =
    let last =
      joined (print_d p.base64_variant) (codes ":")
        (print_d p.hash_ops_limit ∷ print_d p.hash_mem_limit ∷ print_d p.hash_alg ∷ []) in
    let keyed = print_lu p.key_len ++ b':' ∷ last in
    let maced = print_lu p.mac_len ++ b':' ∷ keyed in
    let salted = print_lu p.salt_len ++ b':' ∷ maced in
    let first = scan_fields-next 7 b':' p.nonce_len salted (unfold is_digit in refl) in
    let second = scan_fields-next 6 b':' p.salt_len maced (unfold is_digit in refl) in
    let third = scan_fields-next 5 b':' p.mac_len keyed (unfold is_digit in refl) in
    let fourth = scan_fields-next 4 b':' p.key_len last (unfold is_digit in refl) in
    rw (first, second, third, fourth)
      (to_ulong-pos _ n, to_ulong-pos _ s, to_ulong-pos _ m, to_ulong-pos _ k)

module _ (s : Sodium) (h : IsSodium s) where
  abbrev pub lines_of : List ℕ → List ℕ → List ℕ → List ℕ → ℕ → List Str
  lines_of salt nonce key box n =
      let cry = sealed_info s salt nonce key box in
      print_lu n
      ∷ s.base64.to_base64 nonce
      ∷ s.base64.to_base64 salt
      ∷ print_parameters cry.crypt_parameter
      ∷ s.base64.to_base64 box
      ∷ s.base64.to_base64 (hash_part s key)
      ∷ []

  coded-IsToken : (bin : List ℕ) → 0 < length bin → IsToken b'\n' (s.base64.to_base64 bin)
  coded-IsToken [] k = absurd (omega arith)
  coded-IsToken (c ∷ bin) k = (h.coding.not_empty (c ∷ bin) (λ e. cc), h.no_newline (c ∷ bin))

  pub lines_of-IsToken :
      (salt nonce key box : List ℕ) (n : ℕ)
      → 0 < length salt
      → 0 < length nonce
      → 0 < length box
      → 0 < length (hash_part s key)
      → All (IsToken b'\n') (lines_of salt nonce key box n)
  unfolding is_digit
  lines_of-IsToken salt nonce key box n a b c d = (
    print_lu-IsToken b'\n' n refl,
    (
      coded-IsToken nonce b,
      (
        coded-IsToken salt a,
        (
          print_parameters-IsToken _,
          (coded-IsToken box c, (coded-IsToken (hash_part s key) d, tt)),
        ),
      ),
    ),
  )

  -- The text splits into its lines.
  pub format_lines-read :
      (salt nonce key box : List ℕ) (n : ℕ)
      → All (IsToken b'\n') (lines_of salt nonce key box n)
      → delimited_string_to_list (some (format_lines s n (sealed_info s salt nonce key box))) b'\n'
        ≡ some (lines_of salt nonce key box n)
  unfolding format_lines list_to_delimited_string joined
  format_lines-read salt nonce key box n t =
      delimited_string_to_list-list_to_delimited_string b'\n' (lines_of salt nonce key box n) t
