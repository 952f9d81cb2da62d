-- ===== src/Passwords/Store/Lookup.antt =====
-- A password that was saved for an account is the one that is got for it.
use oidc_agent.Prelude.{
  ℕ, ◌+◌, ◌^◌, ◌<◌, ◌≡◌, ◌≢◌, refl, sym, ap, ◌∙◌, true, false, Option, some, List, [], ◌∷◌, ◌++◌,
  All, Bool-cases, inl, inr, find_first, remove_first, length, arith,
}
use oidc_agent.Text.{Str, IsText}
use oidc_agent.Text.Laws.{strequal_iff}
use oidc_agent.Crypt.Answer.{ok, ◌>>=◌, >>=-result, ok_injective}
use oidc_agent.Crypt.Format.{Sodium}
use oidc_agent.Crypt.Number.{number_to_string}
use oidc_agent.Crypt.Format.Sealed.{IsSodium, IsRandom, hash_of, encryption_part}
use oidc_agent.Crypt.Password.{
  encrypt_password, decrypt_password, decrypt_password-encrypt_password,
}
use oidc_agent.Passwords.Entry.{
  PasswordEntry, pwe_set_password, start_lifetime, both_null, pw_type_mem,
}
use oidc_agent.Passwords.Store.{
  Passwords, Sources, has_name, expired, memory_get_password_for, encrypt_field, set_encrypted,
  saved_entry, replaced, save_password, from_memory, got_from, get_password_for,
  match_password_entry_by_shortname,
}
use oidc_agent.Passwords.Store.Names.{
  DistinctNames, remove_first-DistinctNames, has_name-eq, has_name-ne,
}

-- An entry at the end is found where no other has its name.
find_first-last :
    (name : Option Str) (l : Passwords) (q : PasswordEntry)
    → All (λ y. y.shortname ≢ name) l
    → q.shortname ≡ name
    → find_first (has_name name) (l ++ q ∷ []) ≡ some q
find_first-last name [] q h e = rw ((strequal_iff name q.shortname).1 (sym e)) refl
find_first-last name (x ∷ xs) q h e =
    rw (has_name-ne name x (λ k. h.0 (sym k))) (find_first-last name xs q h.1 e)

-- Every other name leads where it led.
find_first-added :
    (a : Option Str) (l : Passwords) (q : PasswordEntry)
    → has_name a q ≡ false
    → find_first (has_name a) (l ++ q ∷ []) ≡ find_first (has_name a) l
find_first-added a [] q e = rw e refl
find_first-added a (x ∷ xs) q e = elim (Bool-cases (has_name a x)) [
  | inl h ↦ rw h refl
  | inr h ↦ rw h (find_first-added a xs q e)
]

find_first-removed :
    (a b : Option Str) (l : Passwords)
    → a ≢ b
    → find_first (has_name a) (remove_first (has_name b) l) ≡ find_first (has_name a) l
find_first-removed a b [] n = refl
find_first-removed a b (x ∷ xs) n = elim (Bool-cases (has_name b x)) [
  | inl h ↦ rw (h, has_name-ne a x (λ k. n (k ∙ sym (has_name-eq b x h)))) refl
  | inr h ↦ rw (h, find_first-removed a b xs n) refl
]

-- The store after an entry has taken the place of the older one of its name.
replaced_lem :
    (name : Option Str) (l : Passwords) (q : PasswordEntry)
    → q.shortname ≡ name
    → replaced q l ≡ remove_first (has_name name) l ++ q ∷ []
unfolding replaced match_password_entry_by_shortname
replaced_lem name l q e = rw (← e) refl

find_first-replaced :
    (name : Option Str) (l : Passwords) (q : PasswordEntry)
    → DistinctNames l
    → q.shortname ≡ name
    → (find_first (has_name name) (replaced q l) ≡ some q)
      × ((other : Option Str)
          → other ≢ name
          → find_first (has_name other) (replaced q l) ≡ find_first (has_name other) l)
find_first-replaced name l q d e = rw (replaced_lem name l q e) (
  find_first-last name (remove_first (has_name name) l) q (remove_first-DistinctNames name l d).1 e,
  λ other n.
      find_first-added other (remove_first (has_name name) l) q
        (has_name-ne other q (λ k. n (k ∙ e)))
      ∙ find_first-removed other name l n,
)

saved_entry_lem :
    (now : ℕ) (pw : PasswordEntry) (cypher : Str) (c f g : Option Str)
    → let q = saved_entry now pw (some cypher) c f g in
      (q.shortname ≡ pw.shortname)
      × (q.password ≡ some cypher)
      × (q.type_bits ≡ pw.type_bits)
      × (q.expires_at ≡ (start_lifetime now pw).expires_at)
unfolding saved_entry set_encrypted pwe_set_password start_lifetime both_null
saved_entry_lem now pw cypher c f g = ground arith

living_password :
    (now : ℕ) (q : PasswordEntry) (cypher : Str)
    → expired now q.expires_at ≡ false
    → q.password ≡ some cypher
    → memory_get_password_for now q ≡ some cypher
unfolding memory_get_password_for
living_password now q cypher e p = rw e p

-- A source that has given the password is the last one.
module _ (s : Sodium) (password_pass : ℕ) where
  got_from-memory :
      (w : Sources) (now : ℕ) (r : List ℕ × List ℕ) (name text : Str) (l : Passwords)
      (q : PasswordEntry)
      → pw_type_mem q.type_bits ≡ true
      → decrypt_password s password_pass (memory_get_password_for now q) (some name) ≡ ok text
      → got_from s password_pass w now r name l q ≡ ok (l, some text)
  unfolding got_from from_memory
  got_from-memory w now r name text l q m e = rw (m, e) refl

  -- What is saved: the old entry of the name is gone, and the new one stands at the end.
  save_password-saved :
      (now : ℕ) (random : ℕ → List ℕ × List ℕ) (pw : PasswordEntry) (l l' : Passwords)
      (name text cypher : Str)
      → pw.shortname ≡ some name
      → pw.password ≡ some text
      → encrypt_password s password_pass (some text) (some name) (random 0).0 (random 0).1
        ≡ ok cypher
      → save_password s password_pass now random pw l ≡ ok l'
      → (c : Option Str) × (f : Option Str) × (g : Option Str) × (l'
          ≡ replaced (saved_entry now pw (some cypher) c f g) l)
  unfolding save_password encrypt_field
  save_password-saved now random pw l l' name text cypher en ep ec e =
      let (p, e0, e1) =
        >>=-result (encrypt_field s password_pass pw.shortname (random 0) pw.password) _ e in
      let (c, e2, e3) =
        >>=-result (encrypt_field s password_pass pw.shortname (random 1) pw.command) _ e1 in
      let (f, e4, e5) =
        >>=-result (encrypt_field s password_pass pw.shortname (random 2) pw.filepath) _ e3 in
      let (g, e6, e7) =
        >>=-result (encrypt_field s password_pass pw.shortname (random 3) pw.gpg_key) _ e5 in
      let made : p ≡ some cypher = ok_injective (
        sym e0
        ∙ ap (λ n. encrypt_field s password_pass n (random 0) pw.password) en
        ∙ ap (encrypt_field s password_pass (some name) (random 0)) ep
        ∙ ap (λ a. a >>= (λ (x : Str). ok (some x))) ec) in
      (c, f, g, sym (ok_injective e7) ∙ ap (λ x. replaced (saved_entry now pw x c f g) l) made)

  module _ (h : IsSodium s) (now now' : ℕ) (random : ℕ → List ℕ × List ℕ) (pw : PasswordEntry)
      (l l' : Passwords) (name text pass : Str) (key box : List ℕ) (names : DistinctNames l)
      (saved : save_password s password_pass now random pw l ≡ ok l')
      (named : pw.shortname ≡ some name) (given : pw.password ≡ some text)
      (memory : pw_type_mem pw.type_bits ≡ true)
      (living : expired now' (start_lifetime now pw).expires_at ≡ false)
      (written : number_to_string password_pass ≡ some pass) (valid : IsText text)
      (lengths : IsRandom s (random 0).0 (random 0).1) (fits : length text + s.mac_bytes < 2 ^ 64)
      (hashed : hash_of s (name ++ pass) (random 0).0 ≡ some key)
      (boxed : s.secretbox text (random 0).1 (encryption_part s key) ≡ some box) where
    -- A password that is saved is got: if the names of the stored entries differ, a password is saved
    -- for a name with a type that has memory, which succeeds, its lifetime is not over, the number of
    -- the agent can be written, and the hash and the secret box of its encryption are computed from
    -- random bytes of their lengths, then a request for the name gives the password and leaves the
    -- store as it is, whatever the user, a command or a file would give; and the entry of every other
    -- name is the one that it was.
    pub get_password_for-save_password :
        ((w : Sources) (r : List ℕ × List ℕ)
          → get_password_for s password_pass w now' r (some name) l' ≡ ok (l', some text))
        × ((other : Option Str)
            → other ≢ some name
            → find_first (has_name other) l' ≡ find_first (has_name other) l)
    unfolding get_password_for replaced match_password_entry_by_shortname
    get_password_for-save_password =
        let (cypher, encrypts, decrypts) =
          decrypt_password-encrypt_password s password_pass h text name pass (random 0).0
            (random 0).1 key box written valid lengths fits hashed boxed in
        let (c, f, g, same) =
          save_password-saved now random pw l l' name text cypher named given encrypts saved in
        let q = saved_entry now pw (some cypher) c f g in
        let (q_name, q_password, q_type, q_end) = saved_entry_lem now pw cypher c f g in
        let (found, others) = find_first-replaced (some name) l q names (q_name ∙ named) in
        let m = ap pw_type_mem q_type ∙ memory in
        let kept = living_password now' q cypher (ap (expired now') q_end ∙ living) q_password in
        let opens = ap (λ x. decrypt_password s password_pass x (some name)) kept ∙ decrypts in
        rw same (
          λ w r.
              rw (found, get_password_for)
                (got_from-memory w now' r name text (replaced q l) q m opens),
          others,
        )
