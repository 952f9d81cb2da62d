-- ===== src/Passwords/Store/Death.antt =====
-- removeDeathPasswords ends, and forgets exactly the passwords whose lifetime is over.
use oidc_agent.Prelude.{
  ℕ, zero, suc, ◌≤◌, ◌<◌, ◌≡◌, ◌≢◌, refl, sym, ap, ◌∙◌, Bool, true, false, none, some, [], ◌∷◌, All,
  All-find_first, Bool-cases, Option-cases, inl, inr, find_first, map, length, arith, if◌then◌else◌,
  pos,
}
use oidc_agent.Text.{Str}
use oidc_agent.Text.Laws.{strequal_iff}
use oidc_agent.Accounts.{is_over}
use oidc_agent.Passwords.Entry.{
  PasswordEntry, pwe_set_password, pwe_set_expires_at, start_lifetime, both_null,
}
use oidc_agent.Passwords.Store.{
  Passwords, has_name, update_first, expire, get_death_password_entry, expire_password_for,
  remove_death_passwords,
}
use oidc_agent.Passwords.Store.Names.{
  DistinctNames, has_name-ne, update_first-All, update_first-DistinctNames, expire-shortname,
}

module _ (now : ℕ) where
  abbrev pub is_dead : PasswordEntry → Bool
  is_dead pw = is_over now pw.expires_at

  -- An entry whose lifetime is over is without its password and its end.
  abbrev pub after_death : PasswordEntry → PasswordEntry
  after_death pw = if is_dead pw then expire now pw else pw

  abbrev pub IsNamed : PasswordEntry → Type 0
  IsNamed pw = pw.shortname ≢ none

  dead_count : Passwords → ℕ
  dead_count [] = 0
  dead_count (x ∷ xs) = if is_dead x then suc (dead_count xs) else dead_count xs

  dead_count-le : (l : Passwords) → dead_count l ≤ length l
  unfolding dead_count
  dead_count-le [] = omega arith
  dead_count-le (x ∷ xs) = ground (arith, dead_count-le xs)

  expire-alive : (pw : PasswordEntry) → is_dead (expire now pw) ≡ false
  unfolding expire pwe_set_expires_at
  expire-alive pw = refl

  expire-forgets : (pw : PasswordEntry) → (expire now pw).password ≡ none
  unfolding expire pwe_set_expires_at pwe_set_password start_lifetime
  expire-forgets pw = elim (Option-cases pw.password) [
    | inl e ↦ rw (e, both_null) refl
    | inr (p, e) ↦ rw (e, both_null) (ground arith)
  ]

  expire-end : (pw : PasswordEntry) → (expire now pw).expires_at ≡ pos 0
  unfolding expire pwe_set_expires_at
  expire-end pw = refl

  -- The entry that is found by its name is the one that is dead.
  same_first :
      (f : PasswordEntry → PasswordEntry) (l : Passwords) (pw : PasswordEntry)
      → find_first is_dead l ≡ some pw
      → DistinctNames l
      → update_first (has_name pw.shortname) f l ≡ update_first is_dead f l
  same_first f [] pw e d = cc
  same_first f (x ∷ xs) pw e d = elim (Bool-cases (is_dead x)) [
    | inl h ↦
        (let same : some x ≡ some pw = rw h at e in
          let here : x ≡ pw = cc in
          let named : has_name pw.shortname x ≡ true =
            (strequal_iff pw.shortname x.shortname).1
              (ap (λ (y : PasswordEntry). y.shortname) (sym here)) in
          rw (h, named) refl)
    | inr h ↦
        (let rest : find_first is_dead xs ≡ some pw = rw h at e in
          let other : has_name pw.shortname x ≡ false =
            has_name-ne pw.shortname x
              (All-find_first (λ y. y.shortname ≢ x.shortname) is_dead xs pw d.0 rest) in
          rw (h, other) (ap (◌∷◌ x) (same_first f xs pw rest d.1)))
  ]

  fewer_dead :
      (l : Passwords) (pw : PasswordEntry)
      → find_first is_dead l ≡ some pw
      → suc (dead_count (update_first is_dead (expire now) l)) ≡ dead_count l
  unfolding dead_count
  fewer_dead [] pw e = cc
  fewer_dead (x ∷ xs) pw e = elim (Bool-cases (is_dead x)) [
    | inl h ↦ rw (h, expire-alive x) refl
    | inr h ↦ rw (h, h) (fewer_dead xs pw (rw h at e))
  ]

  map-update :
      (l : Passwords) → map after_death (update_first is_dead (expire now) l) ≡ map after_death l
  map-update [] = refl
  map-update (x ∷ xs) = elim (Bool-cases (is_dead x)) [
    | inl h ↦ rw (h, expire-alive x) refl
    | inr h ↦ rw (h, h) (ap (◌∷◌ x) (map-update xs))
  ]

  map-alive : (l : Passwords) → find_first is_dead l ≡ none → map after_death l ≡ l
  map-alive [] e = refl
  map-alive (x ∷ xs) e = elim (Bool-cases (is_dead x)) [
    | inl h ↦ (let no : some x ≡ none = rw h at e in cc)
    | inr h ↦ rw h (ap (◌∷◌ x) (map-alive xs (rw h at e)))
  ]

  -- A step of the loop.
  expired_next :
      (l : Passwords) (pw : PasswordEntry)
      → find_first is_dead l ≡ some pw
      → DistinctNames l
      → IsNamed pw
      → expire_password_for now pw.shortname l ≡ update_first is_dead (expire now) l
  expired_next l pw e d n = elim (Option-cases pw.shortname) [
    | inl z ↦ absurd (n z)
    | inr (name, z) ↦ by_name name z
  ]
    where
      by_name :
          (name : Str)
          → pw.shortname ≡ some name
          → expire_password_for now pw.shortname l ≡ update_first is_dead (expire now) l
      by_name name z =
          ap (λ k. expire_password_for now k l) z
          ∙ unfold expire_password_for in
            refl
            ∙ ap (λ k. update_first (has_name k) (expire now) l) (sym z)
            ∙ same_first (expire now) l pw e d

  loop-ends :
      (fuel : ℕ) (l : Passwords)
      → dead_count l < fuel
      → DistinctNames l
      → All IsNamed l
      → remove_death_passwords fuel now l ≡ some (map after_death l)
  unfolding remove_death_passwords get_death_password_entry
  loop-ends zero l h d n = absurd (omega arith)
  loop-ends (suc fuel) l h d n = elim (Option-cases (find_first is_dead l)) [
    | inl e ↦ rw (e, remove_death_passwords) (ap some (sym (map-alive l e)))
    | inr (pw, e) ↦
        (let next = expired_next l pw e d (All-find_first IsNamed is_dead l pw n e) in
          let l' = update_first is_dead (expire now) l in
          rw (e, remove_death_passwords, next)
            (loop-ends fuel l' (omega (arith, fewer_dead l pw e))
                (update_first-DistinctNames is_dead (expire now) (expire-shortname now) l d)
                (update_first-All is_dead (expire now) IsNamed
                  (λ x g k q. k (sym (expire-shortname now x) ∙ q)) l n)
              ∙ ap some (map-update l)))
  ]

  -- The loop over the dead passwords ends and does what it should: if the entries of the store are named
  -- and their names differ, then removeDeathPasswords stops after at most one round for each entry and
  -- one more, every entry whose lifetime is over is left without its password and without an end, and
  -- every other entry and the order of the entries are as they were.
  pub remove_death_passwords_lem :
      (l : Passwords)
      → DistinctNames l
      → All IsNamed l
      → (remove_death_passwords (suc (length l)) now l ≡ some (map after_death l))
        × All (λ pw. is_dead pw ≡ false) (map after_death l)
        × All
            (λ pw.
              is_dead pw ≡ true
              → ((after_death pw).password ≡ none) × ((after_death pw).expires_at ≡ pos 0))
            l
  remove_death_passwords_lem l d n =
      (loop-ends (suc (length l)) l (omega (arith, dead_count-le l)) d n, none_dead l, forgotten l)
    where
      none_dead : (k : Passwords) → All (λ pw. is_dead pw ≡ false) (map after_death k)
      none_dead [] = tt
      none_dead (x ∷ xs) = elim (Bool-cases (is_dead x)) [
        | inl h ↦ rw h (expire-alive x, none_dead xs)
        | inr h ↦ rw (h, h) (refl, none_dead xs)
      ]

      forgotten :
          (k : Passwords)
          → All
              (λ pw.
                is_dead pw ≡ true
                → ((after_death pw).password ≡ none) × ((after_death pw).expires_at ≡ pos 0))
              k
      forgotten [] = tt
      forgotten (x ∷ xs) = ((λ h. rw h (expire-forgets x, expire-end x)), forgotten xs)
