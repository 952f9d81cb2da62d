-- ===== src/Passwords/Store/Names.antt =====
-- The names of the entries of the store differ, and what changes one entry keeps them.
use oidc_agent.Prelude.{
  ℕ, ◌≡◌, ◌≢◌, sym, ◌∙◌, Bool, true, false, Option, none, some, [], ◌∷◌, ◌++◌, All, All-imp,
  All-append, All-remove_first, Bool-cases, inl, inr, remove_first, arith,
}
use oidc_agent.Text.{Str, strequal}
use oidc_agent.Text.Laws.{strequal_iff}
use oidc_agent.Passwords.Entry.{
  PasswordEntry, pwe_set_password, pwe_set_expires_at, start_lifetime, both_null,
}
use oidc_agent.Passwords.Store.{Passwords, has_name, update_first, expire}

abbrev pub DistinctNames : Passwords → Type 0
DistinctNames [] = Unit
DistinctNames (x ∷ xs) = All (λ y. y.shortname ≢ x.shortname) xs × DistinctNames xs

pub has_name-eq :
    (name : Option Str) (y : PasswordEntry) → has_name name y ≡ true → name ≡ y.shortname
has_name-eq name y h = (strequal_iff name y.shortname).0 h

pub has_name-ne :
    (name : Option Str) (y : PasswordEntry) → name ≢ y.shortname → has_name name y ≡ false
has_name-ne name y h = elim (Bool-cases (has_name name y)) [
  | inl e ↦ absurd (h (has_name-eq name y e))
  | inr e ↦ e
]

-- Removing a name leaves the other entries, which have other names.
pub remove_first-DistinctNames :
    (name : Option Str) (l : Passwords)
    → DistinctNames l
    → DistinctNames (remove_first (has_name name) l)
      × All (λ y. y.shortname ≢ name) (remove_first (has_name name) l)
remove_first-DistinctNames name [] d = (tt, tt)
remove_first-DistinctNames name (x ∷ xs) d = elim (Bool-cases (has_name name x)) [
  | inl e ↦ (let same = has_name-eq name x e in rw e (d.1, All-imp xs (λ y k q. k (q ∙ same)) d.0))
  | inr e ↦
      (let (rest, others) = remove_first-DistinctNames name xs d.1 in
        rw e (
          (All-remove_first (λ y. y.shortname ≢ x.shortname) (has_name name) xs d.0, rest),
          ((λ q. absurd (no (x.shortname) name q e)), others),
        ))
]
  where
    no : (a b : Option Str) → a ≡ b → strequal b a ≡ false → ⊥
    no a b q e = let t = (strequal_iff b a).1 (sym q) in cc

pub DistinctNames-append :
    (l : Passwords) (y : PasswordEntry)
    → DistinctNames l
    → All (λ x. x.shortname ≢ y.shortname) l
    → DistinctNames (l ++ y ∷ [])
DistinctNames-append [] y d h = (tt, tt)
DistinctNames-append (x ∷ xs) y d h = (
  All-append (λ z. z.shortname ≢ x.shortname) xs (y ∷ []) d.0 ((λ q. h.0 (sym q)), tt),
  DistinctNames-append xs y d.1 h.1,
)

module _ (t : PasswordEntry → Bool) (f : PasswordEntry → PasswordEntry) where
  pub update_first-All {κ} :
      (P : PasswordEntry → Type κ)
      → ((x : PasswordEntry) → t x ≡ true → P x → P (f x))
      → (l : Passwords) → All P l
      → All P (update_first t f l)
  update_first-All P keep [] h = tt
  update_first-All P keep (x ∷ xs) h = elim (Bool-cases (t x)) [
    | inl e ↦ rw e (keep x e h.0, h.1)
    | inr e ↦ rw e (h.0, update_first-All P keep xs h.1)
  ]

  pub update_first-DistinctNames :
      ((x : PasswordEntry) → (f x).shortname ≡ x.shortname)
      → (l : Passwords) → DistinctNames l
      → DistinctNames (update_first t f l)
  update_first-DistinctNames same [] d = tt
  update_first-DistinctNames same (x ∷ xs) d = elim (Bool-cases (t x)) [
    | inl e ↦ rw e (All-imp xs (λ y k q. k (q ∙ same x)) d.0, d.1)
    | inr e ↦ rw e (
      update_first-All (λ y. y.shortname ≢ x.shortname) (λ y g k q. k (sym (same y) ∙ q)) xs d.0,
      update_first-DistinctNames same xs d.1,
    )
  ]

pub pwe_set_password-shortname :
    (now : ℕ) (pw : PasswordEntry) (p : Option Str)
    → (pwe_set_password now pw p).shortname ≡ pw.shortname
unfolding pwe_set_password start_lifetime
pwe_set_password-shortname now pw p = ground arith

pub pwe_set_password-password :
    (now : ℕ) (pw : PasswordEntry) (p : Option Str) → (pwe_set_password now pw p).password ≡ p
unfolding pwe_set_password start_lifetime both_null
pwe_set_password-password now pw none = ground arith
pwe_set_password-password now pw (some p) = ground arith

pub pwe_set_password-others :
    (now : ℕ) (pw : PasswordEntry) (p : Option Str)
    → let q = pwe_set_password now pw p in
      (q.command ≡ pw.command) × (q.filepath ≡ pw.filepath) × (q.gpg_key ≡ pw.gpg_key)
unfolding pwe_set_password start_lifetime
pwe_set_password-others now pw p = ground arith

pub expire-shortname : (now : ℕ) (pw : PasswordEntry) → (expire now pw).shortname ≡ pw.shortname
unfolding expire pwe_set_expires_at
expire-shortname now pw = pwe_set_password-shortname now pw none
