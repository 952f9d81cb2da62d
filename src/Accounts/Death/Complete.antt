-- ===== src/Accounts/Death/Complete.antt =====
-- The removal ends, and takes away exactly the accounts whose lifetime is over.
use oidc_agent.Prelude.{
  ℕ, pos, negsuc, zero, suc, ◌<◌, ◌≡◌, ◌≢◌, ◌↔◌, refl, sym, ap, ◌∙◌, subst, inl, inr, Bool, true,
  false, ◌&&◌, Option, none, some, List, [], ◌∷◌, ltb, leb, arith, length, find_first, remove_first,
  In, All, Bool-cases, Option-cases,
}
use oidc_agent.Text.{Str}
use oidc_agent.Accounts.{Accounts, get_death_account, account_db_remove_if_found}
use oidc_agent.Accounts.Distinct.{Distinct, named, match_strings_iff}
use oidc_agent.Accounts.Names.{
  name, HasDistinctNames, remove-name, account_db_remove_if_found-absent,
}
use oidc_agent.Accounts.Death.{remove_dead}

-- The lifetime of the account at `p` is limited and over.
abbrev pub is_dead : Accounts → ℕ → ℕ → Bool
is_dead s now p = elim (s.heap p).death [ pos d ↦ ltb 0 d && leb d now | negsuc d ↦ false ]

find_passes : (t : ℕ → Bool) (l : List ℕ) (p : ℕ) → find_first t l ≡ some p → In p l × (t p ≡ true)
find_passes t [] p e = cc
find_passes t (q ∷ l) p e = ground (arith, find_passes t l p)

find_none_fails : (t : ℕ → Bool) (l : List ℕ) (q : ℕ) → find_first t l ≡ none → In q l → t q ≡ false
find_none_fails t [] q e h = absurd h
find_none_fails t (r ∷ l) q e h = ground (arith, find_none_fails t l q)

All-In : (P : ℕ → Type 0) (l : List ℕ) (q : ℕ) → All P l → In q l → P q
All-In P [] q h i = absurd i
All-In P (r ∷ l) q h (inl e) = subst P (sym e) h.0
All-In P (r ∷ l) q h (inr i) = All-In P l q h.1 i

length-remove_first :
    (t : ℕ → Bool) (l : List ℕ) (p : ℕ) → In p l → t p ≡ true → length (remove_first t l) < length l
length-remove_first t [] p i e = absurd i
length-remove_first t (q ∷ l) p i e = ground (arith, length-remove_first t l p)

module _ (f : ℕ → Option Str) where
  same_name : (l : List ℕ) (p q : ℕ) → Distinct f l → In p l → In q l → f p ≡ f q → p ≡ q
  same_name [] p q d i j e = absurd i
  same_name (r ∷ l) p q d (inl i) (inl j) e = cc
  same_name (r ∷ l) p q d (inl i) (inr j) e = absurd (All-In (λ x. f x ≢ f r) l q d.0 j (cc))
  same_name (r ∷ l) p q d (inr i) (inl j) e = absurd (All-In (λ x. f x ≢ f r) l p d.0 i (cc))
  same_name (r ∷ l) p q d (inr i) (inr j) e = same_name l p q d.1 i j e

  -- Removing the name of `p` removes `p` alone.
  In-remove :
      (l : List ℕ) (p q : ℕ)
      → Distinct f l
      → In p l
      → In q (remove_first (named f (f p)) l) ↔ (In q l × (q ≢ p))
  In-remove [] p q d i = absurd i
  In-remove (r ∷ l) p q d i = elim (Bool-cases (named f (f p) r)) [
    | inl e ↦
        let here : p ≡ r =
          same_name (r ∷ l) p r d i (inl refl) ((match_strings_iff (f p) (f r)).0 e) in
        rw e (
          λ j. (inr j, λ k. All-In (λ x. f x ≢ f r) l q d.0 j (cc)),
          λ j. elim j.0 [ inl k ↦ absurd (j.1 (cc)) | inr k ↦ k ],
        )
    | inr e ↦
        let differ : p ≢ r = λ k. cc ((match_strings_iff (f p) (f r)).1 (ap f k)) in
        let later : In p l = elim i [ inl k ↦ absurd (differ k) | inr j ↦ j ] in
        let (to, from) = In-remove l p q d.1 later in
        rw e (
          elim [ inl k ↦ (inl k, λ m. differ (sym m ∙ k)) | inr j ↦ (inr (to j).0, (to j).1) ],
          λ j. elim j.0 [ inl k ↦ inl k | inr k ↦ inr (from (k, j.1)) ],
        )
  ]

-- One removal of a dead account, and then a removal of exactly the dead ones that are left.
remove_one :
    (now : ℕ) (s : Accounts) (p : ℕ)
    → HasDistinctNames s
    → In p s.loaded
    → is_dead s now p ≡ true
    → (q : ℕ) {A : Type 0}
    → A ↔ (In q (account_db_remove_if_found s (s.heap p)).loaded × (is_dead s now q ≡ false))
    → A ↔ (In q s.loaded × (is_dead s now q ≡ false))
remove_one now s p h here dead q {A} exact = (to, from)
  where
    one : In q (account_db_remove_if_found s (s.heap p)).loaded ↔ (In q s.loaded × (q ≢ p))
    one = rw (remove-name s (s.heap p) h.by_name) (In-remove (name s) s.loaded p q h.distinct here)

    to : A → In q s.loaded × (is_dead s now q ≡ false)
    to a = ((one.0 (exact.0 a).0).0, (exact.0 a).1)

    from : In q s.loaded × (is_dead s now q ≡ false) → A
    from (i, alive) =
        exact.1 (one.1 (i, λ e. cc (subst (λ r. is_dead s now r ≡ true) (sym e) dead)), alive)

-- If the loaded accounts have distinct names, the loop that removes the dead ones ends with more fuel
-- than there are accounts. Then no account is dead, the loaded accounts are those that were and are
-- not dead, and their names are distinct.
pub remove_dead_complete :
    (fuel now : ℕ) (s : Accounts)
    → HasDistinctNames s
    → length s.loaded < fuel
    → (t : Accounts) × (remove_dead fuel now s ≡ some t)
      × (get_death_account t now ≡ none)
      × ((q : ℕ) → In q t.loaded ↔ (In q s.loaded × (is_dead s now q ≡ false)))
      × HasDistinctNames t
unfolding remove_dead get_death_account account_db_remove_if_found
remove_dead_complete zero now s h lt = absurd (omega arith)
remove_dead_complete (suc fuel) now s h lt = elim (Option-cases (get_death_account s now)) [
  | inl e ↦ (
    s,
    rw (e, remove_dead),
    e,
    λ q. (λ i. (i, find_none_fails (is_dead s now) s.loaded q e i), λ i. i.0),
    h,
  )
  | inr (p, e) ↦
      let (here, dead) = find_passes (is_dead s now) s.loaded p e in
      let s1 = account_db_remove_if_found s (s.heap p) in
      let removed = remove-name s (s.heap p) h.by_name in
      let shorter : length s1.loaded < length s.loaded = rw removed (
        length-remove_first _ s.loaded p here ((match_strings_iff (name s p) (name s p)).1 refl)) in
      let (t, runs, none_left, exact, names) =
        remove_dead_complete fuel now s1 (account_db_remove_if_found-absent s (s.heap p) h).0
          (omega arith) in
      (
        t,
        rw (e, remove_dead) runs,
        none_left,
        λ q. remove_one now s p h here dead q (exact q),
        names,
      )
]
