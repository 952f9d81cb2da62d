-- ===== src/Passwords/Store/Invariant.antt =====
-- The store holds its secrets encrypted, under names that differ, through every operation.
use oidc_agent.Prelude.{
  ℕ, ◌≡◌, ◌≢◌, refl, sym, ap, ◌∙◌, Bool, true, Option, none, some, List, [], ◌∷◌, All, All-append,
  All-remove_first, Option-cases, inl, inr, find_first, remove_first, subst,
}
use oidc_agent.Text.{Str}
use oidc_agent.Crypt.Answer.{ok, >>=-result, ok_injective}
use oidc_agent.Crypt.Format.{Sodium}
use oidc_agent.Crypt.Password.{encrypt_password}
use oidc_agent.Passwords.Entry.{PasswordEntry, pwe_set_password, pwe_set_expires_at}
use oidc_agent.Passwords.Store.{
  Passwords, has_name, update_first, expire, expire_password_for, remove_password_for,
  save_password, encrypt_field, set_encrypted, saved_entry, replaced,
  match_password_entry_by_shortname,
}
use oidc_agent.Passwords.Store.Names.{
  DistinctNames, remove_first-DistinctNames, DistinctNames-append, update_first-All,
  update_first-DistinctNames, pwe_set_password-shortname, pwe_set_password-password,
  pwe_set_password-others, expire-shortname,
}

module _ (s : Sodium) (password_pass : ℕ) where
  -- The field is empty, or what encryptPassword made of some text for the name.
  abbrev pub IsEncrypted : Option Str → Option Str → Type 0
  IsEncrypted name none = Unit
  IsEncrypted name (some c) =
      (text : Str) × (salt : List ℕ) × (nonce : List ℕ) × (encrypt_password s password_pass
          (some text) name salt nonce
        ≡ ok c)

  pub record IsKept (pw : PasswordEntry) : Type 0 where
    pub named : pw.shortname ≢ none
    pub password : IsEncrypted pw.shortname pw.password
    pub command : IsEncrypted pw.shortname pw.command
    pub filepath : IsEncrypted pw.shortname pw.filepath
    pub gpg_key : IsEncrypted pw.shortname pw.gpg_key

  pub record Inv (l : Passwords) : Type 0 where
    pub distinct : DistinctNames l
    pub kept : All IsKept l

  encrypt_field-IsEncrypted :
      (name : Option Str) (r : List ℕ × List ℕ) (f c : Option Str)
      → encrypt_field s password_pass name r f ≡ ok c
      → IsEncrypted name c
  unfolding encrypt_field
  encrypt_field-IsEncrypted name r none c e =
      let same : none ≡ c = cc in subst (IsEncrypted name) same tt
  encrypt_field-IsEncrypted name r (some t) c e =
      let (made, m, f) = >>=-result (encrypt_password s password_pass (some t) name r.0 r.1) _ e in
      let same : some made ≡ c = cc in subst (IsEncrypted name) same (t, r.0, r.1, m)

  -- An entry with the same name and encrypted fields.
  IsKept-of :
      (pw q : PasswordEntry)
      → IsKept pw
      → q.shortname ≡ pw.shortname
      → IsEncrypted pw.shortname q.password
      → q.command ≡ pw.command
      → q.filepath ≡ pw.filepath
      → q.gpg_key ≡ pw.gpg_key
      → IsKept q
  IsKept-of pw q k n p c f g = record {
    named = λ z. k.named (sym n ∙ z);
    password = renamed q.password p;
    command = renamed q.command (subst (IsEncrypted pw.shortname) (sym c) k.command);
    filepath = renamed q.filepath (subst (IsEncrypted pw.shortname) (sym f) k.filepath);
    gpg_key = renamed q.gpg_key (subst (IsEncrypted pw.shortname) (sym g) k.gpg_key);
  }
    where
      renamed : (x : Option Str) → IsEncrypted pw.shortname x → IsEncrypted q.shortname x
      renamed x h = subst (λ name. IsEncrypted name x) (sym n) h

  -- Setting an encrypted password, or none.
  pub pwe_set_password-IsKept :
      (now : ℕ) (pw : PasswordEntry) (p : Option Str)
      → IsEncrypted pw.shortname p
      → IsKept pw
      → IsKept (pwe_set_password now pw p)
  pwe_set_password-IsKept now pw p h k =
      let (c, f, g) = pwe_set_password-others now pw p in
      IsKept-of pw (pwe_set_password now pw p) k (pwe_set_password-shortname now pw p)
        (subst (IsEncrypted pw.shortname) (sym (pwe_set_password-password now pw p)) h) c f g

  pub expire-IsKept : (now : ℕ) (pw : PasswordEntry) → IsKept pw → IsKept (expire now pw)
  unfolding expire pwe_set_expires_at
  expire-IsKept now pw k =
      let set = pwe_set_password-IsKept now pw none tt k in
      record {
        named = set.named;
        password = set.password;
        command = set.command;
        filepath = set.filepath;
        gpg_key = set.gpg_key;
      }

  pub update_first-Inv :
      (t : PasswordEntry → Bool) (f : PasswordEntry → PasswordEntry) (l : Passwords)
      → ((x : PasswordEntry) → (f x).shortname ≡ x.shortname)
      → ((x : PasswordEntry) → t x ≡ true → IsKept x → IsKept (f x))
      → Inv l
      → Inv (update_first t f l)
  update_first-Inv t f l same keep i = record {
    distinct = update_first-DistinctNames t f same l i.distinct;
    kept = update_first-All t f IsKept keep l i.kept;
  }

  pub expire_password_for-Inv :
      (now : ℕ) (name : Option Str) (l : Passwords) → Inv l → Inv (expire_password_for now name l)
  unfolding expire_password_for
  expire_password_for-Inv now none l i = i
  expire_password_for-Inv now (some name) l i =
      update_first-Inv (has_name (some name)) (expire now) l (expire-shortname now)
        (λ x g. expire-IsKept now x) i

  -- Removing the entries of a name.
  removed-Inv : (name : Option Str) (l : Passwords) → Inv l → Inv (remove_first (has_name name) l)
  removed-Inv name l i = record {
    distinct = (remove_first-DistinctNames name l i.distinct).0;
    kept = All-remove_first IsKept (has_name name) l i.kept;
  }

  pub remove_password_for-Inv :
      (name : Option Str) (l : Passwords) → Inv l → Inv (remove_password_for name l)
  unfolding remove_password_for match_password_entry_by_shortname
  remove_password_for-Inv none l i = i
  remove_password_for-Inv (some name) l i =
      elim (Option-cases (find_first (has_name (some name)) l)) [
        | inl e ↦ rw (e, remove_password_for) i
        | inr (pw, e) ↦ rw (e, remove_password_for) (removed-Inv pw.shortname l i)
      ]

  encrypt_field-none :
      (name : Option Str) (r : List ℕ × List ℕ) (f : Option Str)
      → encrypt_field s password_pass name r f ≡ ok none
      → f ≡ none
  unfolding encrypt_field
  encrypt_field-none name r none e = refl
  encrypt_field-none name r (some t) e =
      let (made, m, f) = >>=-result (encrypt_password s password_pass (some t) name r.0 r.1) _ e in
      cc

  saved_entry-IsKept :
      (now : ℕ) (pw : PasswordEntry) (p c f g : Option Str)
      → pw.shortname ≢ none
      → (p ≡ none → pw.password ≡ none)
      → IsEncrypted pw.shortname p
      → IsEncrypted pw.shortname c
      → IsEncrypted pw.shortname f
      → IsEncrypted pw.shortname g
      → IsKept (saved_entry now pw p c f g)
  unfolding saved_entry set_encrypted
  saved_entry-IsKept now pw none c f g n z hp hc hf hg = record {
    named = n;
    password = subst (IsEncrypted pw.shortname) (sym (z refl)) tt;
    command = hc;
    filepath = hf;
    gpg_key = hg;
  }
  saved_entry-IsKept now pw (some p) c f g n z hp hc hf hg = record {
    named = λ e. n (sym same ∙ e);
    password =
        renamed _
          (subst (IsEncrypted pw.shortname) (sym (pwe_set_password-password now pw (some p))) hp);
    command = renamed c hc;
    filepath = renamed f hf;
    gpg_key = renamed g hg;
  }
    where
      same : (pwe_set_password now pw (some p)).shortname ≡ pw.shortname
      same = pwe_set_password-shortname now pw (some p)

      renamed :
          (x : Option Str)
          → IsEncrypted pw.shortname x
          → IsEncrypted (pwe_set_password now pw (some p)).shortname x
      renamed x h = subst (λ name. IsEncrypted name x) (sym same) h

  added-Inv : (q : PasswordEntry) (l : Passwords) → IsKept q → Inv l → Inv (replaced q l)
  unfolding replaced match_password_entry_by_shortname
  added-Inv q l k i =
      let (d, others) = remove_first-DistinctNames q.shortname l i.distinct in
      record {
        distinct = DistinctNames-append _ q d others;
        kept = All-append IsKept _ (q ∷ []) (removed-Inv q.shortname l i).kept (k, tt);
      }

  pub save_password-Inv :
      (now : ℕ) (random : ℕ → List ℕ × List ℕ) (pw : PasswordEntry) (l l' : Passwords)
      → pw.shortname ≢ none
      → save_password s password_pass now random pw l ≡ ok l'
      → Inv l
      → Inv l'
  unfolding save_password
  save_password-Inv now random pw l l' n e i =
      let (p, ep, e1) =
        >>=-result (encrypt_field s password_pass pw.shortname (random 0) pw.password) _ e in
      let (c, ec, e2) =
        >>=-result (encrypt_field s password_pass pw.shortname (random 1) pw.command) _ e1 in
      let (f, ef, e3) =
        >>=-result (encrypt_field s password_pass pw.shortname (random 2) pw.filepath) _ e2 in
      let (g, eg, e4) =
        >>=-result (encrypt_field s password_pass pw.shortname (random 3) pw.gpg_key) _ e3 in
      let q = saved_entry now pw p c f g in
      let kept =
        saved_entry-IsKept now pw p c f g n
          (λ z. encrypt_field-none pw.shortname (random 0) pw.password (ep ∙ ap ok z))
          (encrypt_field-IsEncrypted pw.shortname (random 0) pw.password p ep)
          (encrypt_field-IsEncrypted pw.shortname (random 1) pw.command c ec)
          (encrypt_field-IsEncrypted pw.shortname (random 2) pw.filepath f ef)
          (encrypt_field-IsEncrypted pw.shortname (random 3) pw.gpg_key g eg) in
      subst Inv (ok_injective e4) (added-Inv q l kept i)
