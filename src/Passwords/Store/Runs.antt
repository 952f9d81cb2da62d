-- ===== src/Passwords/Store/Runs.antt =====
-- Runs of the operations of the store, from the empty store on.
use oidc_agent.Prelude.{
  ℕ, zero, suc, ◌≡◌, ◌≢◌, refl, ap, subst, Option, none, some, List, [], ◌&&◌, ◌==◌, Bool-cases,
  Option-cases, inl, inr, find_first, if◌then◌else◌,
}
use oidc_agent.Text.{Str}
use oidc_agent.ListUtils.{is_none}
use oidc_agent.Crypt.Answer.{
  Answer, ok, err, undefined, internal, arg_null, >>=-result, ok_injective, deref, non_null,
}
use oidc_agent.Crypt.Format.{Sodium}
use oidc_agent.Crypt.Lines.{pointer}
use oidc_agent.Crypt.Password.{encrypt_password}
use oidc_agent.Passwords.Entry.{
  PasswordEntry, EntryValues, password_entry_of, pwe_set_password, pw_type_mem, pw_type_prmt,
}
use oidc_agent.Passwords.Store.{
  Passwords, Sources, has_name, expire_password_for, remove_password_for, remove_all_passwords,
  remove_death_passwords, pw_handle_save, get_password_for, got_from, from_memory, from_command,
  from_file, from_prompt, keep_answer, get_death_password_entry,
}
use oidc_agent.Passwords.Store.Names.{has_name-eq, pwe_set_password-shortname}
use oidc_agent.Passwords.Store.Invariant.{
  Inv, IsEncrypted, pwe_set_password-IsKept, update_first-Inv, expire_password_for-Inv,
  remove_password_for-Inv, save_password-Inv,
}

module _ (s : Sodium) (password_pass : ℕ) where
  pointer-IsEncrypted :
      (name text : Str) (salt nonce : List ℕ) (c : Option Str)
      → pointer (encrypt_password s password_pass (some text) (some name) salt nonce) ≡ ok c
      → IsEncrypted s password_pass (some name) c
  pointer-IsEncrypted name text salt nonce c e =
      of_answer (encrypt_password s password_pass (some text) (some name) salt nonce) refl e
    where
      of_answer :
          (a : Answer Str)
          → encrypt_password s password_pass (some text) (some name) salt nonce ≡ a
          → pointer a ≡ ok c
          → IsEncrypted s password_pass (some name) c
      of_answer (ok t) m h =
          subst (IsEncrypted s password_pass (some name)) (ok_injective h) (text, salt, nonce, m)
      of_answer (err x) m h = subst (IsEncrypted s password_pass (some name)) (ok_injective h) tt
      of_answer undefined m h = cc

  keep_answer-Inv :
      (now : ℕ) (r : List ℕ × List ℕ) (name : Str) (pw : PasswordEntry) (answer : Option Str)
      (l l' : Passwords) (res : Option Str)
      → keep_answer s password_pass now r name pw answer l ≡ ok (l', res)
      → Inv s password_pass l
      → Inv s password_pass l'
  unfolding keep_answer
  keep_answer-Inv now r name pw none l l' res e i =
      subst (Inv s password_pass) (ap (λ (q : Passwords × Option Str). q.0) (ok_injective e)) i
  keep_answer-Inv now r name pw (some answer) l l' res e i =
      elim (Bool-cases (pw_type_mem pw.type_bits)) [
        | inl m ↦
            (let (c, ec, e1) =
                >>=-result
                  (pointer (encrypt_password s password_pass (some answer) (some name) r.0 r.1)) _
                  (rw m at e) in
              subst (Inv s password_pass)
                (ap (λ (q : Passwords × Option Str). q.0) (ok_injective e1))
                (update_first-Inv s password_pass (has_name (some name))
                  (λ x. pwe_set_password now x c) l (λ x. pwe_set_password-shortname now x c)
                  (λ x g k.
                    pwe_set_password-IsKept s password_pass now x c
                      (subst (λ n. IsEncrypted s password_pass n c) (has_name-eq (some name) x g)
                        (pointer-IsEncrypted name answer r.0 r.1 c ec))
                      k)
                  i))
        | inr m ↦
            subst (Inv s password_pass)
              (ap (λ (q : Passwords × Option Str). q.0)
                (ok_injective
                  (let plain : ok (l, some answer) ≡ ok (l', res) = rw m at e in plain)))
              i
      ]

  from_prompt-Inv :
      (w : Sources) (now : ℕ) (r : List ℕ × List ℕ) (name : Str) (pw : PasswordEntry)
      (l l' : Passwords) (file res : Option Str)
      → from_prompt s password_pass w now r name pw l file ≡ ok (l', res)
      → Inv s password_pass l
      → Inv s password_pass l'
  unfolding from_prompt
  from_prompt-Inv w now r name pw l l' (some t) res e i =
      subst (Inv s password_pass) (ap (λ (q : Passwords × Option Str). q.0) (ok_injective e)) i
  from_prompt-Inv w now r name pw l l' none res e i =
      elim (Bool-cases (pw_type_prmt pw.type_bits)) [
        | inl m ↦ keep_answer-Inv now r name pw (w.ask name) l l' res (rw m at e) i
        | inr m ↦
            subst (Inv s password_pass)
              (ap (λ (q : Passwords × Option Str). q.0)
                (ok_injective (let plain : ok (l, none) ≡ ok (l', res) = rw m at e in plain)))
              i
      ]

  pub get_password_for-Inv :
      (w : Sources) (now : ℕ) (r : List ℕ × List ℕ) (name : Option Str) (l l' : Passwords)
      (res : Option Str)
      → get_password_for s password_pass w now r name l ≡ ok (l', res)
      → Inv s password_pass l
      → Inv s password_pass l'
  unfolding get_password_for got_from
  get_password_for-Inv w now r none l l' res e i =
      subst (Inv s password_pass) (ap (λ (q : Passwords × Option Str). q.0) (ok_injective e)) i
  get_password_for-Inv w now r (some name) l l' res e i =
      elim (Option-cases (find_first (has_name (some name)) l)) [
        | inl z ↦
            subst (Inv s password_pass)
              (ap (λ (q : Passwords × Option Str). q.0)
                (ok_injective (
                  let plain : ok (l, w.ask name) ≡ ok (l', res) = rw (z, get_password_for) at e in
                  plain)))
              i
        | inr (pw, z) ↦
            (let found : got_from s password_pass w now r name l pw ≡ ok (l', res) =
                rw (z, get_password_for) at e in
              let (m, em, e1) = >>=-result (from_memory s password_pass now name pw) _ found in
              let (c, ec, e2) = >>=-result (from_command s password_pass w name pw m) _ e1 in
              let (f, ef, e3) = >>=-result (from_file s password_pass w name pw c) _ e2 in
              from_prompt-Inv w now r name pw l l' f res e3 i)
      ]

  pub pw_handle_save-Inv :
      (parse : Str → Option EntryValues) (now : ℕ) (random : ℕ → List ℕ × List ℕ)
      (entry : Option Str) (l l' : Passwords)
      → pw_handle_save s password_pass parse now random entry l ≡ ok l'
      → Inv s password_pass l
      → Inv s password_pass l'
  unfolding pw_handle_save
  pw_handle_save-Inv parse now random entry l l' e i =
      let (text, et, e1) = >>=-result (non_null arg_null entry) _ e in
      let (values, ev, e2) = >>=-result (deref (parse text)) _ e1 in
      let pw = password_entry_of values in
      let (name, en, e3) = >>=-result (non_null internal pw.shortname) _ e2 in
      let (u, eu, e4) = >>=-result (if pw.type_bits == 0 then err internal else ok (tt {0})) _ e3 in
      let (v, ew, e5) =
        >>=-result
          (if is_none pw.password && pw_type_mem pw.type_bits then err internal else ok (tt {0})) _
          e4 in
      save_password-Inv s password_pass now random pw l l' (named pw.shortname name en) e5 i
    where
      named : (n : Option Str) (a : Str) → non_null internal n ≡ ok a → n ≢ none
      named none a h z = cc
      named (some x) a h z = cc

  remove_death_passwords-Inv :
      (fuel now : ℕ) (l l' : Passwords)
      → remove_death_passwords fuel now l ≡ some l'
      → Inv s password_pass l
      → Inv s password_pass l'
  unfolding remove_death_passwords
  remove_death_passwords-Inv zero now l l' e i = cc
  remove_death_passwords-Inv (suc fuel) now l l' e i =
      elim (Option-cases (get_death_password_entry now l)) [
        | inl z ↦
            (let same : some l ≡ some l' = rw (z, remove_death_passwords) at e in
              let here : l ≡ l' = cc in subst (Inv s password_pass) here i)
        | inr (pw, z) ↦
            remove_death_passwords-Inv fuel now (expire_password_for now pw.shortname l) l'
              (rw (z, remove_death_passwords) at e)
              (expire_password_for-Inv s password_pass now pw.shortname l i)
      ]

  -- A change of the store by one of its operations.
  pub data Step (l : Passwords) : Passwords → Type 0 where
    handle_save :
        {l' : Passwords} (parse : Str → Option EntryValues) (now : ℕ) (random : ℕ → List ℕ × List ℕ)
        (entry : Option Str)
        → pw_handle_save s password_pass parse now random entry l ≡ ok l'
        → Step l l'
    get :
        {l' : Passwords} (w : Sources) (now : ℕ) (r : List ℕ × List ℕ) (name res : Option Str)
        → get_password_for s password_pass w now r name l ≡ ok (l', res)
        → Step l l'
    remove : (name : Option Str) → Step l (remove_password_for name l)
    expires : (now : ℕ) (name : Option Str) → Step l (expire_password_for now name l)
    remove_all : Step l (remove_all_passwords l)
    remove_death :
        {l' : Passwords} (fuel now : ℕ) → remove_death_passwords fuel now l ≡ some l' → Step l l'

  -- What the operations make of the empty store.
  pub data Reachable : Passwords → Type 0 where
    empty : Reachable []
    after : {l l' : Passwords} → Reachable l → Step l l' → Reachable l'

  Step-Inv : {l l' : Passwords} → Step l l' → Inv s password_pass l → Inv s password_pass l'
  unfolding remove_all_passwords
  Step-Inv {l} {l'} (handle_save parse now random entry e) i =
      pw_handle_save-Inv parse now random entry l l' e i
  Step-Inv {l} {l'} (get w now r name res e) i = get_password_for-Inv w now r name l l' res e i
  Step-Inv {l} (remove name) i = remove_password_for-Inv s password_pass name l i
  Step-Inv {l} (expires now name) i = expire_password_for-Inv s password_pass now name l i
  Step-Inv remove_all i = record { distinct = tt; kept = tt }
  Step-Inv {l} {l'} (remove_death fuel now e) i = remove_death_passwords-Inv fuel now l l' e i

  -- No operation puts a secret in the clear into the store: after any run of the operations of the
  -- store from the empty one, the entries have names, the names differ, and each password, command,
  -- file and key of an entry is what encryptPassword makes of some text for the entry's name.
  pub Reachable-Inv : {l : Passwords} → Reachable l → Inv s password_pass l
  Reachable-Inv empty = record { distinct = tt; kept = tt }
  Reachable-Inv (after r st) = Step-Inv st (Reachable-Inv r)
