-- ===== src/Files/Laws.antt =====
-- What is read back of a file.
use oidc_agent.Prelude.{
  ℕ, ◌≡◌, ◌≢◌, refl, sym, ◌∙◌, ap, inl, inr, true, Option, none, some, List, [], ◌∷◌, ◌++◌,
  find_first, remove_first, arith, Bool-cases, Option-cases,
}
use oidc_agent.Text.{Str, codes}
use oidc_agent.Crypt.Memory.{Base64, IsCoding, memory_encrypt, memory_decrypt}
use oidc_agent.Crypt.Memory.Laws.{memory_decrypt-memory_encrypt}
use oidc_agent.Account.{match_strings}
use oidc_agent.Accounts.Distinct.{match_strings_iff}
use oidc_agent.Accounts.Lookup.{IsSecret}
use oidc_agent.Agent.{Message, response_error, response_success_file}
use oidc_agent.Files.{
  FileDummy, fd_match, file_key, find_dummy, file_db_add_value, file_db_find_value,
  file_db_remove_if_found, oidcd_handle_file_write, oidcd_handle_file_read,
}

abbrev first_or : Option FileDummy → FileDummy → FileDummy
first_or none last = last
first_or (some fd) last = fd

find-append_same :
    (n : Option Str) (files : List FileDummy) (fd : FileDummy)
    → fd_match (file_key n) fd ≡ true
    → find_first (fd_match (file_key n)) (files ++ fd ∷ [])
      ≡ some (first_or (find_first (fd_match (file_key n)) files) fd)
find-append_same n [] fd e = rw e refl
find-append_same n (x ∷ files) fd e = ground (arith, find-append_same n files fd e)

find-remove_other :
    (m : Option Str) (fd : FileDummy) (files : List FileDummy)
    → m ≢ fd.filename
    → find_first (fd_match (file_key m)) (remove_first (fd_match fd) files)
      ≡ find_first (fd_match (file_key m)) files
unfolding fd_match
find-remove_other m fd [] ne = refl
find-remove_other m fd (x ∷ files) ne = ground (
  arith,
  match_strings_iff m x.filename,
  match_strings_iff fd.filename x.filename,
  find-remove_other m fd files ne,
)

found_name :
    (n : Option Str) (files : List FileDummy) (fd : FileDummy)
    → find_first (fd_match (file_key n)) files ≡ some fd
    → n ≡ fd.filename
unfolding fd_match
found_name n [] fd e = cc
found_name n (x ∷ files) fd e = elim (Bool-cases (match_strings n x.filename)) [
  | inl y ↦
      let same : some x ≡ some fd = rw y at e in
      let here : x ≡ fd = cc in
      (match_strings_iff n x.filename).0 y ∙ ap (λ (f : FileDummy). f.filename) here
  | inr differs ↦ found_name n files fd (rw differs at e)
]

-- If a file is removed, every file of another name is found as before.
pub file_db_remove_if_found-other :
    (files : List FileDummy) (n m : Option Str)
    → m ≢ n
    → find_dummy (file_db_remove_if_found files n) m ≡ find_dummy files m
unfolding find_dummy file_db_remove_if_found
file_db_remove_if_found-other files n m ne = elim (Option-cases (find_dummy files n)) [
  | inl e ↦ rw (e, file_db_remove_if_found) refl
  | inr (fd, e) ↦
      rw (e, file_db_remove_if_found)
        (find-remove_other m fd files (λ k. ne (k ∙ sym (found_name n files fd e))))
]

name_matches :
    (n : Option Str) (c : Option Str)
    → fd_match (file_key n) (record { filename = n; content = c }) ≡ true
unfolding fd_match
name_matches n c = (match_strings_iff n n).1 refl

module _ (b : Base64) (key : ℕ) where
  find_written :
      (files : List FileDummy) (n c : Option Str)
      → find_dummy (file_db_add_value b key files n c) n
        ≡ some (
            first_or
              (find_dummy files n)
              (record { filename = n; content = memory_encrypt b key c }))
  unfolding find_dummy file_db_add_value
  find_written files n c = find-append_same n files _ (name_matches n (memory_encrypt b key c))

  read_found :
      (files : List FileDummy) (n : Option Str) (fd : FileDummy)
      → find_dummy files n ≡ some fd
      → file_db_find_value b key files n ≡ memory_decrypt b key fd.content
  unfolding file_db_find_value
  read_found files n fd e = rw (e, file_db_find_value) refl

  answer : Option Str → Message
  answer none = response_error (codes "File not found")
  answer (some t) = response_success_file t

  answer_read :
      (files : List FileDummy) (n : Option Str)
      → (oidcd_handle_file_read b key files n).1 ≡ answer (file_db_find_value b key files n)
  unfolding oidcd_handle_file_read answer
  answer_read files n = elim (Option-cases (file_db_find_value b key files n)) [
    | inl e ↦ rw (e, oidcd_handle_file_read) refl
    | inr (t, e) ↦ rw (e, oidcd_handle_file_read) refl
  ]

  -- If no file of the name is stored, a file that is written with a valid content is read back.
  pub oidcd_handle_file_read-write :
      (coding : IsCoding b) (files : List FileDummy) (n : Option Str) (t : Str)
      → find_dummy files n ≡ none
      → IsSecret b key (some t)
      → (oidcd_handle_file_read b key (oidcd_handle_file_write b key files n (some t)).0 n).1
        ≡ response_success_file t
  unfolding oidcd_handle_file_write answer
  oidcd_handle_file_read-write coding files n t e h =
      let found =
        find_written files n (some t)
        ∙ ap
            (λ o.
              some (first_or o (record { filename = n; content = memory_encrypt b key (some t) })))
            e in
      answer_read _ n
      ∙ ap answer
          (read_found _ n _ found ∙ memory_decrypt-memory_encrypt b coding key t h.0 h.1 h.2)

  -- If a file of the name is stored, writing it again has no effect on what is read.
  pub oidcd_handle_file_read-write_again :
      (files : List FileDummy) (n c : Option Str) (fd : FileDummy)
      → find_dummy files n ≡ some fd
      → (oidcd_handle_file_read b key (oidcd_handle_file_write b key files n c).0 n).1
        ≡ (oidcd_handle_file_read b key files n).1
  unfolding oidcd_handle_file_write
  oidcd_handle_file_read-write_again files n c fd e =
      let found =
        find_written files n c
        ∙ ap (λ o. some (first_or o (record { filename = n; content = memory_encrypt b key c })))
            e in
      answer_read _ n
      ∙ ap answer (read_found _ n _ found ∙ sym (read_found files n fd e))
      ∙ sym (answer_read files n)
