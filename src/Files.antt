-- ===== src/Files.antt =====
-- The files that the agent keeps in memory for its clients: src/utils/db/file_db.c, and the requests for
-- them of src/oidc-agent/oidcd/oidcd_handler.c.
pub mod Laws
mod Examples
use oidc_agent.Prelude.{ℕ, Bool, Option, none, some, List, [], ◌∷◌, ◌++◌, find_first, remove_first}
use oidc_agent.Text.{Str, codes}
use oidc_agent.Crypt.Memory.{Base64, memory_encrypt, memory_decrypt}
use oidc_agent.Account.{match_strings}
use oidc_agent.Agent.{Message, response_error, response_success, response_success_file}

pub record FileDummy : Type 0 where
  pub filename : Option Str
  pub content : Option Str

unfoldable pub fd_match : FileDummy → FileDummy → Bool
fd_match fd1 fd2 = match_strings fd1.filename fd2.filename

-- A key on the stack.
abbrev pub file_key : Option Str → FileDummy
file_key filename = record { filename = filename; content = none }

-- `_findValue`
unfoldable pub find_dummy : List FileDummy → Option Str → Option FileDummy
unfolding fd_match
find_dummy files filename = find_first (fd_match (file_key filename)) files

unfoldable pub file_db_remove_if_found : List FileDummy → Option Str → List FileDummy
unfolding find_dummy fd_match
file_db_remove_if_found files filename = elim (find_dummy files filename) [
  | none ↦ files
  | some fd ↦ remove_first (fd_match fd) files
]

module _ (b : Base64) (key : ℕ) where
  unfoldable pub file_db_add_value : List FileDummy → Option Str → Option Str → List FileDummy
  file_db_add_value files filename content =
      files ++ record { filename = filename; content = memory_encrypt b key content } ∷ []

  unfoldable pub file_db_find_value : List FileDummy → Option Str → Option Str
  unfolding find_dummy
  file_db_find_value files filename = elim (find_dummy files filename) [
    | none ↦ none
    | some fd ↦ memory_decrypt b key fd.content
  ]

  unfoldable pub oidcd_handle_file_write :
      List FileDummy → Option Str → Option Str → List FileDummy × Message
  unfolding file_db_add_value
  oidcd_handle_file_write files filename content =
      (file_db_add_value files filename content, response_success)

  unfoldable pub oidcd_handle_file_read : List FileDummy → Option Str → List FileDummy × Message
  unfolding file_db_find_value
  oidcd_handle_file_read files filename = elim (file_db_find_value files filename) [
    | none ↦ (files, response_error (codes "File not found"))
    | some content ↦ (files, response_success_file content)
  ]

unfoldable pub oidcd_handle_file_remove : List FileDummy → Option Str → List FileDummy × Message
unfolding file_db_remove_if_found
oidcd_handle_file_remove files filename = (file_db_remove_if_found files filename, response_success)
