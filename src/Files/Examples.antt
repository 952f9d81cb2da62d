-- ===== src/Files/Examples.antt =====
-- Tests of src/utils/db/file_db.c.
use oidc_agent.Prelude.{◌≡◌, refl, some, List, [], ◌∷◌, arith}
use oidc_agent.Text.{Str, codes}
use oidc_agent.Crypt.Memory.{memory_encrypt}
use oidc_agent.Crypt.Examples.{letters, letters-IsCoding}
use oidc_agent.Agent.{response_success_file}
use oidc_agent.Files.{
  FileDummy, find_dummy, file_db_remove_if_found, oidcd_handle_file_read, oidcd_handle_file_write,
}
use oidc_agent.Files.Laws.{oidcd_handle_file_read-write, oidcd_handle_file_read-write_again}

abbrev first : FileDummy
first = record {
  filename = some (codes "f");
  content = memory_encrypt letters 77 (some (codes "t"));
}

abbrev files : List FileDummy
files = first ∷ []

oidcd_handle_file_read-write_example :
    (oidcd_handle_file_read letters 77
      (oidcd_handle_file_write letters 77 files (some (codes "g")) (some (codes "t"))).0
      (some (codes "g"))).1
    ≡ response_success_file (codes "t")
oidcd_handle_file_read-write_example =
    oidcd_handle_file_read-write letters 77 letters-IsCoding files (some (codes "g")) (codes "t")
      (unfold find_dummy oidc_agent.Files.fd_match oidc_agent.Account.match_strings
          oidc_agent.Text.strequal in
        refl)
      (unfold oidc_agent.Text.str_valid in refl, ((omega arith, omega arith), tt), omega arith)

oidcd_handle_file_read-write_again_example :
    (oidcd_handle_file_read letters 77
      (oidcd_handle_file_write letters 77 files (some (codes "f")) (some (codes "new"))).0
      (some (codes "f"))).1
    ≡ (oidcd_handle_file_read letters 77 files (some (codes "f"))).1
oidcd_handle_file_read-write_again_example =
    oidcd_handle_file_read-write_again letters 77 files (some (codes "f")) (some (codes "new"))
      first
      (unfold find_dummy oidc_agent.Files.fd_match oidc_agent.Account.match_strings
          oidc_agent.Text.strequal in
        refl)
