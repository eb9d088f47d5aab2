-- ===== src/Server/Refusals.antt =====
-- The errors of `server_determine_file` of src/http-server.c.
use khttp.Common.{
  ℕ, ◌≤◌, inl, inr, not, Option, none, some, arith, ltb, if_cases, Option-cases, length, Bytes,
  str_prefix,
}
use khttp.Config.{HostConfig}
use khttp.Server.Files.{
  System, FileKind, FileResult, directory, regular, special, server_determine_file,
  server_find_directory_index, server_file_result_new, server_file_result_seterror,
  directory_result, kind_result, actual_result, not_found,
}

-- No error, or one with a code of an HTTP error.
abbrev pub IsRefusal : Option (ℕ × Bytes) → Type 0
IsRefusal none = Unit
IsRefusal (some (code, message)) = 400 ≤ code

abbrev Refuses : FileResult → Type 0
Refuses r = IsRefusal r.error

directory-Refuses :
    (sys : System) (host : HostConfig) (actual : Bytes) → Refuses (directory_result sys host actual)
unfolding directory_result server_file_result_new server_file_result_seterror
directory-Refuses sys host actual =
    elim (Option-cases (server_find_directory_index sys host actual)) [
      | inl e ↦
          rw (e, directory_result) (if_cases Refuses host.dir_listings (λ h. tt) (λ h. omega arith))
      | inr (index, e) ↦
          rw (e, directory_result)
            (if_cases Refuses (ltb 0 (length host.index_files)) (λ h. tt)
              (λ h. if_cases Refuses host.dir_listings (λ h. tt) (λ h. omega arith)))
    ]

kind-Refuses :
    (kind : FileKind) (sys : System) (host : HostConfig) (actual : Bytes)
    → Refuses (kind_result kind sys host actual)
unfolding kind_result server_file_result_new
kind-Refuses directory sys host actual = directory-Refuses sys host actual
kind-Refuses regular sys host actual = tt
kind-Refuses special sys host actual = tt

actual-Refuses :
    (sys : System) (host : HostConfig) (serve_dir actual : Bytes)
    → Refuses (actual_result sys host serve_dir actual)
unfolding actual_result not_found server_file_result_new server_file_result_seterror
actual-Refuses sys host serve_dir actual =
    if_cases Refuses (not (str_prefix serve_dir actual)) (λ h. omega arith)
      (λ h. elim (Option-cases (sys.stat actual)) [
        | inl e ↦ rw e (omega arith)
        | inr (kind, e) ↦ rw e (kind-Refuses kind sys host actual)
      ])

-- If `server_determine_file` sets an error, its code is at least 400.
pub determine_file-IsRefusal :
    (sys : System) (host : HostConfig) (serve_dir requested : Bytes)
    → IsRefusal (server_determine_file sys host serve_dir requested).error
unfolding server_determine_file not_found server_file_result_new server_file_result_seterror
determine_file-IsRefusal sys host serve_dir requested =
    elim (Option-cases (sys.realpath requested)) [
      | inl e ↦ rw (e, server_determine_file) (omega arith)
      | inr (actual, e) ↦ rw (e, server_determine_file) (actual-Refuses sys host serve_dir actual)
    ]
