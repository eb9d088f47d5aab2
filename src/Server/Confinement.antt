-- ===== src/Server/Confinement.antt =====
-- How far `server_determine_file` of src/http-server.c keeps requests inside the served directory.
use khttp.Common.{
  ◌≡◌, refl, sym, ap, ◌∙◌, inl, inr, true, false, none, some, [], ◌∷◌, ◌++◌, arith, Bool-cases,
  Option-cases, find?, Bytes, codes, str_prefix, str_prefix-append,
}
use khttp.Config.{HostConfig}
use khttp.Server.Files.{
  System, FileKind, directory, regular, special, server_determine_file, server_find_directory_index,
  server_file_result_new, server_file_result_seterror, is_index, directory_result, kind_result,
  actual_result, not_found,
}

str_prefix_trans : (a b c : Bytes) → str_prefix a b ≡ true → str_prefix a (b ++ c) ≡ true
str_prefix_trans [] b c h = refl
str_prefix_trans (x ∷ a) [] c h = cc
str_prefix_trans (x ∷ a) (y ∷ b) c h = ground (arith, str_prefix_trans a b c)

index-prefix :
    (sys : System) (host : HostConfig) (serve_dir path : Bytes) {index : Bytes}
    → str_prefix serve_dir path ≡ true
    → server_find_directory_index sys host path ≡ some index
    → str_prefix serve_dir index ≡ true
unfolding server_find_directory_index
index-prefix sys host serve_dir path h e =
    let joined = (λ (c : Bytes). str_prefix_trans serve_dir path c h) in
    elim (Option-cases (sys.entries path)) [
      | inl e0 ↦ ground (arith, e0)
      | inr (es, e1) ↦ elim (Option-cases (find? (is_index host.index_files) es)) [
        | inl e0 ↦ ground (arith, e1, e0)
        | inr (entry, found) ↦ grind (arith, e1, found, joined (codes "/" ++ entry))
      ]
    ]

directory-prefix :
    (sys : System) (host : HostConfig) (serve_dir actual : Bytes) {p : Bytes}
    → str_prefix serve_dir actual ≡ true
    → (directory_result sys host actual).path ≡ some p
    → str_prefix serve_dir p ≡ true
unfolding directory_result
directory-prefix sys host serve_dir actual h e =
    elim (Option-cases (server_find_directory_index sys host actual)) [
      | inl e0 ↦ ground (arith, e0)
      | inr (index, e1) ↦ ground (arith, e1, index-prefix sys host serve_dir actual h e1)
    ]

kind-prefix :
    (kind : FileKind) (sys : System) (host : HostConfig) (serve_dir actual : Bytes) {p : Bytes}
    → str_prefix serve_dir actual ≡ true
    → (kind_result kind sys host actual).path ≡ some p
    → str_prefix serve_dir p ≡ true
unfolding kind_result server_file_result_new
kind-prefix directory sys host serve_dir actual h e = directory-prefix sys host serve_dir actual h e
kind-prefix regular sys host serve_dir actual h e = ground (arith, h, e)
kind-prefix special sys host serve_dir actual h e = ground (arith, e)

actual_inside :
    (sys : System) (host : HostConfig) (serve_dir actual : Bytes) (kind : FileKind)
    → str_prefix serve_dir actual ≡ true
    → sys.stat actual ≡ some kind
    → actual_result sys host serve_dir actual ≡ kind_result kind sys host actual
unfolding actual_result
actual_inside sys host serve_dir actual kind h e = ground (arith, h, e)

determine_actual :
    (sys : System) (host : HostConfig) (serve_dir requested actual : Bytes)
    → sys.realpath requested ≡ some actual
    → server_determine_file sys host serve_dir requested ≡ actual_result sys host serve_dir actual
unfolding server_determine_file
determine_actual sys host serve_dir requested actual e = ground (arith, e)

actual-prefix :
    (sys : System) (host : HostConfig) (serve_dir actual : Bytes) {p : Bytes}
    → (actual_result sys host serve_dir actual).path ≡ some p
    → str_prefix serve_dir p ≡ true
unfolding actual_result not_found server_file_result_seterror server_file_result_new
actual-prefix sys host serve_dir actual e = elim (Bool-cases (str_prefix serve_dir actual)) [
  | inl h ↦ elim (Option-cases (sys.stat actual)) [
    | inl e0 ↦ ground (arith, h, e0, e)
    | inr (kind, e1) ↦
        kind-prefix kind sys host serve_dir actual h
          (ap (λ r. r.path) (sym (actual_inside sys host serve_dir actual kind h e1)) ∙ e)
  ]
  | inr h ↦ ground (arith, h, e)
]

-- Every path that `server_determine_file` returns, of a file, an index file or a directory to list,
-- starts with the bytes of the served directory.
pub determine_file-inside :
    (sys : System) (host : HostConfig) (serve_dir requested : Bytes) {p : Bytes}
    → (server_determine_file sys host serve_dir requested).path ≡ some p
    → str_prefix serve_dir p ≡ true
unfolding server_determine_file not_found server_file_result_seterror server_file_result_new
determine_file-inside sys host serve_dir requested e =
    elim (Option-cases (sys.realpath requested)) [
      | inl e0 ↦ ground (arith, e0, e)
      | inr (actual, e1) ↦
          actual-prefix sys host serve_dir actual
            (ap (λ r. r.path) (sym (determine_actual sys host serve_dir requested actual e1)) ∙ e)
    ]

-- The test is on bytes and not on path components: if the resolved path of a request is the served
-- directory's name with anything behind it, a slash or not, and names a regular file, that file is
-- returned, so a sibling whose name only starts like the served directory is served too.
pub determine_file-sibling :
    (sys : System) (host : HostConfig) (serve_dir rest requested : Bytes)
    → sys.realpath requested ≡ some (serve_dir ++ rest)
    → sys.stat (serve_dir ++ rest) ≡ some regular
    → server_determine_file sys host serve_dir requested
      ≡ record { error = none; dir = false; path = some (serve_dir ++ rest) }
unfolding server_determine_file actual_result kind_result
determine_file-sibling sys host serve_dir rest requested real kind =
    ground (arith, real, kind, str_prefix-append serve_dir rest)
