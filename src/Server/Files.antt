-- ===== src/Server/Files.antt =====
-- `server_determine_file` and `server_find_directory_index` of src/http-server.c.
use khttp.Common.{
  ℕ, Bool, true, false, not, ◌||◌, Option, none, some, List, [], ◌∷◌, ◌++◌, ltb, if◌then◌else◌,
  length, find?, Bytes, codes, str_case_eq, str_prefix,
}
use khttp.Config.{HostConfig}

pub data FileKind : Type 0 where
  directory regular special : FileKind

-- What the system and the libraries answer: realpath, stat, a file's time as ctime_r prints it,
-- basename, the entries of a directory in the order of readdir, the bytes of a file, libmagic's type,
-- the vendored URL parser (whether its result is negative, and offset and length of the path if it
-- found one), and the files dirindex.html and error.html.
pub record System : Type 0 where
  pub realpath : Bytes → Option Bytes
  pub stat : Bytes → Option FileKind
  pub entries : Bytes → Option (List Bytes)
  pub fopen : Bytes → Option Bytes
  pub magic : Bytes → Option Bytes
  pub parse_url : Bytes → Bool × Option (ℕ × ℕ)
  pub mtime : Bytes → Bytes
  pub basename : Bytes → Bytes
  pub dirindex_page : Option Bytes
  pub error_page : Option Bytes

pub record FileResult : Type 0 where
  pub error : Option (ℕ × Bytes)
  pub dir : Bool
  pub path : Option Bytes

unfoldable pub server_file_result_new : FileResult
server_file_result_new = record { error = none; dir = false; path = none }

unfoldable pub server_file_result_seterror : FileResult → ℕ → Bytes → FileResult
server_file_result_seterror result code message = record result { error = some (code, message) }

-- Whether an entry is one of the index files, ignoring case.
unfoldable pub is_index : List Bytes → Bytes → Bool
is_index [] entry = false
is_index (f ∷ files) entry = str_case_eq entry f || is_index files entry

unfoldable pub server_find_directory_index : System → HostConfig → Bytes → Option Bytes
unfolding is_index
server_find_directory_index sys host path = elim (sys.entries path) [
  | none ↦ none
  | some entries ↦ elim (find? (is_index host.index_files) entries) [
    | none ↦ none
    | some entry ↦ some (path ++ (codes "/" ++ entry))
  ]
]

unfoldable pub not_found : FileResult
unfolding server_file_result_new server_file_result_seterror
not_found = server_file_result_seterror server_file_result_new 404 (codes "File not found")

unfoldable pub directory_result : System → HostConfig → Bytes → FileResult
unfolding server_find_directory_index server_file_result_new server_file_result_seterror
directory_result sys host actual =
    let listing =
      (if host.dir_listings
        then record { error = none; dir = true; path = some actual }
        else server_file_result_seterror server_file_result_new 403
            (codes "No index file was found and directory indexes are disabled")) in
    elim (server_find_directory_index sys host actual) [
      | none ↦ listing
      | some index ↦
          if ltb 0 (length host.index_files)
          then record { error = none; dir = false; path = some index }
          else listing
    ]

unfoldable pub kind_result : FileKind → System → HostConfig → Bytes → FileResult
unfolding directory_result
kind_result directory sys host actual = directory_result sys host actual
kind_result regular sys host actual = record { error = none; dir = false; path = some actual }
kind_result special sys host actual = server_file_result_new

unfoldable pub actual_result : System → HostConfig → Bytes → Bytes → FileResult
unfolding kind_result not_found
actual_result sys host serve_dir actual =
    if not (str_prefix serve_dir actual)
    then not_found
    else elim (sys.stat actual) [ none ↦ not_found | some kind ↦ kind_result kind sys host actual ]

-- `serve_dir` is the host's, which must not be NULL.
unfoldable pub server_determine_file : System → HostConfig → Bytes → Bytes → FileResult
unfolding actual_result not_found
server_determine_file sys host serve_dir requested = elim (sys.realpath requested) [
  | none ↦ not_found
  | some actual ↦ actual_result sys host serve_dir actual
]
