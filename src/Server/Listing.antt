-- ===== src/Server/Listing.antt =====
-- `server_generate_directory_index` of src/http-server.c: the page that lists a directory. The outer
-- `none` is a fault.
pub mod Links
use khttp.Common.{◌>>=◌, ℕ, Option, none, some, List, [], ◌∷◌, ◌++◌, length, take, Bytes, codes}
use khttp.Util.Replace.{str_replace}
use khttp.Config.{HostConfig}
use khttp.Http.Response.{}
use khttp.Server.Files.{System, FileKind, directory, regular, special}
use khttp.Server.Filesize.{server_get_filesize}

-- `uri[0] = '/'` assigns, so the first character always goes; an empty text has none to go.
pub drop_first : Bytes → Option Bytes
drop_first [] = none
drop_first (c ∷ uri) = some uri

-- The address of the file at `filepath` in the listing.
unfoldable pub link_of : Bytes → Bytes → Option Bytes
unfolding drop_first str_replace
link_of serve_dir filepath = drop_first (str_replace filepath serve_dir [])

-- What stands in the column of sizes; a file that cannot be opened has NULL there.
size_text : Option Bytes → Bytes
size_text none = codes "N/A"
size_text (some text) = text

row_text : Bytes → Bytes → Bytes → Bytes → Bytes
row_text uri name size time =
    codes "<tr><td><a href=\""
    ++ (uri
        ++ (codes "\">"
            ++ (name
                ++ (codes "</a></td><td>"
                    ++ (size
                        ++ (codes "</td><td>"
                            ++ (time ++ (codes "</td></tr>" ++ (b'\r' ∷ b'\n' ∷ [])))))))))

file_length : System → Bytes → Option ℕ
file_length sys filepath = elim (sys.fopen filepath) [
  | none ↦ none
  | some content ↦ some (length content)
]

row_with : System → Bytes → Bytes → Option Bytes → Option Bytes
unfolding link_of row_text size_text
row_with sys serve_dir filepath size = do
  uri ← link_of serve_dir filepath
  some (row_text uri (sys.basename uri) (size_text size) (sys.mtime filepath))

-- One round of the loop: nothing for an entry without stat or of another kind.
entry_row : System → Bytes → Bytes → Option FileKind → Option Bytes
unfolding row_with file_length server_get_filesize
entry_row sys serve_dir filepath none = some []
entry_row sys serve_dir filepath (some special) = some []
entry_row sys serve_dir filepath (some directory) =
    row_with sys serve_dir filepath (some (codes "[DIR]"))
entry_row sys serve_dir filepath (some regular) = do
  size ← server_get_filesize (file_length sys filepath)
  row_with sys serve_dir filepath size

rows : System → Bytes → Bytes → List Bytes → Option Bytes
unfolding entry_row
rows sys serve_dir dirpath [] = some []
rows sys serve_dir dirpath (entry ∷ entries) =
    let filepath = dirpath ++ (codes "/" ++ entry) in
    let rest = rows sys serve_dir dirpath entries in
    entry_row sys serve_dir filepath (sys.stat filepath)
    >>= (λ row. rest >>= (λ more. some (row ++ more)))

-- The test of the counter lets 8193 entries through.
unfoldable pub server_generate_directory_index : System → HostConfig → Bytes → Option (Option Bytes)
unfolding rows str_replace
server_generate_directory_index sys host dirpath = elim (sys.entries dirpath) [
  | none ↦ some none
  | some entries ↦ (do
    serve_dir ← host.serve_dir
    index ← rows sys serve_dir dirpath (take 8193 entries)
    let dirname = str_replace dirpath serve_dir []
    elim sys.dirindex_page [
      | none ↦ some none
      | some text ↦ some (
          some (
            str_replace (str_replace text (codes "{{dirname}}") dirname) (codes "{{index}}") index))
    ])
]
