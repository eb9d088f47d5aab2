-- ===== src/Mime/Load.antt =====
-- `mime_load` of src/mime.c, on files without NUL bytes. `open_file` is what a file has in it, `none` if
-- it cannot be opened; a result of -1 is `none`.
use khttp.Common.{
  ℕ, zero, suc, Bool, not, ◌&&◌, ◌||◌, Option, none, some, List, [], ◌∷◌, ◌++◌, map, leb, ◌==◌,
  if◌then◌else◌, is_empty, length, Bytes, codes, is_space, tokens,
}
use khttp.Mime.{MimeType}

-- The longest prefix of at most `n` bytes for which the test holds, and the rest.
unfoldable pub span : (ℕ → Bool) → ℕ → Bytes → Bytes × Bytes
span test zero s = ([], s)
span test (suc n) [] = ([], [])
span test (suc n) (c ∷ s) =
    let (front, rest) = span test n s in if test c then (c ∷ front, rest) else ([], c ∷ s)

abbrev pub is_blank : ℕ → Bool
is_blank c = (c == 32) || (c == 9)

-- [a-z0-9 \t]
abbrev pub is_extension : ℕ → Bool
is_extension c = (leb b'a' c && leb c b'z') || ((leb b'0' c && leb c b'9') || is_blank c)

abbrev pub no_space : ℕ → Bool
no_space c = not (is_space c)

-- sscanf(line, "%511s%*[ \t]%511[a-z0-9 \t]", mime, extstr) == 2
unfoldable pub scan_line : Bytes → Option (Bytes × Bytes)
unfolding span
scan_line line =
    let (_, start) = span is_space (length line) line in
    let (mime, more) = span no_space 511 start in
    let (blanks, tail) = span is_blank (length more) more in
    let (extstr, _) = span is_extension 511 tail in
    if is_empty mime || (is_empty blanks || is_empty extstr) then none else some (mime, extstr)

abbrev pub type_entry : Bytes → Bytes → MimeType
type_entry mime ext = record { extension = ext; mime = mime }

-- An entry for each word that strtok_r finds.
unfoldable pub line_entries : Bytes → List MimeType
unfolding scan_line tokens
line_entries line = elim (scan_line line) [
  | none ↦ []
  | some (mime, extstr) ↦ map (type_entry mime) (tokens is_blank extstr [])
]

-- Comments and empty lines are passed over.
unfoldable pub load_line : Bytes → List MimeType
unfolding line_entries
load_line [] = []
load_line (c ∷ line) = if (c == b'#') || (c == 10) then [] else line_entries (c ∷ line)

-- getline: a line with its newline, if it has one. The second argument is the line so far.
unfoldable pub lines_from : Bytes → Bytes → List Bytes
lines_from [] so_far = if is_empty so_far then [] else so_far ∷ []
lines_from (c ∷ s) so_far =
    let on = lines_from s (so_far ++ c ∷ []) in
    let fresh = lines_from s [] in if c == 10 then (so_far ++ c ∷ []) ∷ fresh else on

unfoldable pub load_lines : List Bytes → List MimeType
unfolding load_line
load_lines [] = []
load_lines (line ∷ lines) = load_line line ++ load_lines lines

abbrev pub mime_default_file : Bytes
mime_default_file = codes "/etc/mime.types"

unfoldable pub mime_load :
    (Bytes → Option Bytes) → List MimeType → Option Bytes → List MimeType × Option ℕ
unfolding load_lines lines_from
mime_load open_file list file =
    elim (open_file (elim file [ none ↦ mime_default_file | some name ↦ name ])) [
      | none ↦ (list, none)
      | some content ↦
          let new_list = load_lines (lines_from content []) in (new_list, some (length new_list))
    ]

-- The list starts empty, and the file that was asked for is ignored.
unfoldable pub mime_init : (Bytes → Option Bytes) → Option Bytes → List MimeType × Option ℕ
unfolding mime_load
mime_init open_file file = mime_load open_file [] none
