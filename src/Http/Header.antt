-- ===== src/Http/Header.antt =====
-- Header lists of src/http.c. A `UT_array` of headers is a list; a pointer into it is a position.
-- `none` stands for a read through NULL or past the end.
pub mod First
pub mod Remove
pub mod Replace
use khttp.Common.{
  ℕ, zero, suc, ◌+◌, Bool, Option, none, some, List, [], ◌∷◌, ◌++◌, ◌==◌, if◌then◌else◌, length,
  find?, Bytes, str_eq,
}

pub record Header : Type 0 where
  pub name : Bytes
  pub content : Option Bytes

unfoldable pub http_header_append_content : Header → Bytes → Header
http_header_append_content header content = elim header.content [
  | none ↦ record header { content = some content }
  | some old ↦ record header { content = some (old ++ content) }
]

unfoldable pub http_header_new : Bytes → Option Bytes → Header
unfolding http_header_append_content
http_header_new name content =
    let header : Header = record { name = name; content = none } in
    elim content [ none ↦ header | some c ↦ http_header_append_content header c ]

unfoldable pub http_header_list_new : List Header
http_header_list_new = []

abbrev pub named : Bytes → Header → Bool
named name h = str_eq h.name name

-- The first header of that name; `name` may be NULL.
unfoldable pub http_header_list_get : List Header → Option Bytes → Option Header
http_header_list_get list none = none
http_header_list_get list (some name) = if length name == 0 then none else find? (named name) list

-- The positions of the headers of that name, the first element standing at `i`.
positions : List Header → Bytes → ℕ → List ℕ
positions [] name i = []
positions (h ∷ hs) name i =
    let rest = positions hs name (i + 1) in if named name h then i ∷ rest else rest

unfoldable pub http_header_list_getall : List Header → Bytes → List ℕ
unfolding positions
http_header_list_getall list name = positions list name 0

-- `utarray_erase` of one element: its destructor reads the element, which must be there.
pub erase_at : List Header → ℕ → Option (List Header)
erase_at [] pos = none
erase_at (h ∷ hs) zero = some hs
erase_at (h ∷ hs) (suc pos) = elim (erase_at hs pos) [ none ↦ none | some rest ↦ some (h ∷ rest) ]

-- The loop of `http_header_list_remove`: the positions were found before anything was erased.
pub erase_all : List Header → List ℕ → Option (List Header)
erase_all list [] = some list
erase_all list (pos ∷ ps) = elim (erase_at list pos) [ none ↦ none | some rest ↦ erase_all rest ps ]

unfoldable pub http_header_list_remove : List Header → Bytes → Option (List Header)
unfolding erase_at erase_all http_header_list_getall
http_header_list_remove list name = erase_all list (http_header_list_getall list name)

unfoldable pub http_header_list_add : List Header → Header → Bool → Option (List Header)
unfolding http_header_list_remove
http_header_list_add list header replace =
    elim (if replace then http_header_list_remove list header.name else some list) [
      | none ↦ none
      | some kept ↦ some (kept ++ header ∷ [])
    ]
