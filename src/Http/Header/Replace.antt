-- ===== src/Http/Header/Replace.antt =====
-- `http_header_list_add` of src/http.c, with `replace`.
use khttp.Common.{
  ◌+◌, ◌≤◌, ◌≡◌, refl, ◌≢◌, true, none, some, List, [], ◌∷◌, ◌++◌, arith, select, find?,
  length-append, length-pos, select-append, Bytes, str_eq_iff, str_eq_self,
}
use khttp.Http.Header.{Header, named, http_header_list_get, http_header_list_add}
use khttp.Http.Header.Remove.{occurs, without, remove-without}

find-append :
    (hs ks : List Header) (name : Bytes)
    → find? (named name) (hs ++ ks)
      ≡ elim (find? (named name) hs) [ none ↦ find? (named name) ks | some h ↦ some h ]
find-append [] ks name = refl
find-append (x ∷ hs) ks name = ground (arith, find-append hs ks name)

find-without : (hs : List Header) (name : Bytes) → find? (named name) (without name hs) ≡ none
find-without [] name = refl
find-without (x ∷ hs) name = ground (arith, find-without hs name)

find-without_ne :
    (hs : List Header) (name kept : Bytes)
    → kept ≢ name
    → find? (named kept) (without name hs) ≡ find? (named kept) hs
find-without_ne [] name kept ne = refl
find-without_ne (x ∷ hs) name kept ne =
    ground (arith, find-without_ne hs name kept ne, str_eq_iff x.name name, str_eq_iff x.name kept)

occurs-without : (hs : List Header) (name : Bytes) → occurs name (without name hs) ≡ 0
occurs-without [] name = refl
occurs-without (x ∷ hs) name = ground (arith, occurs-without hs name)

occurs-append :
    (hs ks : List Header) (name : Bytes) → occurs name (hs ++ ks) ≡ occurs name hs + occurs name ks
occurs-append hs ks name =
    rw (select-append (named name) hs ks)
      (length-append (select (named name) hs) (select (named name) ks))

-- The list after a replacing add.
abbrev pub replaced : List Header → Header → List Header
replaced hs header = without header.name hs ++ header ∷ []

pub add-replaced :
    (hs : List Header) (header : Header)
    → occurs header.name hs ≤ 1
    → http_header_list_add hs header true ≡ some (replaced hs header)
unfolding http_header_list_add
add-replaced hs header h = rw (remove-without hs header.name h, http_header_list_add)

pub get-replaced_self :
    (hs : List Header) (header : Header)
    → header.name ≢ []
    → http_header_list_get (replaced hs header) (some header.name) ≡ some header
unfolding http_header_list_get
get-replaced_self hs header ne = ground (
  arith,
  find-append (without header.name hs) (header ∷ []) header.name,
  find-without hs header.name,
  str_eq_self header.name,
  length-pos header.name ne,
)

pub get-replaced_ne :
    (hs : List Header) (header : Header) (other : Bytes)
    → other ≢ header.name
    → http_header_list_get (replaced hs header) (some other) ≡ http_header_list_get hs (some other)
unfolding http_header_list_get
get-replaced_ne hs header other differs = ground (
  arith,
  find-append (without header.name hs) (header ∷ []) other,
  find-without_ne hs header.name other differs,
  str_eq_iff header.name other,
)

pub occurs-replaced_self :
    (hs : List Header) (header : Header) → occurs header.name (replaced hs header) ≡ 1
occurs-replaced_self hs header = ground (
  arith,
  occurs-append (without header.name hs) (header ∷ []) header.name,
  occurs-without hs header.name,
  str_eq_self header.name,
)

occurs-without_ne :
    (hs : List Header) (name other : Bytes)
    → other ≢ name
    → occurs other (without name hs) ≡ occurs other hs
occurs-without_ne [] name other ne = refl
occurs-without_ne (x ∷ hs) name other ne =
    ground
      (arith, occurs-without_ne hs name other ne, str_eq_iff x.name name, str_eq_iff x.name other)

pub occurs-replaced_ne :
    (hs : List Header) (header : Header) (other : Bytes)
    → other ≢ header.name
    → occurs other (replaced hs header) ≡ occurs other hs
occurs-replaced_ne hs header other ne = ground (
  arith,
  occurs-append (without header.name hs) (header ∷ []) other,
  occurs-without_ne hs header.name other ne,
  str_eq_iff header.name other,
)

-- After `http_header_list_add` with `replace`, to a list that holds at most one header of the
-- name: the add succeeds, looking the name up finds the new header, exactly one header has the
-- name, and every other name finds what it found before.
pub add_replaces :
    (hs : List Header) (header : Header)
    → header.name ≢ []
    → occurs header.name hs ≤ 1
    → (out : List Header) × (http_header_list_add hs header true ≡ some out)
      × (http_header_list_get out (some header.name) ≡ some header)
      × (occurs header.name out ≡ 1)
      × ((other : Bytes)
          → other ≢ header.name
          → http_header_list_get out (some other) ≡ http_header_list_get hs (some other))
add_replaces hs header ne h = (
  replaced hs header,
  add-replaced hs header h,
  get-replaced_self hs header ne,
  occurs-replaced_self hs header,
  get-replaced_ne hs header,
)
