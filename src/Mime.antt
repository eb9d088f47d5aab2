-- ===== src/Mime.antt =====
-- Content types by extension, of src/mime.c. The list of types is what `mime_load` reads; `magic` is
-- libmagic's answer for a file, `none` if it has none.
pub mod Load
pub mod Lines
pub mod Examples
use khttp.Common.{
  ◌≡◌, refl, ◌≢◌, Option, none, some, List, [], ◌∷◌, ◌++◌, arith, ◌==◌, if◌then◌else◌, find?, All,
  Bytes, str_eq,
}

pub record MimeType : Type 0 where
  pub extension : Bytes
  pub mime : Bytes

-- strrchr(filename, '.'): what stands behind the last dot.
unfoldable pub extension_of : Bytes → Option Bytes
extension_of [] = none
extension_of (c ∷ s) = elim (extension_of s) [
  | some ext ↦ some ext
  | none ↦ if c == b'.' then some s else none
]

unfoldable pub mime_get_type_magic : (Bytes → Option Bytes) → Bytes → Bytes → Bytes
mime_get_type_magic magic filename fallback = elim (magic filename) [
  | none ↦ fallback
  | some mime ↦ mime
]

by_extension : List MimeType → Bytes → Option MimeType
by_extension list ext = find? (λ t. str_eq ext t.extension) list

unfoldable pub mime_list_get_type : (Bytes → Option Bytes) → List MimeType → Bytes → Bytes → Bytes
unfolding extension_of mime_get_type_magic by_extension
mime_list_get_type magic list filename fallback =
    let guessed = mime_get_type_magic magic filename fallback in
    elim (extension_of filename) [
      | none ↦ guessed
      | some [] ↦ guessed
      | some (c ∷ ext) ↦ elim (by_extension list (c ∷ ext)) [ none ↦ guessed | some t ↦ t.mime ]
    ]

extension_of_plain : (ext : Bytes) → All (λ c. c ≢ b'.') ext → extension_of ext ≡ none
unfolding extension_of
extension_of_plain [] h = refl
extension_of_plain (c ∷ ext) (hc, hs) = ground (arith, extension_of_plain ext hs)

extension_of-append :
    (stem ext : Bytes) → All (λ c. c ≢ b'.') ext → extension_of (stem ++ b'.' ∷ ext) ≡ some ext
unfolding extension_of
extension_of-append [] ext h = ground (arith, extension_of_plain ext h)
extension_of-append (c ∷ stem) ext h = ground (arith, extension_of-append stem ext h)

-- A file name that ends in a dot and a non-empty extension without a dot gets the type of the first
-- entry for exactly that extension, and libmagic's answer, or else the fallback, if there is none.
pub get_type_by_extension :
    (magic : Bytes → Option Bytes) (list : List MimeType) (stem ext fallback : Bytes)
    → ext ≢ []
    → All (λ c. c ≢ b'.') ext
    → mime_list_get_type magic list (stem ++ b'.' ∷ ext) fallback
      ≡ elim (find? (λ t. str_eq ext t.extension) list) [
        | some t ↦ t.mime
        | none ↦ elim (magic (stem ++ b'.' ∷ ext)) [ none ↦ fallback | some mime ↦ mime ]
      ]
unfolding mime_list_get_type
get_type_by_extension magic list stem [] fallback ne h = absurd (ne refl)
get_type_by_extension magic list stem (c ∷ ext) fallback ne h =
    rw (extension_of-append stem (c ∷ ext) h, mime_list_get_type) (ground arith)
