-- ===== src/Server/Filesize.antt =====
-- `server_get_filesize` of src/http-server.c: the size of a file in a directory listing.
use khttp.Common.{
  ℕ, zero, suc, ◌+◌, ◌*◌, ◌/◌, ◌^◌, ◌≤◌, ◌≡◌, ◌↔◌, Option, none, some, List, [], ◌∷◌, ◌++◌, arith,
  ltb, if◌then◌else◌, get_elem?, take, Bytes, codes, print_base,
}

abbrev sizenames : List Bytes
sizenames = codes "b" ∷ codes "kb" ∷ codes "mb" ∷ codes "gb" ∷ codes "pb" ∷ []

-- The loop over `size` and `size_i`, which breaks off when `size_i` is above the number of names: at
-- most seven rounds.
scale : ℕ → ℕ → ℕ → ℕ × ℕ
scale zero size size_i = (size, size_i)
scale (suc f) size size_i =
    let more = scale f (size / 1024) (size_i + 1) in
    if ltb 1024 size then (if ltb 5 size_i then (size, size_i) else more) else (size, size_i)

-- `size` is what ftell reports, `none` if the file cannot be opened; the outer `none` is a read past
-- the end of the array of names.
unfoldable pub server_get_filesize : Option ℕ → Option (Option Bytes)
unfolding scale
server_get_filesize none = some none
server_get_filesize (some size) =
    let (scaled, size_i) = scale 7 size 0 in
    elim (get_elem? sizenames size_i) [
      | none ↦ none
      | some name ↦ some (some (take 99 (print_base 10 scaled ++ name)))
    ]

-- `server_get_filesize` reads past the end of its array of unit names exactly for files of at least
-- 1025 * 1024^4 bytes.
pub filesize_faults :
    (size : ℕ) → (server_get_filesize (some size) ≡ none) ↔ (1025 * 1024 ^ 4 ≤ size)
unfolding server_get_filesize
filesize_faults size = (λ e. ground arith, λ h. ground arith)
