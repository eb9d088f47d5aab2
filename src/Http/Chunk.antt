-- ===== src/Http/Chunk.antt =====
-- Chunked transfer coding of src/http.c: `http_chunks_write` and `http_chunks_terminate`.
use Prim.Native.Nat.{min}
use khttp.Common.{
  concat, ℕ, zero, suc, ◌+◌, ◌-◌, ◌*◌, ◌≤◌, ◌<◌, ◌≡◌, refl, sym, ◌∙◌, inl, inr, Option, none, some,
  List, [], ◌∷◌, ◌++◌, append-nil, append_assoc, arith, ltb, if◌then◌else◌, Bool-cases, length,
  take, drop, All, take-append-drop, length-take, drop-drop, length-drop, drop-all, Bytes, codes,
  print_base,
}
use khttp.Http.Header.{Header}
use khttp.Http.Response.{crlf, print_headers}

abbrev pub chunk_maxsize : ℕ
chunk_maxsize = 1024 * 16

-- "%zx;\r\n"
abbrev pub chunk_head : ℕ → Bytes
chunk_head n = print_base 16 n ++ (codes ";" ++ crlf)

-- The longest head, and room for CR, LF and the terminator.
pub overhead : ℕ
overhead = length (chunk_head chunk_maxsize) + 3

-- The loop, on fuel: each round moves `i` on.
chunk_loop : ℕ → Bytes → ℕ → Bytes → Bytes
unfolding overhead
chunk_loop zero source i out = out
chunk_loop (suc f) source i out =
    let chunk_len = min (length source - i) (chunk_maxsize - overhead) in
    let more =
      chunk_loop f source (i + chunk_len)
        ((out ++ chunk_head chunk_len) ++ take chunk_len (drop i source)) in
    if ltb i (length source) then more else out

unfoldable pub http_chunks_write : Bytes → Bytes → Bytes
unfolding chunk_loop
http_chunks_write source output = chunk_loop (length source) source 0 output

unfoldable pub http_chunks_terminate : Option (List Header) → Bytes → Bytes
unfolding print_headers
http_chunks_terminate footers output =
    output
    ++ (codes "0" ++ (crlf ++ ((elim footers [ none ↦ [] | some hs ↦ print_headers hs ]) ++ crlf)))

-- Chunks as the function prints them: no line end follows the data.
abbrev pub print_chunks : List Bytes → Bytes
print_chunks [] = []
print_chunks (p ∷ ps) = chunk_head (length p) ++ (p ++ print_chunks ps)

abbrev pub FitsChunk : Bytes → Type 0
FitsChunk p = (0 < length p) × (length p ≤ 16374)

overhead_lem : overhead ≡ 10
unfolding overhead print_base
overhead_lem = refl

length-piece :
    (source : Bytes) (i n : ℕ) → n ≤ length source - i → length (take n (drop i source)) ≡ n
length-piece source i n h = omega (arith, length-take n (drop i source), length-drop i source)

abbrev Chunked : Bytes → Bytes → Bytes → Type 0
Chunked out rest result =
    (pieces : List Bytes) × (result ≡ out ++ print_chunks pieces)
    × (concat pieces ≡ rest)
    × All FitsChunk pieces

-- One more chunk in front.
Chunked-cons :
    (source : Bytes) (i n : ℕ) (out r : Bytes)
    → n ≤ length source - i
    → 0 < n
    → n ≤ 16374
    → Chunked ((out ++ chunk_head n) ++ take n (drop i source)) (drop (i + n) source) r
    → Chunked out (drop i source) r
Chunked-cons source i n out r h pos fits (pieces, printed, joined, all) =
    let piece = take n (drop i source) in
    let len : length piece ≡ n = length-piece source i n h in
    (
      piece ∷ pieces,
      rw (len, printed)
          (append_assoc (out ++ chunk_head n) piece (print_chunks pieces)
            ∙ append_assoc out (chunk_head n) (piece ++ print_chunks pieces)),
      rw (joined, ← drop-drop n i source) (take-append-drop n (drop i source)),
      ((omega arith, omega arith), all),
    )

chunk_loop-Chunked :
    (f : ℕ) (source : Bytes) (i : ℕ) (out : Bytes)
    → length source ≤ i + f
    → Chunked out (drop i source) (chunk_loop f source i out)
unfolding chunk_loop
chunk_loop-Chunked zero source i out h =
    ([], sym (append-nil out), sym (drop-all i source (omega arith)), tt)
chunk_loop-Chunked (suc f) source i out h = elim (Bool-cases (ltb i (length source))) [
  | inr past ↦
      ([], rw (past, chunk_loop) (sym (append-nil out)), sym (drop-all i source (ground arith)), tt)
  | inl more ↦
      let n = min (length source - i) (chunk_maxsize - overhead) in
      let left : i < length source = ground arith in
      rw (more, chunk_loop)
        (Chunked-cons source i n out _ (omega arith) (omega (arith, overhead_lem))
          (omega (arith, overhead_lem))
          (chunk_loop-Chunked f source (i + n) ((out ++ chunk_head n) ++ take n (drop i source))
            (omega (arith, overhead_lem))))
]

-- What `http_chunks_write` adds to the output is a row of chunks, each its length in hexadecimal, a
-- semicolon and a line end followed by its data alone, with no line end behind the data. The data
-- joined is the whole source, in order, and each chunk has between 1 and 16374 bytes.
pub chunks_write-Chunked :
    (source output : Bytes)
    → (pieces : List Bytes) × (http_chunks_write source output ≡ output ++ print_chunks pieces)
      × (concat pieces ≡ source)
      × All FitsChunk pieces
unfolding http_chunks_write
chunks_write-Chunked source output =
    chunk_loop-Chunked (length source) source 0 output (omega arith)
