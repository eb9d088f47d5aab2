-- ===== src/Util/Lines.antt =====
-- `str_splitlines` of src/util.c. `none` is a write past the end of a buffer.
use khttp.Common.{
  put_token, tokens, ℕ, suc, ◌+◌, ◌≡◌, refl, ap, ◌∙◌, ◌≢◌, Bool, true, false, Option, none, some,
  List, [], ◌∷◌, ◌++◌, map, append-nil, append_assoc, arith, ltb, ◌==◌, if◌then◌else◌, length,
  length-map, All, length-append, All-append, length-pos, Bytes,
}

abbrev newline : ℕ
newline = 10

-- The first loop: `*line_count`.
count_newlines : Bytes → ℕ
count_newlines [] = 0
count_newlines (c ∷ s) = (if c == newline then 1 else 0) + count_newlines s

abbrev is_newline : ℕ → Bool
is_newline c = c == newline

-- A carriage return at the end of a line is cut off.
pub strip_cr : Bytes → Bytes
strip_cr [] = []
strip_cr (c ∷ []) = if c == 13 then [] else c ∷ []
strip_cr (c ∷ d ∷ s) = c ∷ strip_cr (d ∷ s)

-- The array has `*line_count` places. With no newline the only place gets a buffer that is one byte
-- too short for the text and its terminator.
unfoldable pub str_splitlines : Bytes → Option (List Bytes × ℕ)
unfolding count_newlines tokens strip_cr
str_splitlines str =
    let line_count = count_newlines str in
    let lines = tokens is_newline str [] in
    if line_count == 0
    then none
    else if ltb line_count (length lines)
    then none
    else some (map strip_cr lines, line_count)

-- A text that is given as its lines, each non-empty, free of newlines and ended by one.
abbrev pub IsLine : Bytes → Type 0
IsLine line = (line ≢ []) × All (λ c. c ≢ newline) line

abbrev pub join_lines : List Bytes → Bytes
join_lines [] = []
join_lines (l ∷ ls) = l ++ (newline ∷ join_lines ls)

tokens-append :
    (l s line : Bytes)
    → All (λ c. c ≢ newline) l
    → tokens is_newline (l ++ s) line ≡ tokens is_newline s (line ++ l)
unfolding tokens
tokens-append [] s line h = rw append-nil
tokens-append (c ∷ l) s line (hc, hl) =
    ground (arith, tokens-append l s (line ++ c ∷ []) hl, append_assoc line (c ∷ []) l)

count_newlines-append :
    (l s : Bytes) → All (λ c. c ≢ newline) l → count_newlines (l ++ s) ≡ count_newlines s
unfolding count_newlines
count_newlines-append [] s h = refl
count_newlines-append (c ∷ l) s (hc, hl) = ground (arith, count_newlines-append l s hl)

put_token-cons :
    (line : Bytes) (lines : List Bytes) → line ≢ [] → put_token line lines ≡ line ∷ lines
unfolding put_token
put_token-cons [] lines ne = absurd (ne refl)
put_token-cons (c ∷ line) lines ne = refl

tokens-newline :
    (s line : Bytes)
    → tokens is_newline (newline ∷ s) line ≡ put_token line (tokens is_newline s [])
unfolding tokens
tokens-newline s line = refl

count_newlines-newline : (s : Bytes) → count_newlines (newline ∷ s) ≡ suc (count_newlines s)
unfolding count_newlines
count_newlines-newline s = omega arith

tokens-join :
    (ls : List Bytes) (rest : Bytes)
    → All IsLine ls
    → tokens is_newline (join_lines ls ++ rest) [] ≡ ls ++ tokens is_newline rest []
tokens-join [] rest h = refl
tokens-join (l ∷ ls) rest ((ne, plain), hs) =
    rw (append_assoc l (newline ∷ join_lines ls) rest, tokens-append l _ [] plain)
      (tokens-newline (join_lines ls ++ rest) l
        ∙ put_token-cons l _ ne
        ∙ ap (◌∷◌ l) (tokens-join ls rest hs))

count_newlines-join :
    (ls : List Bytes) (rest : Bytes)
    → All IsLine ls
    → count_newlines (join_lines ls ++ rest) ≡ length ls + count_newlines rest
count_newlines-join [] rest h = omega arith
count_newlines-join (l ∷ ls) rest ((ne, plain), hs) =
    rw (append_assoc l (newline ∷ join_lines ls) rest, count_newlines-append l _ plain)
      (omega
        (arith, count_newlines-newline (join_lines ls ++ rest), count_newlines-join ls rest hs))

splitlines_ended :
    (ls : List Bytes)
    → ls ≢ []
    → All IsLine ls
    → str_splitlines (join_lines ls) ≡ some (map strip_cr ls, length ls)
unfolding str_splitlines tokens
splitlines_ended ls ne h = ground (
  arith,
  tokens-join ls [] h,
  count_newlines-join ls [] h,
  append-nil (join_lines ls),
  append-nil ls,
  length-pos ls ne,
)

-- A line of a text: what it says, and whether a carriage return stands before its newline.
pub record Line : Type 0 where
  pub text : Bytes
  pub cr : Bool

abbrev pub whole : Line → Bytes
whole l = l.text ++ (if l.cr then 13 ∷ [] else [])

-- A line with a byte in it, which says nothing that holds a newline. If no carriage return stands
-- before its newline, what it says does not end in one.
pub record Proper (l : Line) : Type 0 where
  pub filled : whole l ≢ []
  pub plain : All (λ c. c ≢ newline) l.text
  pub no_cr : l.cr ≡ false → (s : Bytes) → l.text ≢ s ++ 13 ∷ []

strip_cr-append : (s : Bytes) → strip_cr (s ++ 13 ∷ []) ≡ s
unfolding strip_cr
strip_cr-append [] = refl
strip_cr-append (c ∷ []) = refl
strip_cr-append (c ∷ d ∷ s) = ap (◌∷◌ c) (strip_cr-append (d ∷ s))

strip_cr-none : (text : Bytes) → ((s : Bytes) → text ≢ s ++ 13 ∷ []) → strip_cr text ≡ text
unfolding strip_cr
strip_cr-none [] h = refl
strip_cr-none (c ∷ []) h = ground (arith, h [])
strip_cr-none (c ∷ d ∷ text) h =
    ap (◌∷◌ c) (strip_cr-none (d ∷ text) (λ s e. h (c ∷ s) (ap (◌∷◌ c) e)))

strip_cr-whole :
    (text : Bytes) (cr : Bool)
    → Proper (record { text = text; cr = cr })
    → strip_cr (whole (record { text = text; cr = cr })) ≡ text
strip_cr-whole text true h = strip_cr-append text
strip_cr-whole text false h = ap strip_cr (append-nil text) ∙ strip_cr-none text (h.no_cr refl)

whole-IsLine :
    (text : Bytes) (cr : Bool)
    → Proper (record { text = text; cr = cr })
    → IsLine (whole (record { text = text; cr = cr }))
whole-IsLine text true h =
    (h.filled, All-append (λ c. c ≢ newline) text (13 ∷ []) h.plain (omega arith, tt))
whole-IsLine text false h = (h.filled, rw append-nil h.plain)

whole-All : (ls : List Line) → All Proper ls → All IsLine (map whole ls)
whole-All [] h = tt
whole-All (l ∷ ls) (here, later) = (whole-IsLine l.text l.cr here, whole-All ls later)

strip_cr-map : (ls : List Line) → All Proper ls → map strip_cr (map whole ls) ≡ map (λ l. l.text) ls
strip_cr-map [] h = refl
strip_cr-map (l ∷ ls) (here, later) =
    ground (arith, strip_cr-whole l.text l.cr here, strip_cr-map ls later)

-- A text of at least one line, each of at least one byte and ended by a newline, is split into what
-- the lines say, and the count is their number. A carriage return before a newline is cut off, of
-- several just the last, and nothing else of a line is.
pub splitlines-join :
    (ls : List Line)
    → ls ≢ []
    → All Proper ls
    → str_splitlines (join_lines (map whole ls)) ≡ some (map (λ l. l.text) ls, length ls)
splitlines-join [] ne h = absurd (ne refl)
splitlines-join (l ∷ ls) ne h =
    splitlines_ended (map whole (l ∷ ls)) (λ e. ground (arith, e)) (whole-All (l ∷ ls) h)
    ∙ ap (λ r. some (r, length (map whole (l ∷ ls)))) (strip_cr-map (l ∷ ls) h)
    ∙ ap (λ n. some (map (λ (k : Line). k.text) (l ∷ ls), n)) (length-map whole (l ∷ ls))

-- When a non-empty last line follows that is not ended by a newline, `str_splitlines` writes past the
-- end of its array of lines or of the one line.
pub splitlines_unterminated :
    (ls : List Bytes) (last : Bytes)
    → All IsLine ls
    → IsLine last
    → str_splitlines (join_lines ls ++ last) ≡ none
unfolding str_splitlines tokens count_newlines
splitlines_unterminated ls last h (ne, plain) = ground (
  arith,
  tokens-join ls last h,
  count_newlines-join ls last h,
  tokens-append last [] [] plain,
  count_newlines-append last [] plain,
  append-nil last,
  put_token-cons last [] ne,
  length-append ls (last ∷ []),
)
