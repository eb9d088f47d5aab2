-- ===== src/Mime/Lines.antt =====
-- What `mime_load` of src/mime.c makes of a line as mime.types has it.
use khttp.Common.{
  ℕ, zero, suc, ◌≤◌, ◌≡◌, refl, sym, ap, ◌∙◌, ◌≢◌, Bool, true, false, ◌&&◌, ◌||◌, Option, none,
  some, List, [], ◌∷◌, ◌++◌, map, append-nil, append_assoc, arith, leb, ◌==◌, if◌then◌else◌,
  is_empty, length, All, All-append, Bytes, is_space, put_token, tokens,
}
use khttp.Mime.{MimeType}
use khttp.Mime.Load.{
  span, is_blank, is_extension, no_space, scan_line, type_entry, line_entries, load_line,
}

-- A line as mime.types has it: the type, a tab, and its extensions with a space between them.
abbrev pub joined : Bytes → List Bytes → Bytes
joined w [] = w
joined w (v ∷ vs) = w ++ 32 ∷ joined v vs

abbrev pub type_line : Bytes → Bytes → List Bytes → Bytes
type_line mime w ws = mime ++ (9 ∷ (joined w ws ++ 10 ∷ []))

abbrev pub Word : (ℕ → Bool) → Bytes → Type 0
Word test w = (w ≢ []) × All (λ c. test c ≡ true) w

abbrev pub is_letter : ℕ → Bool
is_letter c = (leb b'a' c && leb c b'z') || (leb b'0' c && leb c b'9')

-- What stops a span.
abbrev Stops : (ℕ → Bool) → Bytes → Type 0
Stops test [] = Unit
Stops test (c ∷ s) = test c ≡ false

span-word :
    (test : ℕ → Bool) (n : ℕ) (w rest : Bytes)
    → All (λ c. test c ≡ true) w
    → length w ≤ n
    → Stops test rest
    → span test n (w ++ rest) ≡ (w, rest)
unfolding span
span-word test zero [] rest h fits stops = refl
span-word test zero (c ∷ w) rest h fits stops = absurd (omega arith)
span-word test (suc n) [] [] h fits stops = refl
span-word test (suc n) [] (c ∷ rest) h fits stops = rw (stops, span) refl
span-word test (suc n) (c ∷ w) rest (k, h) fits stops =
    rw (k, span) (rw (span-word test n w rest h (omega arith) stops, span) refl)

tokens-word :
    (sep : ℕ → Bool) (w rest token : Bytes)
    → All (λ c. sep c ≡ false) w
    → tokens sep (w ++ rest) token ≡ tokens sep rest (token ++ w)
unfolding tokens
tokens-word sep [] rest token h = ap (tokens sep rest) (sym (append-nil token))
tokens-word sep (c ∷ w) rest token (k, h) =
    ap
      (λ b.
        if b
        then put_token token (tokens sep (w ++ rest) [])
        else tokens sep (w ++ rest) (token ++ c ∷ []))
      k
    ∙ tokens-word sep w rest (token ++ c ∷ []) h
    ∙ ap (tokens sep rest) (append_assoc token (c ∷ []) w)

put_token-word : (w : Bytes) (later : List Bytes) → w ≢ [] → put_token w later ≡ w ∷ later
unfolding put_token
put_token-word [] later ne = absurd (ne refl)
put_token-word (c ∷ w) later ne = refl

letter-blank : (w : Bytes) → All (λ c. is_letter c ≡ true) w → All (λ c. is_blank c ≡ false) w
letter-blank [] h = tt
letter-blank (c ∷ w) (k, h) = (ground (arith, k), letter-blank w h)

letter-extension :
    (w : Bytes) → All (λ c. is_letter c ≡ true) w → All (λ c. is_extension c ≡ true) w
letter-extension [] h = tt
letter-extension (c ∷ w) (k, h) = (ground (arith, k), letter-extension w h)

tokens-joined :
    (w : Bytes) (ws : List Bytes)
    → All (Word is_letter) (w ∷ ws)
    → tokens is_blank (joined w ws) [] ≡ w ∷ ws
unfolding tokens
tokens-joined w [] ((ne, h), _) =
    ap (λ t. tokens is_blank t []) (sym (append-nil w))
    ∙ tokens-word is_blank w [] [] (letter-blank w h)
    ∙ put_token-word w [] ne
tokens-joined w (v ∷ vs) ((ne, h), hs) =
    tokens-word is_blank w (32 ∷ joined v vs) [] (letter-blank w h)
    ∙ put_token-word w (tokens is_blank (joined v vs) []) ne
    ∙ ap (λ l. w ∷ l) (tokens-joined v vs hs)

joined-extension :
    (w : Bytes) (ws : List Bytes)
    → All (Word is_letter) (w ∷ ws)
    → All (λ c. is_extension c ≡ true) (joined w ws)
joined-extension w [] ((ne, h), _) = letter-extension w h
joined-extension w (v ∷ vs) ((ne, h), hs) =
    All-append (λ c. is_extension c ≡ true) w (32 ∷ joined v vs) (letter-extension w h)
      (refl, joined-extension v vs hs)

joined-first :
    (w : Bytes) (ws : List Bytes) (rest : Bytes)
    → Word is_letter w
    → Stops is_blank (joined w ws ++ rest)
joined-first [] ws rest (ne, h) = absurd (ne refl)
joined-first (c ∷ w) [] rest (ne, (k, h)) = ground (arith, k)
joined-first (c ∷ w) (v ∷ vs) rest (ne, (k, h)) = ground (arith, k)

joined-some : (w : Bytes) (ws : List Bytes) → w ≢ [] → is_empty (joined w ws) ≡ false
joined-some [] ws ne = absurd (ne refl)
joined-some (c ∷ w) [] ne = refl
joined-some (c ∷ w) (v ∷ vs) ne = refl

module _ (c : ℕ) (more w : Bytes) (ws : List Bytes)
    (plain : All (λ c. no_space c ≡ true) (c ∷ more)) (short : length (c ∷ more) ≤ 511)
    (words : All (Word is_letter) (w ∷ ws)) (fits : length (joined w ws) ≤ 511) where
  scan_line-type_line : scan_line (type_line (c ∷ more) w ws) ≡ some (c ∷ more, joined w ws)
  unfolding scan_line
  scan_line-type_line =
      let text = joined w ws in
      let line = type_line (c ∷ more) w ws in
      rw
        (
          span-word is_space (length line) [] line tt (omega arith) (ground (arith, plain.0)),
          scan_line,
        )
        (rw (span-word no_space 511 (c ∷ more) (9 ∷ (text ++ 10 ∷ [])) plain short refl, scan_line)
          (rw
            (
              span-word is_blank (length (9 ∷ (text ++ 10 ∷ []))) (9 ∷ []) (text ++ 10 ∷ [])
                  (refl, tt) (omega arith) (joined-first w ws (10 ∷ []) words.0),
              scan_line,
            )
            (rw
              (
                span-word is_extension 511 text (10 ∷ []) (joined-extension w ws words) fits refl,
                scan_line,
              )
              (rw (joined-some w ws words.0.0, scan_line) refl))))

  -- A line as mime.types has it - a type of at most 511 bytes that are no white space and do not
  -- start with '#', a tab, and one extension or more of lower-case letters and digits with spaces
  -- between, 511 bytes at most - gives just an entry of that type for each of its extensions, in
  -- order.
  pub load_line-type_line :
      (c == b'#') ≡ false
      → load_line (type_line (c ∷ more) w ws) ≡ map (type_entry (c ∷ more)) (w ∷ ws)
  unfolding load_line line_entries
  load_line-type_line no_comment =
      let line = type_line (c ∷ more) w ws in
      let kept : ((c == b'#') || (c == 10)) ≡ false = ground (arith, no_comment, plain.0) in
      let entries : Option (Bytes × Bytes) → List MimeType = λ o. elim o [
        | none ↦ []
        | some (mime, extstr) ↦ map (type_entry mime) (tokens is_blank extstr [])
      ] in
      ap (λ b. if b then [] else line_entries line) kept
      ∙ ap entries scan_line-type_line
      ∙ ap (map (type_entry (c ∷ more))) (tokens-joined w ws words)
