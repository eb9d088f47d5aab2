-- ===== src/Util/Replace.antt =====
-- `str_replace` of src/util.c. Texts are shorter than 4 GiB, so that its 32-bit positions hold.
use mathlib.Core.Path.{subst}
use khttp.Common.{
  ℕ, zero, suc, ◌+◌, ◌≤◌, ◌<◌, ◌≡◌, refl, sym, ap, ◌≢◌, inl, inr, true, false, ◌||◌, Option, none,
  some, [], ◌∷◌, ◌++◌, append_assoc, arith, ltb, ◌==◌, if◌then◌else◌, Bool-cases, Option-cases,
  length, drop, length-append, length-pos, Bytes, str_prefix, str_prefix-append,
}

-- strstr: what stands before the first occurrence of `search`, and behind it.
unfoldable pub split_sub : Bytes → Bytes → Option (Bytes × Bytes)
split_sub search [] = if str_prefix search [] then some ([], []) else none
split_sub search (c ∷ text) = elim (str_prefix search (c ∷ text)) [
  | true ↦ some ([], drop (length search) (c ∷ text))
  | false ↦ elim (split_sub search text) [
    | none ↦ none
    | some (before, after) ↦ some (c ∷ before, after)
  ]
]

-- One round for each occurrence, at most as many as the first argument.
unfoldable pub replace_loop : ℕ → Bytes → Bytes → Bytes → Bytes
replace_loop zero result search replacement = result
replace_loop (suc n) result search replacement = elim (split_sub search result) [
  | none ↦ result
  | some (before, after) ↦ replace_loop n (before ++ (replacement ++ after)) search replacement
]

unfoldable pub str_replace : Bytes → Bytes → Bytes → Bytes
unfolding replace_loop split_sub
str_replace haystack search replacement =
    if ltb (length haystack) (length search) || (length search == 0)
    then haystack
    else replace_loop 1000 haystack search replacement

str_prefix-split : (a t : Bytes) → str_prefix a t ≡ true → t ≡ a ++ drop (length a) t
str_prefix-split [] t h = refl
str_prefix-split (c ∷ a) [] h = cc
str_prefix-split (c ∷ a) (d ∷ t) h = ground (arith, str_prefix-split a t)

-- What strstr finds is there.
split_sub-append :
    (search text : Bytes) {before after : Bytes}
    → split_sub search text ≡ some (before, after)
    → text ≡ before ++ (search ++ after)
unfolding split_sub
split_sub-append [] [] e = ground arith
split_sub-append (c ∷ search) [] e = ground arith
split_sub-append search (c ∷ text) {before} {after} e =
    elim (Bool-cases (str_prefix search (c ∷ text))) [
      | inl here ↦ ground (arith, here, str_prefix-split search (c ∷ text) here)
      | inr later ↦ elim (Option-cases (split_sub search text)) [
        | inl gone ↦ ground (arith, gone, later)
        | inr (parts, found) ↦ ground (
          arith,
          found,
          later,
          split_sub-append search text {before = parts.0} {after = parts.1} found,
        )
      ]
    ]

-- And what is there is found, if not sooner.
split_sub-finds :
    (search before after : Bytes) → split_sub search (before ++ (search ++ after)) ≢ none
unfolding split_sub
split_sub-finds [] [] [] e = cc
split_sub-finds [] [] (c ∷ after) e = cc
split_sub-finds (c ∷ search) [] after e = ground (arith, str_prefix-append (c ∷ search) after)
split_sub-finds search (c ∷ before) after e = ground (
  arith,
  split_sub-finds search before after,
  Bool-cases (str_prefix search (c ∷ (before ++ (search ++ after)))),
)

split_sub-length :
    (search text : Bytes) {before after : Bytes}
    → split_sub search text ≡ some (before, after)
    → length text ≡ length before + length search + length after
split_sub-length search text {before} {after} e = omega (
  arith,
  ap length (split_sub-append search text e),
  length-append before (search ++ after),
  length-append search after,
)

replace_loop-free :
    (n : ℕ) (result search replacement : Bytes)
    → search ≢ []
    → length replacement < length search
    → length result ≤ n
    → split_sub search (replace_loop n result search replacement) ≡ none
unfolding replace_loop
replace_loop-free zero [] search replacement ne shorter h = no_room search ne
  where
    no_room : (s : Bytes) → s ≢ [] → split_sub s [] ≡ none
    no_room [] n = absurd (n refl)
    no_room (c ∷ s) n = unfold split_sub in refl
replace_loop-free zero (c ∷ result) search replacement ne shorter h = absurd (omega arith)
replace_loop-free (suc n) result search replacement ne shorter h =
    elim (Option-cases (split_sub search result)) [
      | inl gone ↦ rw (gone, replace_loop) gone
      | inr ((before, after), found) ↦
          rw (found, replace_loop)
            (replace_loop-free n (before ++ (replacement ++ after)) search replacement ne shorter (
              omega (
                arith,
                split_sub-length search result found,
                length-append before (replacement ++ after),
                length-append replacement after,
              )))
    ]

split_sub-short : (search text : Bytes) → length text < length search → split_sub search text ≡ none
split_sub-short search text h = elim (Option-cases (split_sub search text)) [
  | inl gone ↦ gone
  | inr ((before, after), found) ↦ absurd (omega (arith, split_sub-length search text found))
]

-- When the replacement is shorter than the (non-empty) search text and the haystack has at most 1000
-- bytes, no occurrence of the search text is left in the result of `str_replace`.
pub str_replace-free :
    (haystack search replacement : Bytes)
    → search ≢ []
    → length replacement < length search
    → length haystack ≤ 1000
    → split_sub search (str_replace haystack search replacement) ≡ none
unfolding str_replace
str_replace-free haystack search replacement ne shorter h = ground (
  arith,
  length-pos search ne,
  split_sub-short search haystack,
  replace_loop-free 1000 haystack search replacement ne shorter h,
)

contains-around :
    (search before text after : Bytes)
    → split_sub search text ≢ none
    → split_sub search (before ++ (text ++ after)) ≢ none
contains-around search before text after has = elim (Option-cases (split_sub search text)) [
  | inl gone ↦ absurd (has gone)
  | inr ((b, a), found) ↦
      let e : before ++ (text ++ after) ≡ (before ++ b) ++ (search ++ (a ++ after)) =
        rw (split_sub-append search text found) (simp append_assoc) in
      subst (λ t. split_sub search t ≢ none) (sym e)
        (split_sub-finds search (before ++ b) (a ++ after))
]

replace_loop-keeps :
    (n : ℕ) (result search replacement : Bytes)
    → split_sub search replacement ≢ none
    → split_sub search result ≢ none
    → split_sub search (replace_loop n result search replacement) ≢ none
unfolding replace_loop
replace_loop-keeps zero result search replacement has some_left = some_left
replace_loop-keeps (suc n) result search replacement has some_left =
    elim (Option-cases (split_sub search result)) [
      | inl gone ↦ absurd (some_left gone)
      | inr ((before, after), found) ↦
          rw (found, replace_loop)
            (replace_loop-keeps n (before ++ (replacement ++ after)) search replacement has
              (contains-around search before replacement after has))
    ]

-- When the replacement contains the search text, and so does the haystack, the result of
-- `str_replace` still contains the search text.
pub str_replace-keeps :
    (haystack search replacement : Bytes)
    → split_sub search replacement ≢ none
    → split_sub search haystack ≢ none
    → split_sub search (str_replace haystack search replacement) ≢ none
unfolding str_replace
str_replace-keeps haystack search replacement has some_left =
    elim (Bool-cases (ltb (length haystack) (length search) || (length search == 0))) [
      | inl kept ↦ rw kept some_left
      | inr replaced ↦
          rw replaced (replace_loop-keeps 1000 haystack search replacement has some_left)
    ]
