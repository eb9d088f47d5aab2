-- ===== src/Util/Trim.antt =====
-- `str_trimwhitespace` of src/util.c.
use khttp.Common.{
  ℕ, ◌≡◌, refl, ap, ◌∙◌, inl, inr, Bool, true, false, [], ◌∷◌, ◌++◌, arith, if◌then◌else◌,
  Bool-cases, All, Bytes, is_space,
}

unfoldable pub skip_spaces : Bytes → Bytes
skip_spaces [] = []
skip_spaces (c ∷ s) = if is_space c then skip_spaces s else c ∷ s

-- The loop from the end: the spaces behind the last byte that is none.
trim_end : Bytes → Bytes
trim_end [] = []
trim_end (c ∷ s) = elim (trim_end s) [ [] ↦ if is_space c then [] else c ∷ [] | d ∷ t ↦ c ∷ d ∷ t ]

-- The loop stops at the first byte at the latest.
trim_tail : Bytes → Bytes
unfolding trim_end
trim_tail [] = []
trim_tail (c ∷ s) = c ∷ trim_end s

unfoldable pub str_trimwhitespace : Bytes → Bytes
unfolding skip_spaces trim_tail
str_trimwhitespace str = trim_tail (skip_spaces str)

abbrev pub IsSpace : ℕ → Type 0
IsSpace c = is_space c ≡ true

abbrev pub starts_space : Bytes → Bool
starts_space [] = false
starts_space (c ∷ s) = is_space c

abbrev pub ends_space : Bytes → Bool
ends_space [] = false
ends_space (c ∷ []) = is_space c
ends_space (c ∷ d ∷ s) = ends_space (d ∷ s)

skip_spaces-split :
    (s : Bytes)
    → (left : Bytes) × (s ≡ left ++ skip_spaces s)
      × All IsSpace left
      × (starts_space (skip_spaces s) ≡ false)
unfolding skip_spaces
skip_spaces-split [] = ([], refl, tt, refl)
skip_spaces-split (c ∷ s) = elim (Bool-cases (is_space c)) [
  | inr text ↦ ([], rw text refl, tt, rw text text)
  | inl space ↦
      let (left, split, all, start) = skip_spaces-split s in
      (c ∷ left, rw space (ap (◌∷◌ c) split), (space, all), rw space start)
]

trim_end-split :
    (s : Bytes)
    → (right : Bytes) × (s ≡ trim_end s ++ right)
      × All IsSpace right
      × (ends_space (trim_end s) ≡ false)
unfolding trim_end
trim_end-split [] = ([], refl, tt, refl)
trim_end-split (c ∷ s) = at (trim_end s) refl (trim_end-split s)
  where
    at :
        (t : Bytes)
        → trim_end s ≡ t
        → ((right : Bytes) × (s ≡ trim_end s ++ right)
            × All IsSpace right
            × (ends_space (trim_end s) ≡ false))
        → (right : Bytes) × (c ∷ s ≡ trim_end (c ∷ s) ++ right)
          × All IsSpace right
          × (ends_space (trim_end (c ∷ s)) ≡ false)
    at [] e (right, split, all, end) = elim (Bool-cases (is_space c)) [
      | inl space ↦ (c ∷ right, ground arith, (space, all), ground arith)
      | inr text ↦ (right, ground arith, all, ground arith)
    ]
    at (d ∷ t) e (right, split, all, end) = (right, ground arith, all, ground arith)

trim_tail-split :
    (s : Bytes)
    → starts_space s ≡ false
    → (right : Bytes) × (s ≡ trim_tail s ++ right)
      × All IsSpace right
      × (starts_space (trim_tail s) ≡ false)
      × (ends_space (trim_tail s) ≡ false)
unfolding trim_tail
trim_tail-split [] h = ([], refl, tt, refl, refl)
trim_tail-split (c ∷ s) h =
    let (right, split, all, end) = trim_end-split s in
    (right, ap (◌∷◌ c) split, all, h, last (trim_end s) end)
  where
    last : (t : Bytes) → ends_space t ≡ false → ends_space (c ∷ t) ≡ false
    last [] e = h
    last (d ∷ t) e = e

-- `str_trimwhitespace` takes away white space at both ends and nothing else: the text is its result
-- between two stretches of white space, and the result neither starts nor ends with white space.
pub trimwhitespace-split :
    (str : Bytes)
    → (left : Bytes) × (right : Bytes) × (str ≡ left ++ (str_trimwhitespace str ++ right))
      × All IsSpace left
      × All IsSpace right
      × (starts_space (str_trimwhitespace str) ≡ false)
      × (ends_space (str_trimwhitespace str) ≡ false)
unfolding str_trimwhitespace
trimwhitespace-split str =
    let (left, split, all, start) = skip_spaces-split str in
    let (right, split', all', start', end) = trim_tail-split (skip_spaces str) start in
    (left, right, split ∙ ap (λ t. left ++ t) split', all, all', start', end)
