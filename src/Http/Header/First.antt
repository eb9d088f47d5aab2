-- ===== src/Http/Header/First.antt =====
-- The header that `http_header_list_get` of src/http.c finds, described without it.
use mathlib.Core.Path.{subst}
use khttp.Common.{
  ℕ, ◌≡◌, refl, ◌≢◌, none, some, List, [], ◌∷◌, ◌++◌, arith, find?, str_eq_iff, All, Bytes, inl,
  inr, Bool-cases, sym, ◌∙◌, if_cases, length, ◌==◌,
}
use khttp.Http.Header.{Header, named, http_header_list_get}

-- The first header of the list that is spelled like the name, byte for byte.
pub data First (name : Bytes) : List Header → Header → Type 0 where
  here : (h : Header) (hs : List Header) → h.name ≡ name → First name (h ∷ hs) h
  later :
      (g : Header) (hs : List Header) (h : Header)
      → g.name ≢ name
      → First name hs h
      → First name (g ∷ hs) h

-- No header of the list is spelled like the name.
abbrev pub Lacks : Bytes → List Header → Type 0
Lacks name headers = All (λ (h : Header). h.name ≢ name) headers

find-First :
    (name : Bytes) (hs : List Header) {h : Header}
    → find? (named name) hs ≡ some h
    → First name hs h
find-First name [] e = absurd (ground (arith, e))
find-First name (g ∷ hs) {h} e = elim (Bool-cases (named name g)) [
  | inl same ↦
      (let found : g ≡ h = ground (arith, same, e) in
        subst (First name (g ∷ hs)) found (here g hs ((str_eq_iff g.name name).0 same)))
  | inr other ↦
      later g hs h (λ e'. ground (arith, other, (str_eq_iff g.name name).1 e'))
        (find-First name hs (ground (arith, other, e)))
]

find-Lacks : (name : Bytes) (hs : List Header) → find? (named name) hs ≡ none → Lacks name hs
find-Lacks name [] e = tt
find-Lacks name (g ∷ hs) e = elim (Bool-cases (named name g)) [
  | inl same ↦ absurd (ground (arith, same, e))
  | inr other ↦ (
    λ e'. ground (arith, other, (str_eq_iff g.name name).1 e'),
    find-Lacks name hs (ground (arith, other, e)),
  )
]

get-find :
    (c : ℕ) (name : Bytes) (hs : List Header)
    → http_header_list_get hs (some (c ∷ name)) ≡ find? (named (c ∷ name)) hs
unfolding http_header_list_get
get-find c name hs =
    if_cases (λ o. o ≡ find? (named (c ∷ name)) hs) (length (c ∷ name) == 0)
      (λ h. absurd (ground (arith, h))) (λ h. refl)

pub get-First :
    (c : ℕ) (name : Bytes) (hs : List Header) {h : Header}
    → http_header_list_get hs (some (c ∷ name)) ≡ some h
    → First (c ∷ name) hs h
get-First c name hs e = find-First (c ∷ name) hs (sym (get-find c name hs) ∙ e)

pub get-Lacks :
    (c : ℕ) (name : Bytes) (hs : List Header)
    → http_header_list_get hs (some (c ∷ name)) ≡ none
    → Lacks (c ∷ name) hs
get-Lacks c name hs e = find-Lacks (c ∷ name) hs (sym (get-find c name hs) ∙ e)

-- A header spelled like the name is in the list.
pub Lacks-last :
    (name : Bytes) (hs : List Header) (h : Header) → h.name ≡ name → ¬ Lacks name (hs ++ h ∷ [])
Lacks-last name [] h e l = l.0 e
Lacks-last name (g ∷ hs) h e l = Lacks-last name hs h e l.1
