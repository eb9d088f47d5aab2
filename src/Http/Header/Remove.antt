-- ===== src/Http/Header/Remove.antt =====
-- What `http_header_list_remove` of src/http.c does to lists with no, one or more headers of a name.
use khttp.Common.{
  ℕ, zero, suc, ◌+◌, ◌≤◌, ◌<◌, ◌≡◌, refl, ◌≢◌, inl, inr, true, not, none, some, List, [], ◌∷◌, ◌++◌,
  arith, ◌==◌, Bool-cases, Option-cases, length, select, length-append, Bytes,
}
use khttp.Http.Header.{Header, named, positions, erase_at, erase_all, http_header_list_remove}

-- How many headers of the list have the name.
abbrev pub occurs : Bytes → List Header → ℕ
occurs name hs = length (select (named name) hs)

abbrev pub without : Bytes → List Header → List Header
without name = select (λ h. not (named name h))

-- No header of the name: nothing is found and nothing is changed.
positions-nil :
    (hs : List Header) (name : Bytes) (i : ℕ) → occurs name hs ≡ 0 → positions hs name i ≡ []
unfolding positions
positions-nil [] name i h = refl
positions-nil (x ∷ hs) name i h = ground (arith, positions-nil hs name (i + 1))

without_self : (hs : List Header) (name : Bytes) → occurs name hs ≡ 0 → without name hs ≡ hs
without_self [] name h = refl
without_self (x ∷ hs) name h = ground (arith, without_self hs name)

-- One header of the name, at `k` places behind the first element.
data Once (name : Bytes) (hs : List Header) : Type 0 where
  once :
      (k : ℕ)
      → ((i : ℕ) → positions hs name i ≡ (i + k) ∷ [])
      → erase_at hs k ≡ some (without name hs)
      → Once name hs

find-Once : (hs : List Header) (name : Bytes) → occurs name hs ≡ 1 → Once name hs
unfolding positions erase_at
find-Once [] name h = absurd (omega arith)
find-Once (x ∷ hs) name h = elim (Bool-cases (named name x)) [
  | inl hit ↦
      once 0 (λ i. ground (arith, positions-nil hs name (i + 1)))
        (ground (arith, without_self hs name))
  | inr miss ↦ elim (find-Once hs name (ground arith)) [
    | once k at_k gone ↦ once (suc k) (λ i. ground (arith, at_k (i + 1))) (ground (arith, gone))
  ]
]

-- When at most one header has the name, `http_header_list_remove` removes exactly the headers of
-- the name and keeps the others in order.
pub remove-without :
    (hs : List Header) (name : Bytes)
    → occurs name hs ≤ 1
    → http_header_list_remove hs name ≡ some (without name hs)
unfolding http_header_list_remove
remove-without hs name h = elim (Bool-cases (occurs name hs == 0)) [
  | inl zero_found ↦ ground (arith, positions-nil hs name 0, without_self hs name)
  | inr found ↦ elim (find-Once hs name (ground arith)) [
    | once k at_k gone ↦ ground (arith, at_k 0, gone)
  ]
]

erase_at-length :
    (hs : List Header) (pos : ℕ) {rest : List Header}
    → erase_at hs pos ≡ some rest
    → length hs ≡ suc (length rest)
unfolding erase_at
erase_at-length [] pos e = cc
erase_at-length (x ∷ hs) zero e = ground arith
erase_at-length (x ∷ hs) (suc pos) e = elim (Option-cases (erase_at hs pos)) [
  | inl gone ↦ ground (arith, gone)
  | inr (r, found) ↦ ground (arith, found, erase_at-length hs pos found)
]

erase_at_past : (hs : List Header) (pos : ℕ) → length hs ≤ pos → erase_at hs pos ≡ none
unfolding erase_at
erase_at_past [] pos h = refl
erase_at_past (x ∷ hs) zero h = absurd (omega arith)
erase_at_past (x ∷ hs) (suc pos) h = ground (arith, erase_at_past hs pos)

erase_all_past :
    (hs : List Header) (ps : List ℕ) (l : ℕ) → length hs ≤ l → erase_all hs (ps ++ l ∷ []) ≡ none
unfolding erase_all
erase_all_past hs [] l h = rw (erase_at_past hs l h, erase_all)
erase_all_past hs (p ∷ ps) l h = elim (Option-cases (erase_at hs p)) [
  | inl gone ↦ rw (gone, erase_all)
  | inr (r, found) ↦
      rw (found, erase_all) (erase_all_past r ps l (omega (arith, erase_at-length hs p found)))
]

positions-last :
    (hs : List Header) (h : Header) (name : Bytes) (i : ℕ)
    → named name h ≡ true
    → positions (hs ++ h ∷ []) name i ≡ positions hs name i ++ (i + length hs) ∷ []
unfolding positions
positions-last [] h name i e = ground arith
positions-last (x ∷ hs) h name i e = ground (arith, positions-last hs h name (i + 1))

erase_all_repeat :
    (hs : List Header) (ps : List ℕ) (l : ℕ)
    → ps ≢ []
    → length hs ≤ suc l
    → erase_all hs (ps ++ l ∷ []) ≡ none
unfolding erase_all
erase_all_repeat hs [] l ne h = absurd (ne refl)
erase_all_repeat hs (p ∷ ps) l ne h = elim (Option-cases (erase_at hs p)) [
  | inl gone ↦ rw (gone, erase_all)
  | inr (r, found) ↦
      rw (found, erase_all) (erase_all_past r ps l (omega (arith, erase_at-length hs p found)))
]

positions-ne-nil :
    (hs : List Header) (name : Bytes) (i : ℕ) → 0 < occurs name hs → positions hs name i ≢ []
unfolding positions
positions-ne-nil [] name i h = absurd (omega arith)
positions-ne-nil (x ∷ hs) name i h = ground (arith, positions-ne-nil hs name (i + 1))

-- When the last header of a list has the name and so has an earlier one,
-- `http_header_list_remove` reads past the end of the array: the positions that it found go stale
-- with the first erasure.
pub remove_repeated :
    (hs : List Header) (h : Header) (name : Bytes)
    → named name h ≡ true
    → 0 < occurs name hs
    → http_header_list_remove (hs ++ h ∷ []) name ≡ none
unfolding http_header_list_remove
remove_repeated hs h name e more = rw (positions-last hs h name 0 e) (
    erase_all_repeat (hs ++ h ∷ []) (positions hs name 0) (0 + length hs)
      (positions-ne-nil hs name 0 more) (omega (arith, length-append hs (h ∷ []))))
