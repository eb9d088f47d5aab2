-- ===== src/Http/Method.antt =====
-- Request methods and their names, of src/http.c and src/http.h.
use mathlib.Core.Path.{subst}
use khttp.Common.{
  ◌≡◌, refl, sym, ◌∙◌, ◌≢◌, ◌↔◌, inl, inr, Bool, true, false, Option, none, some, List, [], ◌∷◌,
  arith, if◌then◌else◌, Bool-cases, Option-cases, All, Bytes, codes, str_eq, str_eq_iff,
}

pub data Method : Type 0 where
  get post head put delete options trace connect other invalid : Method

-- `none` is the failed assertion of METHOD_OTHER with no name given.
unfoldable pub http_method_getstring : Method → Option Bytes → Option Bytes
http_method_getstring get o = some (codes "GET")
http_method_getstring post o = some (codes "POST")
http_method_getstring head o = some (codes "HEAD")
http_method_getstring put o = some (codes "PUT")
http_method_getstring delete o = some (codes "DELETE")
http_method_getstring options o = some (codes "OPTIONS")
http_method_getstring trace o = some (codes "TRACE")
http_method_getstring connect o = some (codes "CONNECT")
http_method_getstring other o = o
http_method_getstring invalid o = some (codes "<INVALID>")

abbrev pub methods : List Method
methods = get ∷ post ∷ head ∷ put ∷ delete ∷ options ∷ trace ∷ connect ∷ []

is_named : Bytes → Method → Bool
is_named name m = elim (http_method_getstring m none) [ none ↦ false | some s ↦ str_eq s name ]

first_named : Bytes → List Method → Method
first_named name [] = invalid
first_named name (m ∷ ms) = if is_named name m then m else first_named name ms

unfoldable pub http_method_fromstring : Bytes → Method
unfolding first_named is_named http_method_getstring
http_method_fromstring name = first_named name methods

-- `HEAD`, `GET`, … as `http_method_fromstring` knows them.
abbrev pub IsKnown : Method → Type 0
IsKnown m = (m ≢ other) × (m ≢ invalid)

first_named_sound :
    (name : Bytes) (ms : List Method)
    → first_named name ms ≢ invalid
    → http_method_getstring (first_named name ms) none ≡ some name
unfolding first_named is_named
first_named_sound name [] h = absurd (h refl)
first_named_sound name (m ∷ ms) h = elim (Bool-cases (is_named name m)) [
  | inr miss ↦
      rw (miss, first_named) (first_named_sound name ms (λ e. h (rw (miss, first_named) e)))
  | inl hit ↦ rw (hit, first_named) (named m hit)
]
  where
    named : (k : Method) → is_named name k ≡ true → http_method_getstring k none ≡ some name
    named k e = elim (Option-cases (http_method_getstring k none)) [
      | inl gone ↦ ground (arith, gone)
      | inr (s, found) ↦ ground (arith, found, str_eq_iff s name)
    ]

at_name :
    (s name : Bytes) (m : Method)
    → some s ≡ some name
    → http_method_fromstring s ≡ m
    → http_method_fromstring name ≡ m
at_name s name m e h = let p : s ≡ name = cc in subst (λ x. http_method_fromstring x ≡ m) p h

fromstring_of_getstring :
    (m : Method) (name : Bytes)
    → IsKnown m
    → http_method_getstring m none ≡ some name
    → http_method_fromstring name ≡ m
unfolding http_method_fromstring
fromstring_of_getstring get name _ e = at_name _ name get e refl
fromstring_of_getstring post name _ e = at_name _ name post e refl
fromstring_of_getstring head name _ e = at_name _ name head e refl
fromstring_of_getstring put name _ e = at_name _ name put e refl
fromstring_of_getstring delete name _ e = at_name _ name delete e refl
fromstring_of_getstring options name _ e = at_name _ name options e refl
fromstring_of_getstring trace name _ e = at_name _ name trace e refl
fromstring_of_getstring connect name _ e = at_name _ name connect e refl
fromstring_of_getstring other name (h, _) e = absurd (h refl)
fromstring_of_getstring invalid name (_, h) e = absurd (h refl)

-- Reading and writing a method's name are inverse: a text is read as one of the eight known methods
-- exactly when it is the text that this method is written as.
pub fromstring-getstring :
    (m : Method) (name : Bytes)
    → IsKnown m
    → (http_method_fromstring name ≡ m) ↔ (http_method_getstring m none ≡ some name)
unfolding http_method_fromstring
fromstring-getstring m name known = (
  (λ e. rw e at (first_named_sound name methods (λ i. known.1 (sym e ∙ i)))),
  fromstring_of_getstring m name known,
)

-- What is read is never METHOD_OTHER.
pub fromstring-ne-other : (name : Bytes) → http_method_fromstring name ≢ other
unfolding http_method_fromstring
fromstring-ne-other name =
    go methods
      (λ e. cc, (λ e. cc, (λ e. cc, (λ e. cc, (λ e. cc, (λ e. cc, (λ e. cc, (λ e. cc, tt))))))))
  where
    go : (ms : List Method) → All (λ m. m ≢ other) ms → first_named name ms ≢ other
    go [] h = λ e. cc
    go (m ∷ ms) (h, hs) = ground (arith, go ms hs)
