-- ===== src/Http/Response/Typed.antt =====
-- The default Content-Type that `http_response_write` of src/http.c adds.
use khttp.Common.{
  ◌≡◌, refl, ◌≢◌, inl, inr, false, Option, none, some, List, [], ◌∷◌, ◌++◌, arith, ◌==◌,
  if◌then◌else◌, Option-cases, length, find?, length-pos, Bytes, str_eq, str_eq_iff, str_eq_self,
  ne_of_str_eq,
}
use khttp.Http.Header.{Header, http_header_new, http_header_list_get, http_header_list_add}
use khttp.Http.Header.Remove.{occurs}
use khttp.Http.Response.{header_content_type, default_content_type}

abbrev pub filled : Bytes → Bytes → Header
filled name content = record { name = name; content = some content }

-- The headers with a content type, the default one if there was none.
abbrev pub typed : List Header → List Header
typed hs = elim (http_header_list_get hs (some header_content_type)) [
  | none ↦ hs ++ filled header_content_type default_content_type ∷ []
  | some _ ↦ hs
]

get-append_missing :
    (hs : List Header) (h : Header) (name : Bytes)
    → h.name ≢ name
    → http_header_list_get (hs ++ h ∷ []) (some name) ≡ http_header_list_get hs (some name)
unfolding http_header_list_get
get-append_missing hs h name ne = go hs
  where
    go :
        (ks : List Header)
        → (if length name == 0
            then none
            else find? (λ (k : Header). str_eq k.name name) (ks ++ h ∷ []))
          ≡ (if length name == 0 then none else find? (λ (k : Header). str_eq k.name name) ks)
    go [] = ground (arith, str_eq_iff h.name name)
    go (k ∷ ks) = ground (arith, go ks)

get-append_new :
    (hs : List Header) (h : Header)
    → h.name ≢ []
    → http_header_list_get hs (some h.name) ≡ none
    → http_header_list_get (hs ++ h ∷ []) (some h.name) ≡ some h
unfolding http_header_list_get
get-append_new [] h ne e = ground (arith, str_eq_self h.name, length-pos h.name ne)
get-append_new (k ∷ ks) h ne e = ground (arith, get-append_new ks h ne, length-pos h.name ne)

occurs-append_missing :
    (hs : List Header) (h : Header) (name : Bytes)
    → h.name ≢ name
    → occurs name (hs ++ h ∷ []) ≡ occurs name hs
occurs-append_missing [] h name ne = ground (arith, str_eq_iff h.name name)
occurs-append_missing (k ∷ ks) h name ne = ground (arith, occurs-append_missing ks h name ne)

pub occurs-typed :
    (hs : List Header) (name : Bytes)
    → header_content_type ≢ name
    → occurs name (typed hs) ≡ occurs name hs
occurs-typed hs name ne = elim (Option-cases (http_header_list_get hs (some header_content_type))) [
  | inl e ↦ rw (e, typed) (occurs-append_missing hs _ name ne)
  | inr (h, e) ↦ rw (e, typed) refl
]

pub get-typed :
    (hs : List Header) (name : Bytes)
    → header_content_type ≢ name
    → http_header_list_get (typed hs) (some name) ≡ http_header_list_get hs (some name)
get-typed hs name ne = elim (Option-cases (http_header_list_get hs (some header_content_type))) [
  | inl e ↦ rw (e, typed) (get-append_missing hs _ name ne)
  | inr (h, e) ↦ rw (e, typed) refl
]

-- The content type after `typed`: what the headers said, or the default.
abbrev pub type_or_default : Option Header → Header
type_or_default none = filled header_content_type default_content_type
type_or_default (some h) = h

pub get_type-typed :
    (hs : List Header)
    → http_header_list_get (typed hs) (some header_content_type)
      ≡ some (type_or_default (http_header_list_get hs (some header_content_type)))
get_type-typed hs = elim (Option-cases (http_header_list_get hs (some header_content_type))) [
  | inl e ↦
      rw (e, typed)
        (get-append_new hs (filled header_content_type default_content_type)
          (ne_of_str_eq header_content_type [] refl) e)
  | inr (h, e) ↦ rw (e, typed) e
]

pub add_type :
    (hs : List Header)
    → (elim (http_header_list_get hs (some header_content_type)) [
      | none ↦
          http_header_list_add hs
            (http_header_new header_content_type (some default_content_type))
            false
      | some _ ↦ some hs
    ])
      ≡ some (typed hs)
unfolding http_header_list_add http_header_new
add_type hs = ground arith
