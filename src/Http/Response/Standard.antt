-- ===== src/Http/Response/Standard.antt =====
-- The headers that `http_response_write` of src/http.c adds to a response with a length.
use khttp.Common.{
  ℕ, ◌%◌, ◌≤◌, ◌≡◌, refl, ap, ◌∙◌, ◌≢◌, false, some, List, [], arith, Bytes, codes, ne_of_str_eq,
  print_base,
}
use khttp.Http.Header.{Header, http_header_new, http_header_list_get}
use khttp.Http.Header.Remove.{occurs}
use khttp.Http.Header.Replace.{
  replaced, add-replaced, get-replaced_self, get-replaced_ne, occurs-replaced_self,
  occurs-replaced_ne,
}
use khttp.Http.Body.{http_body_len}
use khttp.Http.Response.{
  Response, header_content_type, header_content_length, header_server, header_date, u32_mod,
  standard_headers,
}
use khttp.Http.Response.Typed.{
  filled, typed, type_or_default, occurs-typed, get-typed, get_type-typed, add_type,
}

abbrev pub length_header : ℕ → Header
length_header n = filled header_content_length (print_base 10 (n % u32_mod))

-- The replaced names stand at most once among the headers.
pub record IsPlain (hs : List Header) : Type 0 where
  pub lengths : occurs header_content_length hs ≤ 1
  pub dates : occurs header_date hs ≤ 1
  pub servers : occurs header_server hs ≤ 1

abbrev pub standard : Bytes → ℕ → List Header → List Header
standard date n hs =
    replaced (replaced (typed (replaced hs (length_header n))) (filled header_date date))
      (filled header_server (codes "KHTTP/0.1"))

type-ne-date : header_content_type ≢ header_date
type-ne-date = ne_of_str_eq header_content_type header_date refl

type-ne-server : header_content_type ≢ header_server
type-ne-server = ne_of_str_eq header_content_type header_server refl

dates_once :
    (n : ℕ) (hs : List Header)
    → IsPlain hs
    → occurs header_date (typed (replaced hs (length_header n))) ≤ 1
dates_once n hs p = omega (
  arith,
  occurs-typed (replaced hs (length_header n)) header_date type-ne-date,
  occurs-replaced_ne hs (length_header n) header_date
      (ne_of_str_eq header_date header_content_length refl),
  p.dates,
)

servers_once :
    (date : Bytes) (n : ℕ) (hs : List Header)
    → IsPlain hs
    → occurs header_server
        (replaced (typed (replaced hs (length_header n))) (filled header_date date))
      ≤ 1
servers_once date n hs p = omega (
  arith,
  occurs-replaced_ne (typed (replaced hs (length_header n))) (filled header_date date) header_server
      (ne_of_str_eq header_server header_date refl),
  occurs-typed (replaced hs (length_header n)) header_server type-ne-server,
  occurs-replaced_ne hs (length_header n) header_server
      (ne_of_str_eq header_server header_content_length refl),
  p.servers,
)

pub standard_headers-standard :
    (date : Bytes) (resp : Response) (n : ℕ)
    → http_body_len resp.body ≡ some n
    → resp.body_chunked ≡ false
    → IsPlain resp.headers
    → standard_headers date resp ≡ some (standard date n resp.headers)
unfolding standard_headers http_header_new
standard_headers-standard date resp n len plain p =
    let h1 = replaced resp.headers (length_header n) in
    rw (len, plain)
      (rw (add-replaced resp.headers (length_header n) p.lengths) (
        rw (add_type h1) (
          rw (add-replaced (typed h1) (filled header_date date) (dates_once n resp.headers p)) (
            add-replaced (replaced (typed h1) (filled header_date date))
              (filled header_server (codes "KHTTP/0.1")) (servers_once date n resp.headers p)))))

-- The headers that a response to be sent with its length carries when it has been printed.
pub record HasStandard (date : Bytes) (n : ℕ) (before after : List Header) : Type 0 where
  pub length_set :
      http_header_list_get after (some header_content_length)
      ≡ some (filled header_content_length (print_base 10 (n % u32_mod)))
  pub date_set : http_header_list_get after (some header_date) ≡ some (filled header_date date)
  pub server_set :
      http_header_list_get after (some header_server)
      ≡ some (filled header_server (codes "KHTTP/0.1"))
  pub type_set :
      http_header_list_get after (some header_content_type)
      ≡ some (type_or_default (http_header_list_get before (some header_content_type)))
  pub length_once : occurs header_content_length after ≡ 1

get-standard :
    (date : Bytes) (n : ℕ) (hs : List Header) (name : Bytes)
    → name ≢ header_server
    → name ≢ header_date
    → http_header_list_get (standard date n hs) (some name)
      ≡ http_header_list_get (typed (replaced hs (length_header n))) (some name)
get-standard date n hs name ns nd =
    get-replaced_ne (replaced (typed (replaced hs (length_header n))) (filled header_date date))
      (filled header_server (codes "KHTTP/0.1")) name ns
    ∙ get-replaced_ne (typed (replaced hs (length_header n))) (filled header_date date) name nd

pub standard-HasStandard :
    (date : Bytes) (n : ℕ) (hs : List Header) → HasStandard date n hs (standard date n hs)
standard-HasStandard date n hs = record {
  length_set =
      get-standard date n hs header_content_length
        (ne_of_str_eq header_content_length header_server refl)
        (ne_of_str_eq header_content_length header_date refl)
      ∙ get-typed h1 header_content_length
          (ne_of_str_eq header_content_type header_content_length refl)
      ∙ get-replaced_self hs (length_header n) (ne_of_str_eq header_content_length [] refl);
  date_set =
      get-replaced_ne (replaced (typed h1) (filled header_date date)) server_header header_date
        (ne_of_str_eq header_date header_server refl)
      ∙ get-replaced_self (typed h1) (filled header_date date) (ne_of_str_eq header_date [] refl);
  server_set =
      get-replaced_self (replaced (typed h1) (filled header_date date)) server_header
        (ne_of_str_eq header_server [] refl);
  type_set =
      get-standard date n hs header_content_type type-ne-server type-ne-date
      ∙ get_type-typed h1
      ∙ ap (λ o. some (type_or_default o))
          (get-replaced_ne hs (length_header n) header_content_type
            (ne_of_str_eq header_content_type header_content_length refl));
  length_once =
      occurs-replaced_ne (replaced (typed h1) (filled header_date date)) server_header
        header_content_length (ne_of_str_eq header_content_length header_server refl)
      ∙ occurs-replaced_ne (typed h1) (filled header_date date) header_content_length
          (ne_of_str_eq header_content_length header_date refl)
      ∙ occurs-typed h1 header_content_length
          (ne_of_str_eq header_content_type header_content_length refl)
      ∙ occurs-replaced_self hs (length_header n);
}
  where
    h1 : List Header
    h1 = replaced hs (length_header n)

    server_header : Header
    server_header = filled header_server (codes "KHTTP/0.1")
