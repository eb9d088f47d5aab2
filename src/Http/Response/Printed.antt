-- ===== src/Http/Response/Printed.antt =====
-- What a call of `http_response_write` of src/http.c can come to.
use mathlib.Core.Path.{subst}
use khttp.Common.{
  ap, ◌≡◌, refl, ◌≢◌, ◌⊎◌, inl, inr, Option, none, some, [], ◌∷◌, ◌++◌, arith, ◌==◌, if◌then◌else◌,
  bind_inv, some_inj, Bytes,
}
use khttp.Http.Response.{
  Response, SendStatus, send_response_line, send_headers, send_body, send_done, crlf, print_headers,
  status_line, http_response_write, write_headers, standard_headers, write_from,
}

-- Its head was still to be written: there is a text, and the body is next. Or it was not: NULL.
pub data Printed (r : Response) : Option Bytes → Response → Type 0 where
  head_written :
      (text : Bytes) (r' : Response)
      → text ≢ []
      → (r.send_status ≡ send_response_line) ⊎ (r.send_status ≡ send_headers)
      → r'.send_status ≡ send_body
      → r'.body ≡ r.body
      → Printed r (some text) r'
  body_next : r.send_status ≡ send_body → Printed r none r
  all_done : r.send_status ≡ send_done → Printed r none r

ends_in_crlf : (xs ys : Bytes) → xs ++ (ys ++ crlf) ≢ []
ends_in_crlf [] [] e = ground (arith, e)
ends_in_crlf [] (y ∷ ys) e = ground (arith, e)
ends_in_crlf (x ∷ xs) ys e = ground (arith, e)

write_headers-Printed :
    (date : Bytes) (r : Response) (out : Bytes) {text : Option Bytes} {r' : Response}
    → (r.send_status ≡ send_response_line) ⊎ (r.send_status ≡ send_headers)
    → write_headers date r out ≡ some (text, r')
    → Printed r text r'
unfolding write_headers
write_headers-Printed date r out status e =
    let (hs, _, e1) =
      bind_inv (if r.line.code == 100 then some r.headers else standard_headers date r) _ e in
    let made : Printed r (some (out ++ (print_headers hs ++ crlf)))
        (record r { headers = hs; send_status = send_body }) =
      head_written _ _ (ends_in_crlf out (print_headers hs)) status refl refl in
    subst (λ p. Printed r p.0 p.1) (some_inj e1) made

unchanged :
    (r : Response) {text : Option Bytes} {r' : Response}
    → Printed r none r
    → ◌≡◌ {A = Option (Option Bytes × Response)} (some (none, r)) (some (text, r'))
    → Printed r text r'
unchanged r made e = subst (λ p. Printed r p.0 p.1) (some_inj e) made

write_from-Printed :
    (date : Bytes) (r : Response) (status : SendStatus) {text : Option Bytes} {r' : Response}
    → r.send_status ≡ status
    → write_from status date r ≡ some (text, r')
    → Printed r text r'
unfolding write_from
write_from-Printed date r send_response_line here e =
    write_headers-Printed date r (status_line r.line) (inl here) e
write_from-Printed date r send_headers here e = write_headers-Printed date r [] (inr here) e
write_from-Printed date r send_body here e = unchanged r (body_next here) e
write_from-Printed date r send_done here e = unchanged r (all_done here) e

pub http_response_write-Printed :
    (date : Bytes) (r : Response) {text : Option Bytes} {r' : Response}
    → http_response_write date r ≡ some (text, r')
    → Printed r text r'
unfolding http_response_write
http_response_write-Printed date r e = write_from-Printed date r r.send_status refl e

-- Once the head has been written, nothing more is.
pub http_response_write-next :
    (date : Bytes) (r : Response)
    → r.send_status ≡ send_body
    → http_response_write date r ≡ some (none, r)
unfolding http_response_write write_from
http_response_write-next date r e = ap (λ st. write_from st date r) e
