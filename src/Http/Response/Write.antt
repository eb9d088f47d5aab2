-- ===== src/Http/Response/Write.antt =====
-- What `http_response_write` of src/http.c writes, and the headers that it leaves.
use khttp.Common.{ℕ, ◌≡◌, refl, false, Option, none, some, ◌++◌, arith, ◌==◌, Bytes}
use khttp.Http.Body.{http_body_len}
use khttp.Http.Response.{
  Response, send_response_line, send_body, crlf, print_headers, status_line, standard_headers,
  http_response_write,
}
use khttp.Http.Response.Standard.{
  IsPlain, standard, standard_headers-standard, HasStandard, standard-HasStandard,
}

-- The first `http_response_write` of a response other than 100 that is not chunked, whose body has
-- a length, and which has Content-Length, Date and Server at most once: it succeeds, prints the
-- status line, the headers that it leaves and an empty line, and moves on to the body. Those
-- headers give the body's length (as a 32-bit number) in a single Content-Length, the date, the
-- server, and the content type that was set before or else the default one.
pub write_standard :
    (date : Bytes) (resp : Response) (n : ℕ)
    → resp.send_status ≡ send_response_line
    → http_body_len resp.body ≡ some n
    → resp.body_chunked ≡ false
    → (resp.line.code == 100) ≡ false
    → IsPlain resp.headers
    → (resp' : Response) × (http_response_write date resp
        ≡ some (some (status_line resp.line ++ (print_headers resp'.headers ++ crlf)), resp'))
      × (resp'.send_status ≡ send_body)
      × (resp'.body ≡ resp.body)
      × HasStandard date n resp.headers resp'.headers
unfolding http_response_write
write_standard date resp n status len plain code p = (
  record resp { headers = standard date n resp.headers; send_status = send_body },
  rw (status, http_response_write)
      (rw code (rw (standard_headers-standard date resp n len plain p) refl)),
  refl,
  refl,
  standard-HasStandard date n resp.headers,
)

-- Once `http_response_write` has printed a response it never prints it again: a second call returns
-- NULL and changes nothing.
pub write_once :
    (date later : Bytes) (resp : Response) {out : Option Bytes} {resp' : Response}
    → http_response_write date resp ≡ some (out, resp')
    → http_response_write later resp' ≡ some (none, resp')
unfolding http_response_write
write_once date later resp e = ground (arith, standard_headers date resp)

-- A 100 response is printed with the headers that it has and no other, whatever its body.
pub write_continue :
    (date : Bytes) (resp : Response)
    → resp.send_status ≡ send_response_line
    → resp.line.code ≡ 100
    → http_response_write date resp
      ≡ some (
        some (status_line resp.line ++ (print_headers resp.headers ++ crlf)),
        record resp { send_status = send_body },
      )
unfolding http_response_write
write_continue date resp status code = ground arith
