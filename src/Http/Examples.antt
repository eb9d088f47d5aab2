-- ===== src/Http/Examples.antt =====
-- The theorems on the models of src/http.c and src/http-body.c at concrete messages.
use khttp.Common.{
  ◌≡◌, refl, ◌≢◌, ◌↔◌, false, none, some, List, [], ◌∷◌, ◌++◌, arith, concat, drop, All, Bytes,
  codes,
}
use khttp.Http.Method.{post, http_method_getstring, http_method_fromstring, fromstring-getstring}
use khttp.Http.Header.{Header}
use khttp.Http.Body.{
  content_of, Body, body_none, body_string, null, live, FdEvent, accepts, would_block, FdRun,
  hbwrite_done, http_body_len, http_body_writeto_fd,
}
use khttp.Http.Body.Sending.{writeto_fd_sends, writeto_fd_finishes}
use khttp.Http.Response.{
  Response, http11, send_response_line, send_body, crlf, print_headers, status_line,
  http_response_write,
}
use khttp.Http.Response.Standard.{IsPlain, HasStandard}
use khttp.Http.Response.Write.{write_standard, write_continue}
use khttp.Http.Chunk.{print_chunks, FitsChunk, http_chunks_write, chunks_write-Chunked}

fromstring-getstring_example :
    (http_method_fromstring (codes "POST") ≡ post)
    ↔ (http_method_getstring post none ≡ some (codes "POST"))
fromstring-getstring_example =
    fromstring-getstring post (codes "POST") (λ e. ground (arith, e), λ e. ground (arith, e))

abbrev host_header : Header
host_header = record { name = codes "Host"; content = some (codes "localhost") }

abbrev accept_header : Header
accept_header = record { name = codes "Accept"; content = some (codes "text/html") }

abbrev two_headers : List Header
two_headers = host_header ∷ accept_header ∷ []

abbrev other_host : Header
other_host = record { name = codes "Host"; content = some (codes "example.org") }

abbrev hello : Body
hello = record { type = body_string; roffset = 1; ptr = live (codes "hello") }

hello_content : content_of hello.type hello.ptr ≡ some (codes "hello")
unfolding content_of
hello_content = refl

hello_length : http_body_len hello ≡ some 5
unfolding http_body_len
hello_length = refl

writeto_fd_sends_example :
    (body' : Body) × (run : FdRun) × (http_body_writeto_fd
        (accepts 2 ∷ would_block ∷ [])
        false
        hello
      ≡ some (body', run))
    × (body'.type ≡ body_string)
    × (body'.ptr ≡ live (codes "hello"))
    × (run.sent ++ drop body'.roffset (codes "hello") ≡ codes "ello")
writeto_fd_sends_example =
    writeto_fd_sends hello (codes "hello") hello_content (accepts 2 ∷ would_block ∷ []) false

abbrev sent_body : Body
sent_body = record { type = body_string; roffset = 5; ptr = live (codes "hello") }

abbrev sent_run : FdRun
sent_run = record { result = some hbwrite_done; roffset = 5; sent = codes "ello"; rest = [] }

hello_sent :
    http_body_writeto_fd (accepts 2 ∷ accepts 9 ∷ []) false hello ≡ some (sent_body, sent_run)
unfolding http_body_writeto_fd
hello_sent = refl

abbrev five : List FdEvent
five = accepts 1 ∷ accepts 1 ∷ accepts 2 ∷ accepts 1 ∷ accepts 1 ∷ []

writeto_fd_finishes_example :
    (body' : Body) × (run : FdRun) × (http_body_writeto_fd five false hello ≡ some (body', run))
    × (run.result ≡ some hbwrite_done)
writeto_fd_finishes_example =
    writeto_fd_finishes hello (codes "hello") hello_content five (λ e. ground (arith, e))
      (omega arith, (omega arith, (omega arith, (omega arith, (omega arith, tt))))) (omega arith)

abbrev page_found : Response
page_found = record {
  line = record { version = http11; code = 200; custom_message = none };
  headers = host_header ∷ [];
  body_chunked = false;
  body = hello;
  send_status = send_response_line;
}

abbrev date_text : Bytes
date_text = codes "Sun, 06 Nov 1994 08:49:37 GMT"

page_found-IsPlain : IsPlain page_found.headers
page_found-IsPlain = record { lengths = omega arith; dates = omega arith; servers = omega arith }

write_standard_example :
    (resp' : Response) × (http_response_write date_text page_found
      ≡ some (some (status_line page_found.line ++ (print_headers resp'.headers ++ crlf)), resp'))
    × (resp'.send_status ≡ send_body)
    × (resp'.body ≡ hello)
    × HasStandard date_text 5 page_found.headers resp'.headers
write_standard_example =
    write_standard date_text page_found 5 refl hello_length refl refl page_found-IsPlain

abbrev go_on : Response
go_on = record {
  line = record { version = http11; code = 100; custom_message = none };
  headers = host_header ∷ [];
  body_chunked = false;
  body = record { type = body_none; roffset = 0; ptr = null };
  send_status = send_response_line;
}

go_on_written :
    http_response_write date_text go_on
    ≡ some (
      some (status_line go_on.line ++ (print_headers go_on.headers ++ crlf)),
      record go_on { send_status = send_body },
    )
go_on_written = write_continue date_text go_on refl refl

chunks_write-Chunked_example :
    (pieces : List Bytes) × (http_chunks_write (codes "hello") (codes "head")
      ≡ codes "head" ++ print_chunks pieces)
    × (concat pieces ≡ codes "hello")
    × All FitsChunk pieces
chunks_write-Chunked_example = chunks_write-Chunked (codes "hello") (codes "head")

abbrev short_page : Bytes
short_page = codes "<h1>{{title}}</h1>{{message}}"

short_page-ne : some short_page ≢ some []
short_page-ne e = ground (arith, e)
