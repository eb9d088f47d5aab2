-- ===== src/Http/Builtin.antt =====
-- `http_response_create_builtin` of src/http.c: the responses that the server makes up by itself.
-- `page` is what `file_map_new("error.html")` maps, `none` if it returns NULL.
use khttp.Common.{
  ◌>>=◌, ℕ, ◌+◌, ◌-◌, ◌≡◌, refl, ◌≢◌, true, false, Option, none, some, [], ◌∷◌, ◌++◌, arith, leb,
  if◌then◌else◌, length, take, take-all, Bytes, codes, print_base,
}
use khttp.Util.Replace.{str_replace}
use khttp.Http.Header.{http_header_new, http_header_list_add}
use khttp.Http.Body.{
  BodyData, body_string, null, dangling, live, http_body_set_type, http_body_append_str,
}
use khttp.Http.Response.{
  Response, ResponseLine, send_response_line, header_content_type, http_response_new,
  http_response_line_new, http_response_line_get_message, http_response_append_body,
}

-- The title, cut off by `snprintf` at 1022 bytes.
pub title_of : ResponseLine → Bytes
title_of line = take 1022 (
    (if leb 400 line.code then codes "Error" else codes "Response Code")
    ++ (codes " "
        ++ (print_base 10 line.code ++ (codes " - " ++ http_response_line_get_message line))))

abbrev default_page : Bytes
default_page = codes "{{title}}\n\n{{message}}"

-- The three replacements.
pub fill_page : Bytes → Bytes → Bytes → Bytes
fill_page text title message =
    str_replace
      (str_replace (str_replace text (codes "{{title}}") title) (codes "{{body_title}}") title)
      (codes "{{message}}") message

-- `str_replace` measures its text first, which must not be NULL.
fill_body : BodyData → Bytes → Bytes → Option BodyData
unfolding fill_page
fill_body null title message = none
fill_body dangling title message = none
fill_body (live text) title message = some (live (fill_page text title message))

abbrev message_text : Option Bytes → Bytes
message_text none = []
message_text (some m) = m

with_page : Option Bytes → Response → Option Response
unfolding http_header_new http_header_list_add http_response_append_body
with_page (some text) resp = http_response_append_body resp text
with_page none resp = do
  filled ← http_response_append_body resp default_page
  hs ←
      http_header_list_add filled.headers
        (http_header_new header_content_type (some (codes "text/plain"))) true
  some (record filled { headers = hs })

unfoldable pub http_response_create_builtin : Option Bytes → ℕ → Option Bytes → Option Response
unfolding with_page fill_body title_of http_response_new http_body_set_type
http_response_create_builtin page code errmsg = do
  let fresh = http_response_new (http_response_line_new code)
  body ← http_body_set_type fresh.body body_string
  hs ←
      http_header_list_add fresh.headers
        (http_header_new header_content_type (some (codes "text/html"))) false
  resp ← with_page page (record fresh { body = body; headers = hs })
  ptr ← fill_body resp.body.ptr (title_of resp.line) (message_text errmsg)
  let filled = resp.body
  some (record resp { body = record filled { ptr = ptr } })

-- The page that is filled in, and its content type.
abbrev page_text : Option Bytes → Bytes
page_text none = default_page
page_text (some text) = text

abbrev page_type : Option Bytes → Bytes
page_type none = codes "text/plain"
page_type (some text) = codes "text/html"

-- Unless the error page is an empty file, `http_response_create_builtin` succeeds. The response has
-- the given code, HTTP/1.1, a Content-Type as its only header (plain text if there is no error
-- page), and as its body the page with the title put in for its two title marks and the
-- message for its message mark; nothing of it has been sent.
pub create_builtin_lem :
    (page : Option Bytes) (code : ℕ) (errmsg : Option Bytes)
    → page ≢ some []
    → http_response_create_builtin page code errmsg
      ≡ some (record {
        line = http_response_line_new code;
        headers = record { name = header_content_type; content = some (page_type page) } ∷ [];
        body_chunked = false;
        body = record {
          type = body_string;
          roffset = 0;
          ptr = live (
              fill_page
                (page_text page)
                (title_of (http_response_line_new code))
                (message_text errmsg));
        };
        send_status = send_response_line;
      })
unfolding http_response_create_builtin http_body_append_str
create_builtin_lem none code errmsg ne = refl
create_builtin_lem (some []) code errmsg ne = absurd (ne refl)
create_builtin_lem (some (c ∷ text)) code errmsg ne =
    ground (arith, take-all (length (c ∷ text) + 1 + 0 - 1) (c ∷ text))
