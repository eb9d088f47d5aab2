-- ===== src/Http/Body.antt =====
-- Message bodies of src/http-body.c and src/http-body.h. The union of pointers is one field: a
-- string, a mapped file and an open file all stand for their bytes. `none` as a result of a
-- function is a failed assertion or a use of freed memory.
pub mod Sending
pub mod Memory
pub mod Ready
pub mod Text
use Prim.Native.Nat.{min}
use khttp.Common.{
  ℕ, zero, suc, ◌+◌, ◌-◌, ◌*◌, Bool, true, false, not, ◌||◌, Option, none, some, List, [], ◌∷◌,
  ◌++◌, ltb, leb, ◌==◌, if◌then◌else◌, length, take, drop, Bytes,
}

pub data BodyType : Type 0 where
  body_none body_string body_filemap body_file : BodyType

pub data WriteResult : Type 0 where
  hbwrite_done hbwrite_more hbwrite_blocked hbwrite_error : WriteResult

-- The pointer of the union: NULL, good for its bytes, or freed.
pub data BodyData : Type 0 where
  null dangling : BodyData
  live : Bytes → BodyData

pub record Body : Type 0 where
  pub type : BodyType
  pub roffset : ℕ
  pub ptr : BodyData

-- BODY_NONE ignores the pointer, which `calloc` left NULL.
unfoldable pub http_body_new : BodyType → BodyData → Body
http_body_new type ptr = record {
  type = type;
  roffset = 0;
  ptr = elim type [ body_none ↦ null | _ ↦ ptr ];
}

-- The pointer keeps its value when what it points at is freed.
free_data : BodyData → Option BodyData
free_data null = some null
free_data dangling = none
free_data (live c) = some dangling

clear_data : BodyType → BodyData → Option BodyData
unfolding free_data
clear_data body_none ptr = some ptr
clear_data body_string ptr = free_data ptr
clear_data body_filemap ptr = free_data ptr
clear_data body_file ptr = free_data ptr

unfoldable pub http_body_clear : Body → Option Body
unfolding clear_data
http_body_clear body = elim (clear_data body.type body.ptr) [
  | none ↦ none
  | some ptr ↦ some (record body { roffset = 0; ptr = ptr })
]

unfoldable pub http_body_set_type : Body → BodyType → Option Body
unfolding http_body_clear
http_body_set_type body newtype = elim (http_body_clear body) [
  | none ↦ none
  | some cleared ↦ some (record cleared { type = newtype })
]

-- `strncat` of `str` behind `old` into a buffer of `new_len` bytes, which must hold the terminator.
append_data : Bytes → Bytes → ℕ → Option (BodyData × ℕ)
append_data old str str_len =
    let new_len = str_len + 1 + length old in
    let out = old ++ take (new_len - 1) str in
    if ltb (length out) new_len then some (live out, new_len - 1) else none

append_to : BodyData → Bytes → ℕ → Option (BodyData × ℕ)
unfolding append_data
append_to null str str_len = append_data [] str str_len
append_to dangling str str_len = none
append_to (live old) str str_len = append_data old str str_len

abbrev is_string : BodyType → Bool
is_string body_string = true
is_string body_none = false
is_string body_filemap = false
is_string body_file = false

unfoldable pub http_body_append_str : Body → Bytes → ℕ → Option (Body × ℕ)
unfolding append_to
http_body_append_str body str str_len =
    if not (is_string body.type)
    then none
    else if str_len == 0
    then some (body, 0)
    else (elim (append_to body.ptr str str_len) [
      | none ↦ none
      | some (ptr, n) ↦ some (record body { ptr = ptr }, n)
    ])

data_len : BodyData → Option ℕ
data_len null = some 0
data_len dangling = none
data_len (live c) = some (length c)

unfoldable pub http_body_len : Body → Option ℕ
unfolding data_len
http_body_len body = elim body.type [ body_none ↦ some 0 | _ ↦ data_len body.ptr ]

abbrev pub buffer_len : ℕ
buffer_len = 16 * 1024

-- `_http_body_file_fill_buffer` on a file with these bytes; `broken` says that its reads fail.
unfoldable pub fill_buffer : Bool → Bytes → ℕ → ℕ → WriteResult × Bytes
fill_buffer broken content read_len offset =
    let want = min read_len buffer_len in
    let got = (if broken then [] else take want (drop offset content)) in
    if ltb (length got) want
    then (if broken then (hbwrite_error, []) else (hbwrite_done, got))
    else (hbwrite_more, got)

-- What write(2) answers: how many bytes it is ready to take, EAGAIN, or another error.
pub data FdEvent : Type 0 where
  accepts : ℕ → FdEvent
  would_block fails : FdEvent

-- A run of the loop of `http_body_writeto_fd`: its result (`none` if it still waits for an answer),
-- the offset, what went out, and the answers that are left.
pub record FdRun : Type 0 where
  pub result : Option WriteResult
  pub roffset : ℕ
  pub sent : Bytes
  pub rest : List FdEvent

-- What one round hands to write(2), and what the read of it says.
pub payload : BodyType → Bool → Bytes → ℕ → WriteResult × Bytes
unfolding fill_buffer
payload body_none broken content roffset = (hbwrite_more, [])
payload body_string broken content roffset = (hbwrite_more, drop roffset content)
payload body_filemap broken content roffset = (hbwrite_more, drop roffset content)
payload body_file broken content roffset =
    fill_buffer broken content (length content - roffset) roffset

abbrev is_error : WriteResult → Bool
is_error hbwrite_error = true
is_error hbwrite_done = false
is_error hbwrite_more = false
is_error hbwrite_blocked = false

abbrev is_done : WriteResult → Bool
is_done hbwrite_done = true
is_done hbwrite_error = false
is_done hbwrite_more = false
is_done hbwrite_blocked = false

abbrev pub stop : WriteResult → ℕ → Bytes → List FdEvent → FdRun
stop r roffset sent rest = record { result = some r; roffset = roffset; sent = sent; rest = rest }

-- A read that gives nothing leaves `written` at -1, which counts as an error.
pub write_loop : List FdEvent → BodyType → Bool → Bytes → ℕ → Bytes → FdRun
unfolding payload
write_loop [] type broken content roffset sent =
    if leb (length content) roffset
    then stop hbwrite_done roffset sent []
    else record { result = none; roffset = roffset; sent = sent; rest = [] }
write_loop (e ∷ es) type broken content roffset sent =
    let (read, bytes) = payload type broken content roffset in
    let after_write = λ (n : ℕ).
      let w = min n (length bytes) in
      let sent' = sent ++ take w bytes in
      let more = write_loop es type broken content (roffset + w) sent' in
      if is_done read then stop hbwrite_done (roffset + w) sent' es else more in
    if leb (length content) roffset
    then stop hbwrite_done roffset sent (e ∷ es)
    else if is_error read || (length bytes == 0)
    then stop hbwrite_error roffset sent (e ∷ es)
    else (elim e [
      | accepts n ↦ after_write n
      | would_block ↦ stop hbwrite_blocked roffset sent es
      | fails ↦ stop hbwrite_error roffset sent es
    ])

-- The content that the loop walks over; BODY_NONE has none, and NULL fails the assertion.
unfoldable pub content_of : BodyType → BodyData → Option Bytes
content_of body_none ptr = some []
content_of body_string null = none
content_of body_string dangling = none
content_of body_string (live c) = some c
content_of body_filemap null = none
content_of body_filemap dangling = none
content_of body_filemap (live c) = some c
content_of body_file null = none
content_of body_file dangling = none
content_of body_file (live c) = some c

unfoldable pub http_body_writeto_fd : List FdEvent → Bool → Body → Option (Body × FdRun)
unfolding write_loop content_of
http_body_writeto_fd events broken body = elim (content_of body.type body.ptr) [
  | none ↦ none
  | some content ↦
      let run = write_loop events body.type broken content body.roffset [] in
      some (record body { roffset = run.roffset }, run)
]

-- `http_body_writeto_utstring` copies the source from its start, not from the offset; fuel bounds
-- the rounds over a file.
pub copy_file : ℕ → Bool → Bytes → ℕ → Bytes → WriteResult × ℕ × Bytes
unfolding fill_buffer
copy_file zero broken content roffset out = (hbwrite_more, roffset, out)
copy_file (suc f) broken content roffset out =
    let (read, bytes) = fill_buffer broken content (length content - roffset) roffset in
    let more = copy_file f broken content (roffset + length bytes) (out ++ bytes) in
    if leb (length content) roffset
    then (hbwrite_done, roffset, out)
    else if is_error read
    then (hbwrite_error, roffset - 1, out)
    else if is_done read
    then (hbwrite_done, roffset + length bytes, out ++ bytes)
    else more

abbrev copy_memory : Bytes → ℕ → Bytes → WriteResult × ℕ × Bytes
copy_memory content roffset out =
    if leb (length content) roffset
    then (hbwrite_done, roffset, out)
    else (hbwrite_done, length content, out ++ take (length content - roffset) content)

copy_body : BodyType → Bool → Bytes → ℕ → Bytes → WriteResult × ℕ × Bytes
unfolding copy_file
copy_body body_none broken content roffset out = (hbwrite_done, roffset, out)
copy_body body_string broken content roffset out = copy_memory content roffset out
copy_body body_filemap broken content roffset out = copy_memory content roffset out
copy_body body_file broken content roffset out =
    copy_file (length content + 1) broken content roffset out

unfoldable pub http_body_writeto_utstring :
    Bool → Body → Bytes → Option (WriteResult × Body × Bytes)
unfolding copy_body content_of
http_body_writeto_utstring broken body out = elim (content_of body.type body.ptr) [
  | none ↦ none
  | some content ↦
      let (r, roffset, out') = copy_body body.type broken content body.roffset out in
      some (r, record body { roffset = roffset }, out')
]
