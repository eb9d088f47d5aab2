-- ===== src/Http/Body/Memory.antt =====
-- The pointer of a body in src/http-body.c, through clearing, retyping and appending.
use khttp.Common.{
  ◌+◌, ◌-◌, ◌≡◌, ◌≢◌, ◌⊎◌, none, some, [], ◌++◌, arith, length, length-append, length-pos, take-all,
  Bytes,
}
use khttp.Http.Body.{
  Body, body_string, null, dangling, live, http_body_set_type, http_body_append_str, http_body_len,
}

-- Appending a text of the given length to a string body that is empty or holds a text succeeds,
-- returns the new length, which `http_body_len` reports too, and leaves the old text followed by
-- the new one.
pub append_str-append :
    (body : Body) (old str : Bytes)
    → body.type ≡ body_string
    → (body.ptr ≡ live old) ⊎ ((body.ptr ≡ null) × (old ≡ []))
    → str ≢ []
    → (http_body_append_str body str (length str)
        ≡ some (record body { ptr = live (old ++ str) }, length old + length str))
      × (http_body_len (record body { ptr = live (old ++ str) }) ≡ some (length old + length str))
unfolding http_body_append_str http_body_len
append_str-append body old str t p ne = ground (
  arith,
  length-append old str,
  length-pos str ne,
  take-all (length str + 1 + length old - 1) str,
)

-- `http_body_set_type` frees the data of a string body and leaves the pointer as it was, so an append
-- that follows uses freed memory.
pub append_str-set_type :
    (body : Body) (old str : Bytes)
    → body.type ≡ body_string
    → body.ptr ≡ live old
    → str ≢ []
    → (fresh : Body) × (http_body_set_type body body_string ≡ some fresh)
      × (http_body_append_str fresh str (length str) ≡ none)
unfolding http_body_append_str http_body_set_type
append_str-set_type body old str t p ne = (
  record body { roffset = 0; ptr = dangling; type = body_string },
  ground arith,
  ground (arith, length-pos str ne),
)
