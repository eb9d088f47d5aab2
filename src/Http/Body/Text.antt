-- ===== src/Http/Body/Text.antt =====
-- `http_body_writeto_str` of src/http-body.c. `none` is an access out of bounds or a failed assertion.
use khttp.Common.{
  ℕ, zero, suc, ◌+◌, ◌-◌, ◌%◌, ◌^◌, ◌<◌, ◌≡◌, refl, ap, ◌∙◌, Bool, false, Option, none, some, [],
  ◌++◌, arith, ltb, leb, ◌==◌, if◌then◌else◌, ◌>>=◌, length, take, drop, length-take, length-drop,
  Bytes,
}
use khttp.Http.Body.{
  Body, BodyType, body_none, body_string, body_filemap, body_file, WriteResult, hbwrite_done,
  hbwrite_more, hbwrite_error, fill_buffer, content_of, is_error, is_done,
}

-- `strncat` of at most `n` bytes behind a string in an allocation of so many bytes, which must hold the
-- terminator as well.
unfoldable pub strncat : ℕ → Bytes → Bytes → ℕ → Option Bytes
strncat capacity old src n =
    let out = old ++ take n src in if ltb (length out) capacity then some out else none

-- The allocation for `write_len` more bytes: no room is made for a terminator of a new string.
unfoldable pub capacity_for : Option Bytes → ℕ → ℕ
capacity_for none write_len = write_len
capacity_for (some old) write_len = length old + write_len + 1

abbrev old_text : Option Bytes → Bytes
old_text none = []
old_text (some old) = old

-- One round of the loop: the string, the offset, and the result.
unfoldable pub copy_round :
    BodyType → Bool → Bytes → ℕ → Option Bytes → Option (Bytes × ℕ × WriteResult)
unfolding strncat capacity_for fill_buffer
copy_round type broken content roffset str =
    let write_len = length content - roffset in
    let room = capacity_for str write_len in
    let memory =
      (strncat room (old_text str) (drop roffset content) write_len
        >>= (λ out. some (out, roffset + write_len, hbwrite_more))) in
    elim type [
      | body_none ↦ none
      | body_string ↦ memory
      | body_filemap ↦ memory
      | body_file ↦
          let (read, bytes) = fill_buffer broken content write_len roffset in
          let offset =
            (if length bytes == 0
              then (roffset + 2 ^ 64 - 1) % 2 ^ 64
              else roffset + length bytes) in
          strncat room (old_text str) bytes (length bytes) >>= (λ out. some (out, offset, read))
    ]

-- The loop; fuel bounds its rounds, of which each but the last takes a byte at least.
unfoldable pub copy_rounds :
    ℕ → BodyType → Bool → Bytes → ℕ → Option Bytes → Option (Option Bytes × ℕ × WriteResult)
unfolding copy_round
copy_rounds zero type broken content roffset str = some (str, roffset, hbwrite_more)
copy_rounds (suc fuel) type broken content roffset str =
    let on = λ (r : Bytes × ℕ × WriteResult).
      let (out, offset, result) = r in
      let more = copy_rounds fuel type broken content offset (some out) in
      if is_error result
      then some (some out, offset, hbwrite_error)
      else if is_done result
      then some (some out, offset, hbwrite_done)
      else more in
    if leb (length content) roffset
    then some (str, roffset, hbwrite_done)
    else (copy_round type broken content roffset str >>= on)

unfoldable pub http_body_writeto_str :
    Bool → Body → Option Bytes → Option (WriteResult × Body × Option Bytes)
unfolding copy_rounds
http_body_writeto_str broken body str = do
  content ← content_of body.type body.ptr
  (out, offset, result) ←
      copy_rounds (suc (length content)) body.type broken content body.roffset str
  some (result, record body { roffset = offset }, out)

strncat-overflows :
    (content : Bytes) (roffset : ℕ)
    → strncat (length content - roffset) [] (drop roffset content) (length content - roffset) ≡ none
unfolding strncat
strncat-overflows content roffset =
    let rest = drop roffset content in
    let whole : length (take (length content - roffset) rest) ≡ length content - roffset =
      omega (arith, length-take (length content - roffset) rest, length-drop roffset content) in
    ground (arith, whole)

rounds-overflow :
    (fuel : ℕ) (broken : Bool) (content : Bytes) (roffset : ℕ)
    → roffset < length content
    → copy_rounds (suc fuel) body_string broken content roffset none ≡ none
unfolding copy_rounds copy_round capacity_for
rounds-overflow fuel broken content roffset left =
    let fails : leb (length content) roffset ≡ false = ground (arith, left) in
    rw (fails, copy_rounds) (rw (strncat-overflows content roffset, copy_rounds) refl)

-- Into a string that is still NULL, `http_body_writeto_str` writes the terminator of a string body of
-- which something is left past the end of the allocation.
pub writeto_str_overflows :
    (broken : Bool) (body : Body) (content : Bytes)
    → body.type ≡ body_string
    → content_of body.type body.ptr ≡ some content
    → body.roffset < length content
    → http_body_writeto_str broken body none ≡ none
unfolding http_body_writeto_str
writeto_str_overflows broken body content string has left =
    let finish : Option Bytes × ℕ × WriteResult → Option (WriteResult × Body × Option Bytes) =
      λ r. some (r.2, record body { roffset = r.1 }, r.0) in
    ap
      (λ o.
        o >>= (λ c. copy_rounds (suc (length c)) body.type broken c body.roffset none >>= finish))
      has
    ∙ ap (λ ty. copy_rounds (suc (length content)) ty broken content body.roffset none >>= finish)
        string
    ∙ ap (λ o. o >>= finish) (rounds-overflow (length content) broken content body.roffset left)
