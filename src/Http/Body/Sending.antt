-- ===== src/Http/Body/Sending.antt =====
-- `http_body_writeto_fd` of src/http-body.c sends the body, whatever the socket answers.
use Prim.Native.Nat.{min}
use khttp.Common.{
  ℕ, ◌+◌, ◌-◌, ◌≤◌, ◌<◌, ◌≡◌, refl, ◌≢◌, Bool, false, some, List, [], ◌∷◌, ◌++◌, append-nil,
  append_assoc, arith, length, take, drop, All, take-append-drop, length-take, drop-drop,
  take-take-append-drop, length-drop, drop-all, Bytes,
}
use khttp.Http.Body.{
  Body, http_body_writeto_fd, content_of, BodyType, body_none, body_string, body_filemap, body_file,
  hbwrite_done, hbwrite_more, FdEvent, accepts, would_block, fails, FdRun, payload, write_loop,
  fill_buffer, buffer_len,
}

min-le : (a b : ℕ) → (min a b ≤ a) × (min a b ≤ b)
min-le a b = omega arith

split_here :
    (w roffset : ℕ) (content : Bytes)
    → take w (drop roffset content) ++ drop (roffset + w) content ≡ drop roffset content
split_here w roffset content =
    rw (← drop-drop w roffset content) (take-append-drop w (drop roffset content))

fill_buffer-split :
    (broken : Bool) (content : Bytes) (n roffset w : ℕ)
    → w ≤ length (fill_buffer broken content n roffset).1
    → take w (fill_buffer broken content n roffset).1 ++ drop (roffset + w) content
      ≡ drop roffset content
unfolding fill_buffer
fill_buffer-split broken content n roffset w h = ground (
  arith,
  take-take-append-drop w (min n buffer_len) (drop roffset content),
  drop-drop w roffset content,
  length-take (min n buffer_len) (drop roffset content),
  split_here 0 roffset content,
)

payload-split :
    (type : BodyType) (broken : Bool) (content : Bytes) (roffset w : ℕ)
    → w ≤ length (payload type broken content roffset).1
    → take w (payload type broken content roffset).1 ++ drop (roffset + w) content
      ≡ drop roffset content
unfolding payload
payload-split body_none broken content roffset w h = ground (arith, split_here 0 roffset content)
payload-split body_string broken content roffset w h = split_here w roffset content
payload-split body_filemap broken content roffset w h = split_here w roffset content
payload-split body_file broken content roffset w h =
    fill_buffer-split broken content (length content - roffset) roffset w h

-- What is out and what is left to send make up the same text all along.
write_loop-keeps :
    (es : List FdEvent) (type : BodyType) (broken : Bool) (content : Bytes) (roffset : ℕ)
    (sent : Bytes)
    → (write_loop es type broken content roffset sent).sent
        ++ drop (write_loop es type broken content roffset sent).roffset content
      ≡ sent ++ drop roffset content
unfolding write_loop
write_loop-keeps [] type broken content roffset sent = ground arith
write_loop-keeps (would_block ∷ es) type broken content roffset sent = ground arith
write_loop-keeps (fails ∷ es) type broken content roffset sent = ground arith
write_loop-keeps (accepts n ∷ es) type broken content roffset sent =
    let bytes = (payload type broken content roffset).1 in
    let w = min n (length bytes) in
    ground (
      arith,
      payload-split type broken content roffset w (min-le n (length bytes)).1,
      append_assoc sent (take w bytes) (drop (roffset + w) content),
      write_loop-keeps es type broken content (roffset + w) (sent ++ take w bytes),
    )

-- A read of a file that can be read is never short.
pub payload-more :
    (type : BodyType) (content : Bytes) (roffset : ℕ)
    → (payload type false content roffset).0 ≡ hbwrite_more
unfolding payload fill_buffer
payload-more body_none content roffset = refl
payload-more body_string content roffset = refl
payload-more body_filemap content roffset = refl
payload-more body_file content roffset = ground (
  arith,
  length-take (min (length content - roffset) buffer_len) (drop roffset content),
  length-drop roffset content,
)

write_loop-done :
    (es : List FdEvent) (type : BodyType) (content : Bytes) (roffset : ℕ) (sent : Bytes)
    → (write_loop es type false content roffset sent).result ≡ some hbwrite_done
    → length content ≤ (write_loop es type false content roffset sent).roffset
unfolding write_loop
write_loop-done [] type content roffset sent e = ground arith
write_loop-done (would_block ∷ es) type content roffset sent e =
    ground (arith, payload-more type content roffset)
write_loop-done (fails ∷ es) type content roffset sent e =
    ground (arith, payload-more type content roffset)
write_loop-done (accepts n ∷ es) type content roffset sent e =
    let bytes = (payload type false content roffset).1 in
    let w = min n (length bytes) in
    ground (
      arith,
      payload-more type content roffset,
      write_loop-done es type content (roffset + w) (sent ++ take w bytes),
    )

pub payload-pos :
    (type : BodyType) (content : Bytes) (roffset : ℕ)
    → type ≢ body_none
    → roffset < length content
    → 0 < length (payload type false content roffset).1
unfolding payload fill_buffer
payload-pos body_none content roffset ne h = absurd (ne refl)
payload-pos body_string content roffset ne h = omega (arith, length-drop roffset content)
payload-pos body_filemap content roffset ne h = omega (arith, length-drop roffset content)
payload-pos body_file content roffset ne h = ground (
  arith,
  length-take (min (length content - roffset) buffer_len) (drop roffset content),
  length-drop roffset content,
)

-- The socket takes at least one byte.
abbrev pub Ready : FdEvent → Type 0
Ready (accepts n) = 0 < n
Ready would_block = ⊥
Ready fails = ⊥

write_loop-finishes :
    (es : List FdEvent) (type : BodyType) (content : Bytes) (roffset : ℕ) (sent : Bytes)
    → type ≢ body_none
    → All Ready es
    → length content ≤ roffset + length es
    → (write_loop es type false content roffset sent).result ≡ some hbwrite_done
unfolding write_loop
write_loop-finishes [] type content roffset sent ne ready h = ground arith
write_loop-finishes (would_block ∷ es) type content roffset sent ne ready h = absurd ready.0
write_loop-finishes (fails ∷ es) type content roffset sent ne ready h = absurd ready.0
write_loop-finishes (accepts n ∷ es) type content roffset sent ne ready h =
    let bytes = (payload type false content roffset).1 in
    let w = min n (length bytes) in
    ground (
      arith,
      payload-more type content roffset,
      payload-pos type content roffset ne,
      write_loop-finishes es type content (roffset + w) (sent ++ take w bytes) ne ready.1,
    )

module _ (body : Body) (content : Bytes) (has : content_of body.type body.ptr ≡ some content) where
  -- Whatever the socket and the disk answer, `http_body_writeto_fd` on a body with data runs without
  -- a fault, keeps the body's type and data, and sends a stretch of the content that starts at the
  -- offset it found and ends at the offset it leaves: what it sent and what is then left to send
  -- make up what was left before.
  pub writeto_fd_sends :
      (events : List FdEvent) (broken : Bool)
      → (body' : Body) × (run : FdRun) × (http_body_writeto_fd events broken body
          ≡ some (body', run))
        × (body'.type ≡ body.type)
        × (body'.ptr ≡ body.ptr)
        × (run.sent ++ drop body'.roffset content ≡ drop body.roffset content)
  unfolding http_body_writeto_fd
  writeto_fd_sends events broken = (
    record body { roffset = (write_loop events body.type broken content body.roffset []).roffset },
    write_loop events body.type broken content body.roffset [],
    rw (has, http_body_writeto_fd),
    refl,
    refl,
    write_loop-keeps events body.type broken content body.roffset [],
  )

  -- When every read of the file succeeds, a result of HBWRITE_DONE means that all that was left has
  -- been sent.
  pub writeto_fd_done :
      (events : List FdEvent) {body' : Body} {run : FdRun}
      → http_body_writeto_fd events false body ≡ some (body', run)
      → run.result ≡ some hbwrite_done
      → run.sent ≡ drop body.roffset content
  unfolding http_body_writeto_fd
  writeto_fd_done events e done =
      let r = write_loop events body.type false content body.roffset [] in
      ground (
        arith,
        has,
        write_loop-keeps events body.type false content body.roffset [],
        write_loop-done events body.type content body.roffset [],
        drop-all r.roffset content,
        append-nil r.sent,
      )

  -- With as many answers as there are bytes left, each ready to take at least one byte, and reads
  -- that succeed, the call returns HBWRITE_DONE.
  pub writeto_fd_finishes :
      (events : List FdEvent)
      → body.type ≢ body_none
      → All Ready events
      → length content ≤ body.roffset + length events
      → (body' : Body) × (run : FdRun) × (http_body_writeto_fd events false body
          ≡ some (body', run))
        × (run.result ≡ some hbwrite_done)
  unfolding http_body_writeto_fd
  writeto_fd_finishes events ne ready enough = (
    record body { roffset = (write_loop events body.type false content body.roffset []).roffset },
    write_loop events body.type false content body.roffset [],
    rw (has, http_body_writeto_fd),
    write_loop-finishes events body.type content body.roffset [] ne ready enough,
  )
