-- ===== src/Http/Body/Ready.antt =====
-- `http_body_writeto_fd` of src/http-body.c on a socket that is ready.
use Prim.Native.Nat.{min}
use khttp.Common.{
  ℕ, ◌+◌, ◌-◌, ◌≤◌, ◌≡◌, refl, sym, ap, ◌∙◌, ◌≢◌, false, ◌||◌, some, List, [], ◌∷◌, ◌++◌, arith,
  leb, ◌==◌, if_cases, some_inj, length, take, All, Bytes,
}
use khttp.Http.Body.{
  Body, BodyType, body_none, hbwrite_done, FdEvent, accepts, would_block, fails, FdRun, payload,
  is_error, is_done, write_loop, content_of, http_body_writeto_fd,
}
use khttp.Http.Body.Sending.{Ready, payload-more, payload-pos, writeto_fd_finishes}

-- At most one answer is spent for each of `n` bytes, and the others are still there.
pub record Spent (events : List FdEvent) (n : ℕ) (rest : List FdEvent) : Type 0 where
  pub ready : All Ready rest
  pub spent : length events ≤ length rest + n

write_loop-Spent :
    (es : List FdEvent) (type : BodyType) (content : Bytes) (roffset : ℕ) (sent : Bytes)
    → type ≢ body_none
    → All Ready es
    → Spent es (length content - roffset) (write_loop es type false content roffset sent).rest
unfolding write_loop
write_loop-Spent [] type content roffset sent ne ready =
    if_cases (λ (r : FdRun). Spent [] (length content - roffset) r.rest)
      (leb (length content) roffset) (λ h. record { ready = tt; spent = omega arith })
      (λ h. record { ready = tt; spent = omega arith })
write_loop-Spent (would_block ∷ es) type content roffset sent ne ready = absurd ready.0
write_loop-Spent (fails ∷ es) type content roffset sent ne ready = absurd ready.0
write_loop-Spent (accepts n ∷ es) type content roffset sent ne ready =
    let (read, bytes) = payload type false content roffset in
    let more = payload-more type content roffset in
    let w = min n (length bytes) in
    let next = write_loop-Spent es type content (roffset + w) (sent ++ take w bytes) ne ready.1 in
    let P : FdRun → Type 0 = λ r. Spent (accepts n ∷ es) (length content - roffset) r.rest in
    if_cases P (leb (length content) roffset) (λ h. record { ready = ready; spent = omega arith })
      (λ h.
        let pos = payload-pos type content roffset ne (ground (arith, h)) in
        if_cases P (is_error read || (length bytes == 0))
          (λ k. absurd (ground (arith, k, more, pos)))
          (λ k.
            if_cases P (is_done read) (λ j. absurd (ground (arith, j, more)))
              (λ j. record {
                ready = next.ready;
                spent = ground (arith, next.spent, pos, ready.0, h);
              })))

-- A body with data goes out as a whole when the socket is ready.
pub writeto_fd-Spent :
    (events : List FdEvent) (body : Body) (content : Bytes)
    → content_of body.type body.ptr ≡ some content
    → body.type ≢ body_none
    → All Ready events
    → length content ≤ body.roffset + length events
    → (body' : Body) × (run : FdRun) × (http_body_writeto_fd events false body ≡ some (body', run))
      × (run.result ≡ some hbwrite_done)
      × Spent events (length content - body.roffset) run.rest
unfolding http_body_writeto_fd
writeto_fd-Spent events body content has ne ready enough =
    let (body', run, made, done) = writeto_fd_finishes body content has events ne ready enough in
    let whole = write_loop events body.type false content body.roffset [] in
    let body1 = record body { roffset = whole.roffset } in
    let made1 : http_body_writeto_fd events false body ≡ some (body1, whole) =
      rw (has, http_body_writeto_fd) refl in
    let same : ◌≡◌ {A = Body × FdRun} (body1, whole) (body', run) = some_inj (sym made1 ∙ made) in
    (
      body1,
      whole,
      made1,
      ap (λ p. p.1.result) same ∙ done,
      write_loop-Spent events body.type content body.roffset [] ne ready,
    )
