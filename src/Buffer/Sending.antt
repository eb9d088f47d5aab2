-- ===== src/Buffer/Sending.antt =====
-- What `data_buffer_list_writeto_fd` of src/data-buffer.c sends.
use khttp.Common.{
  ℕ, ◌+◌, ◌≤◌, ◌≡◌, refl, sym, ap, ◌∙◌, inl, inr, Bool, Option, none, some, List, [], ◌∷◌, ◌++◌,
  append-nil, append_assoc, arith, leb, if◌then◌else◌, Bool-cases, length, take, drop,
  length-append, take-append-drop, length-take, drop-drop, drop-all, Bytes,
}
use khttp.Http.Body.{FdEvent, accepts, would_block, fails}
use khttp.Buffer.{
  DataBuffer, DataBufferList, drain, WriteRun, run_end, write_list, data_buffer_list_writeto_fd,
}
use khttp.Buffer.Append.{waiting}

-- What a run that started with `bs` to send, `result` counted and `sent` gone out, comes to.
record Continues (bs : List DataBuffer) (result : ℕ) (sent : Bytes) (run : WriteRun) : Type 0 where
  kept : run.sent ++ waiting run.buffers ≡ sent ++ waiting bs
  counted :
      (n : ℕ)
      → run.result ≡ some (some n)
      → (run.buffers ≡ []) × (n + length sent ≡ result + length run.sent)

everything :
    {bs : List DataBuffer} (run : WriteRun) (n : ℕ)
    → run.result ≡ some (some n)
    → Continues bs 0 [] run
    → (run.buffers ≡ []) × (n ≡ length (waiting bs))
everything {bs} run n here go =
    let (empty, count) = go.counted n here in
    let all : run.sent ≡ waiting bs =
      sym (append-nil run.sent) ∙ ap (λ ds. run.sent ++ waiting ds) (sym empty) ∙ go.kept in
    (empty, omega (arith, count, ap length all))

pub waiting-drain : (bs : List DataBuffer) → waiting (drain bs) ≡ waiting bs
unfolding drain
waiting-drain [] = refl
waiting-drain (b ∷ bs) = elim (Bool-cases (leb (length b.buffer) b.roffset)) [
  | inl e ↦ rw e (rw (drop-all b.roffset b.buffer (ground (arith, e))) (waiting-drain bs))
  | inr e ↦ rw e refl
]

pub data Drained (bs : List DataBuffer) : Type 0 where
  all_sent : drain bs ≡ [] → Drained bs
  some_left : (b : DataBuffer) (ds : List DataBuffer) → drain bs ≡ b ∷ ds → Drained bs

pub drain-cases : (bs : List DataBuffer) → Drained bs
drain-cases bs = at (drain bs) refl
  where
    at : (ds : List DataBuffer) → drain bs ≡ ds → Drained bs
    at [] e = all_sent e
    at (b ∷ ds) e = some_left b ds e

stopped :
    (bs ds : List DataBuffer) (result : ℕ) (sent : Bytes) (r : Option (Option ℕ)) (blocked : Bool)
    (rest : List FdEvent)
    → drain bs ≡ ds
    → (r ≡ some (some result) → ds ≡ [])
    → ((n : ℕ) → r ≡ some (some n) → n ≡ result)
    → Continues bs result sent (run_end r blocked ds sent rest)
stopped bs ds result sent r blocked rest e done same = record {
  kept = ap (λ w. sent ++ w) (ap waiting (sym e) ∙ waiting-drain bs);
  counted =
      λ n here. (done (here ∙ ap (λ k. some (some k)) (same n here)), omega (arith, same n here));
}

-- One write: of the buffer in front, `w` bytes go out.
written :
    (b : DataBuffer) (bs ds : List DataBuffer) (w result : ℕ) (sent : Bytes) (run : WriteRun)
    → drain bs ≡ b ∷ ds
    → w ≤ length (drop b.roffset b.buffer)
    → Continues
        (record b { roffset = b.roffset + w } ∷ ds)
        (result + w)
        (sent ++ take w (drop b.roffset b.buffer))
        run
    → Continues bs result sent run
written b bs ds w result sent run e fits next =
    let unsent = drop b.roffset b.buffer in
    let parts : take w unsent ++ drop (b.roffset + w) b.buffer ≡ unsent =
      rw⁻¹ (drop-drop w b.roffset b.buffer) (take-append-drop w unsent) in
    record {
      kept =
          next.kept
          ∙ append_assoc sent (take w unsent) (drop (b.roffset + w) b.buffer ++ waiting ds)
          ∙ ap (λ t. sent ++ t)
              (sym (append_assoc (take w unsent) (drop (b.roffset + w) b.buffer) (waiting ds))
                ∙ ap (λ t. t ++ waiting ds) parts
                ∙ ap waiting (sym e)
                ∙ waiting-drain bs);
      counted = λ n here.
          let (empty, count) = next.counted n here in
          (empty, omega (arith, count, length-append sent (take w unsent), length-take w unsent));
    }

write_list-Continues :
    (events : List FdEvent) (bs : List DataBuffer) (result : ℕ) (sent : Bytes)
    → Continues bs result sent (write_list events bs result sent)
unfolding write_list
write_list-Continues [] bs result sent = elim (drain-cases bs) [
  | all_sent e ↦ rw (e, write_list) (stopped bs [] result sent _ _ _ e (λ h. refl) (λ n h. cc))
  | some_left b ds e ↦
      rw (e, write_list)
        (stopped bs (b ∷ ds) result sent none _ _ e (λ h. absurd (ground (arith, h)))
          (λ n h. absurd (ground (arith, h))))
]
write_list-Continues (would_block ∷ es) bs result sent = elim (drain-cases bs) [
  | all_sent e ↦ rw (e, write_list) (stopped bs [] result sent _ _ _ e (λ h. refl) (λ n h. cc))
  | some_left b ds e ↦
      rw (e, write_list)
        (stopped bs (b ∷ ds) result sent (some none) _ _ e (λ h. absurd (ground (arith, h)))
          (λ n h. absurd (ground (arith, h))))
]
write_list-Continues (fails ∷ es) bs result sent = elim (drain-cases bs) [
  | all_sent e ↦ rw (e, write_list) (stopped bs [] result sent _ _ _ e (λ h. refl) (λ n h. cc))
  | some_left b ds e ↦
      rw (e, write_list)
        (stopped bs (b ∷ ds) result sent (some none) _ _ e (λ h. absurd (ground (arith, h)))
          (λ n h. absurd (ground (arith, h))))
]
write_list-Continues (accepts k ∷ es) bs result sent = elim (drain-cases bs) [
  | all_sent e ↦ rw (e, write_list) (stopped bs [] result sent _ _ _ e (λ h. refl) (λ n h. cc))
  | some_left b ds e ↦
      let unsent = drop b.roffset b.buffer in
      let w = (if leb k (length unsent) then k else length unsent) in
      rw (e, write_list)
        (written b bs ds w result sent _ e (ground arith) (
          write_list-Continues es (record b { roffset = b.roffset + w } ∷ ds) (result + w)
            (sent ++ take w unsent)))
]

-- Whatever the socket answers, a call on a list that ends in NULL sends a stretch from the front of
-- what waits: what it sent and what waits afterwards make up what waited before. If it returns a
-- count and not -1, everything has been sent, no buffer is left, and the count is the number of bytes
-- sent.
pub list_writeto_fd_sends :
    (events : List FdEvent) (list : DataBufferList)
    → list.back ≡ none
    → (run : WriteRun) × (data_buffer_list_writeto_fd events list ≡ some run)
      × (run.sent ++ waiting run.buffers ≡ waiting list.buffers)
      × ((n : ℕ)
          → run.result ≡ some (some n)
          → (run.buffers ≡ []) × (n ≡ length (waiting list.buffers)))
unfolding data_buffer_list_writeto_fd
list_writeto_fd_sends events list ends =
    let run = write_list events list.buffers 0 [] in
    let go = write_list-Continues events list.buffers 0 [] in
    (run, ground (arith, ends), go.kept, λ n here. everything run n here go)
