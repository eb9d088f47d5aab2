-- ===== src/Buffer/Ready.antt =====
-- `data_buffer_list_writeto_fd` of src/data-buffer.c on a socket that is ready.
use khttp.Common.{
  ℕ, ◌+◌, ◌≤◌, ◌<◌, ◌≡◌, refl, sym, ap, ◌∙◌, inl, inr, none, some, List, [], ◌∷◌, ◌++◌, arith, leb,
  if◌then◌else◌, Bool-cases, length, take, drop, All, length-append, length-drop, Bytes,
}
use mathlib.Core.Path.{subst}
use khttp.Http.Body.{FdEvent, accepts, would_block, fails}
use khttp.Http.Body.Sending.{Ready}
use khttp.Buffer.{
  DataBuffer, DataBufferList, drain, WriteRun, write_list, data_buffer_list_writeto_fd,
}
use khttp.Buffer.Append.{waiting}
use khttp.Buffer.Sending.{all_sent, some_left, drain-cases, waiting-drain}

-- Everything has gone out, at the cost of one answer a byte at most.
pub record Emptied (events : List FdEvent) (n : ℕ) (run : WriteRun) : Type 0 where
  pub counted : (k : ℕ) × (run.result ≡ some (some k))
  pub empty : run.buffers ≡ []
  pub ready : All Ready run.rest
  pub spent : length events ≤ length run.rest + n

head_or {ℓ} : {A : Type ℓ} → A → List A → A
head_or a [] = a
head_or a (x ∷ xs) = x

drain-pos :
    (bs : List DataBuffer) {b : DataBuffer} {ds : List DataBuffer}
    → drain bs ≡ b ∷ ds
    → 0 < length (drop b.roffset b.buffer)
unfolding drain head_or
drain-pos [] e = absurd (ground (arith, e))
drain-pos (c ∷ cs) {b} {ds} e = elim (Bool-cases (leb (length c.buffer) c.roffset)) [
  | inl k ↦ drain-pos cs (sym (ap (λ t. if t then drain cs else c ∷ cs) k) ∙ e)
  | inr k ↦
      let first : c ∷ cs ≡ b ∷ ds = sym (ap (λ t. if t then drain cs else c ∷ cs) k) ∙ e in
      let here : 0 < length (drop c.roffset c.buffer) =
        ground (arith, k, length-drop c.roffset c.buffer) in
      subst (λ (x : DataBuffer). 0 < length (drop x.roffset x.buffer)) (ap (head_or c) first) here
]

-- One write of a ready socket sends at least a byte.
one_write :
    (k : ℕ) (bs ds : List DataBuffer) (b : DataBuffer)
    → drain bs ≡ b ∷ ds
    → 0 < k
    → length (
          waiting (
            record b {
              roffset =
                  b.roffset
                  + (if leb k (length (drop b.roffset b.buffer))
                      then k
                      else length (drop b.roffset b.buffer));
            }
            ∷ ds))
        + 1
      ≤ length (waiting bs)
one_write k bs ds b e pos =
    let unsent = drop b.roffset b.buffer in
    let w = (if leb k (length unsent) then k else length unsent) in
    let later = drop (b.roffset + w) b.buffer in
    let all : length (waiting bs) ≡ length unsent + length (waiting ds) =
      ap length (sym (waiting-drain bs) ∙ ap waiting e) ∙ length-append unsent (waiting ds) in
    ground (
      arith,
      all,
      length-append later (waiting ds),
      length-drop (b.roffset + w) b.buffer,
      length-drop b.roffset b.buffer,
      drain-pos bs e,
      pos,
    )

write_list-Emptied :
    (events : List FdEvent) (bs : List DataBuffer) (result : ℕ) (sent : Bytes)
    → All Ready events
    → length (waiting bs) ≤ length events
    → Emptied events (length (waiting bs)) (write_list events bs result sent)
unfolding write_list
write_list-Emptied [] bs result sent ready enough = elim (drain-cases bs) [
  | all_sent e ↦
      rw (e, write_list)
        (record { counted = (result, refl); empty = refl; ready = tt; spent = omega arith })
  | some_left b ds e ↦
      let all : length (waiting bs) ≡ length (drop b.roffset b.buffer) + length (waiting ds) =
        ap length (sym (waiting-drain bs) ∙ ap waiting e)
        ∙ length-append (drop b.roffset b.buffer) (waiting ds) in
      absurd (omega (arith, all, drain-pos bs e, enough))
]
write_list-Emptied (would_block ∷ es) bs result sent ready enough = absurd ready.0
write_list-Emptied (fails ∷ es) bs result sent ready enough = absurd ready.0
write_list-Emptied (accepts k ∷ es) bs result sent ready enough = elim (drain-cases bs) [
  | all_sent e ↦
      rw (e, write_list)
        (record { counted = (result, refl); empty = refl; ready = ready; spent = omega arith })
  | some_left b ds e ↦
      let unsent = drop b.roffset b.buffer in
      let w = (if leb k (length unsent) then k else length unsent) in
      let left = record b { roffset = b.roffset + w } ∷ ds in
      let less = one_write k bs ds b e ready.0 in
      let next =
        write_list-Emptied es left (result + w) (sent ++ take w unsent) ready.1
          (omega (arith, less, enough)) in
      let spent : length (accepts k ∷ es)
          ≤ length (write_list es left (result + w) (sent ++ take w unsent)).rest
            + length (waiting bs) =
        omega (arith, next.spent, less) in
      rw (e, write_list)
        (record { counted = next.counted; empty = next.empty; ready = next.ready; spent = spent })
]

-- A list that ends in NULL is emptied when the socket is ready for as many writes as bytes wait.
pub list_writeto_fd-Emptied :
    (events : List FdEvent) (list : DataBufferList)
    → list.back ≡ none
    → All Ready events
    → length (waiting list.buffers) ≤ length events
    → (run : WriteRun) × (data_buffer_list_writeto_fd events list ≡ some run)
      × Emptied events (length (waiting list.buffers)) run
unfolding data_buffer_list_writeto_fd
list_writeto_fd-Emptied events list ends ready enough = (
  write_list events list.buffers 0 [],
  ground (arith, ends),
  write_list-Emptied events list.buffers 0 [] ready enough,
)
