-- ===== src/Loop/Write/Flush.antt =====
-- The writing of the buffers in the loop of src/server-loop-write.c keeps the text.
use khttp.Common.{
  ℕ, ◌≡◌, refl, sym, ap, ◌∙◌, inl, inr, Option, none, some, ◌++◌, append_assoc, arith, Bool-cases,
  is_empty, ◌>>=◌, bind_inv, some_inj, Bytes,
}
use mathlib.Core.Path.{subst}
use khttp.Buffer.{WriteRun, data_buffer_list_writeto_fd}
use khttp.Buffer.Append.{waiting}
use khttp.Buffer.Sending.{list_writeto_fd_sends}
use khttp.Loop.Write.{Sending, flush, after_flush, set_error}
use khttp.Loop.Write.Outstanding.{outstanding, unsent, Keeps, keeps_self}

pub record Flushed (date : Bytes) (s s' : Sending) : Type 0 where
  pub keeps : Keeps date s s'
  pub ends : s'.conn.pending_writes.back ≡ none
  pub same : s'.conn.pending_responses ≡ s.conn.pending_responses

flush_text :
    (date : Bytes) (s : Sending) (run : WriteRun)
    → run.sent ++ waiting run.buffers ≡ waiting s.conn.pending_writes.buffers
    → (s.sent ++ run.sent) ++ (waiting run.buffers ++ unsent date s.conn.pending_responses)
      ≡ s.sent ++ outstanding date s.conn
flush_text date s run split =
    append_assoc s.sent run.sent _
    ∙ ap (λ t. s.sent ++ t)
        (sym (append_assoc run.sent (waiting run.buffers) (unsent date s.conn.pending_responses))
          ∙ ap (λ t. t ++ unsent date s.conn.pending_responses) split)

after_flush-Flushed :
    (date : Bytes) (s : Sending) (run : WriteRun) (result : Option (Option ℕ))
    → run.result ≡ result
    → run.sent ++ waiting run.buffers ≡ waiting s.conn.pending_writes.buffers
    → Flushed date s (after_flush s run)
unfolding after_flush set_error
after_flush-Flushed date s run none e split =
    rw (e, after_flush)
      (record {
        keeps = record { fine = λ h. h; text = λ h. flush_text date s run split };
        ends = refl;
        same = refl;
      })
after_flush-Flushed date s run (some (some n)) e split =
    rw (e, after_flush)
      (record {
        keeps = record { fine = λ h. h; text = λ h. flush_text date s run split };
        ends = refl;
        same = refl;
      })
after_flush-Flushed date s run (some none) e split =
    rw (e, after_flush)
      (elim (Bool-cases run.blocked) [
        | inl b ↦
            rw (b, after_flush)
              (record {
                keeps = record { fine = λ h. h; text = λ h. flush_text date s run split };
                ends = refl;
                same = refl;
              })
        | inr b ↦
            rw (b, after_flush)
              (record {
                keeps = record {
                  fine = λ h. absurd (ground (arith, h));
                  text = λ h. absurd (ground (arith, h));
                };
                ends = refl;
                same = refl;
              })
      ])

pub flush-Flushed :
    (date : Bytes) (s : Sending) {s' : Sending}
    → s.conn.pending_writes.back ≡ none
    → flush s ≡ some s'
    → Flushed date s s'
unfolding flush
flush-Flushed date s ends ran = elim (Bool-cases (is_empty s.conn.pending_writes.buffers)) [
  | inl e ↦
      let nothing : flush s ≡ some s = rw (e, flush) refl in
      subst (Flushed date s) (some_inj (sym nothing ∙ ran))
        (record { keeps = keeps_self date s; ends = ends; same = refl })
  | inr e ↦
      let written : flush s ≡ (
          data_buffer_list_writeto_fd s.events s.conn.pending_writes
          >>= (λ run. some (after_flush s run))) =
        rw (e, flush) refl in
      let (run, made, ran1) =
        bind_inv (data_buffer_list_writeto_fd s.events s.conn.pending_writes) _
          (sym written ∙ ran) in
      let (run', made', split, _) = list_writeto_fd_sends s.events s.conn.pending_writes ends in
      let same : run' ≡ run = some_inj (sym made' ∙ made) in
      subst (Flushed date s) (some_inj ran1) (
        after_flush-Flushed date s run run.result refl (
          subst (λ r. r.sent ++ waiting r.buffers ≡ waiting s.conn.pending_writes.buffers) same
            split))
]
