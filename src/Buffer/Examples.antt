-- ===== src/Buffer/Examples.antt =====
-- The theorems on the models of src/data-buffer.c at concrete buffers.
use khttp.Common.{ℕ, ◌≡◌, refl, inr, none, some, [], ◌∷◌, ◌++◌, arith, Bytes, codes, ne_of_str_eq}
use khttp.Http.Body.{accepts, would_block}
use khttp.Buffer.{
  DataBuffer, DataBufferList, WriteRun, data_buffer_list_append, data_buffer_list_writeto_fd,
}
use khttp.Buffer.Append.{waiting, IsSound, append-waiting, append_ties}
use khttp.Buffer.Sending.{list_writeto_fd_sends}

-- A buffer of eight bytes that has room for three more.
abbrev a_buffer : DataBuffer
a_buffer = record { buffer = codes "hello"; size = 8; roffset = 2 }

abbrev a_list : DataBufferList
a_list = record { buffers = a_buffer ∷ []; back = none }

a_buffer-IsSound : IsSound a_buffer
a_buffer-IsSound = record { read = omega arith; written = omega arith }

append-waiting_example :
    (list' : DataBufferList) × (data_buffer_list_append a_list (codes " x") ≡ some list')
    × (list'.back ≡ none)
    × (waiting list'.buffers ≡ codes "llo x")
append-waiting_example =
    append-waiting a_list (codes " x") (ne_of_str_eq (codes " x") [] refl) refl
      (a_buffer-IsSound, tt) (inr (omega arith))

append_ties_example :
    (list' : DataBufferList) × (data_buffer_list_append a_list (codes ", world") ≡ some list')
    × ((later : Bytes) → data_buffer_list_append list' later ≡ none)
append_ties_example = append_ties a_list (codes ", world") refl (omega arith) (omega arith)

list_writeto_fd_sends_example :
    (run : WriteRun) × (data_buffer_list_writeto_fd (accepts 1 ∷ would_block ∷ []) a_list
      ≡ some run)
    × (run.sent ++ waiting run.buffers ≡ codes "llo")
    × ((n : ℕ) → run.result ≡ some (some n) → (run.buffers ≡ []) × (n ≡ 3))
list_writeto_fd_sends_example = list_writeto_fd_sends (accepts 1 ∷ would_block ∷ []) a_list refl
