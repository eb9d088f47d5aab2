-- ===== src/Buffer.antt =====
-- The buffers of src/data-buffer.c that wait to be written to a socket.
pub mod Append
pub mod Sending
pub mod Ready
pub mod Examples
use khttp.Common.{
  ℕ, zero, suc, ◌+◌, ◌-◌, Bool, true, false, Option, none, some, List, [], ◌∷◌, ◌++◌, ltb, leb,
  ◌==◌, if◌then◌else◌, length, take, drop, Bytes,
}
use khttp.Http.Body.{FdEvent, accepts, would_block, fails}

-- `buffer` has the bytes written so far, so that `wOffset` is its length.
pub record DataBuffer : Type 0 where
  pub buffer : Bytes
  pub size : ℕ
  pub roffset : ℕ

-- The buffers from `first` on, and where the `next` of the last one points: NULL, or back to the one
-- at a position.
pub record DataBufferList : Type 0 where
  pub buffers : List DataBuffer
  pub back : Option ℕ

abbrev pub data_buffer_size : ℕ
data_buffer_size = 16384

unfoldable pub data_buffer_new : ℕ → DataBuffer
data_buffer_new size = record { buffer = []; size = size; roffset = 0 }

unfoldable pub data_buffer_list_new : DataBufferList
data_buffer_list_new = record { buffers = []; back = none }

abbrev pub space : DataBuffer → ℕ
space b = b.size - length b.buffer

-- The loop that allocates until there is room for `n` bytes; each round makes room for more, so `n`
-- rounds are enough.
pub more_buffers : ℕ → ℕ → ℕ → List DataBuffer
unfolding data_buffer_new
more_buffers zero allocated n = []
more_buffers (suc f) allocated n =
    let rest = more_buffers f (allocated + data_buffer_size) n in
    if ltb allocated n then data_buffer_new data_buffer_size ∷ rest else []

-- The loop that copies the data into the buffers.
pub fill : Bytes → List DataBuffer → List DataBuffer
fill src [] = []
fill src (b ∷ bs) =
    record b { buffer = b.buffer ++ take (space b) src } ∷ fill (drop (space b) src) bs

pub fresh_chain : Bytes → List DataBuffer
unfolding fill more_buffers data_buffer_new
fresh_chain src =
    fill src
      (data_buffer_new data_buffer_size ∷ more_buffers (length src) data_buffer_size (length src))

-- A last buffer with room is filled together with new buffers behind it. LL_DELETE then only moves the
-- head of the chain on, so that the concatenation ties the end of the list to the first new buffer.
pub append_last : Bytes → ℕ → DataBuffer → List DataBuffer × Option ℕ
unfolding fill more_buffers
append_last src pos b =
    let extra = more_buffers (length src) (space b) (length src) in
    (fill src (b ∷ extra), if length extra == 0 then none else some (pos + 1))

pub append_from : Bytes → ℕ → List DataBuffer → List DataBuffer × Option ℕ
unfolding append_last fresh_chain
append_from src pos [] = (fresh_chain src, none)
append_from src pos (b ∷ []) =
    if length b.buffer == b.size then (b ∷ fresh_chain src, none) else append_last src pos b
append_from src pos (b ∷ c ∷ bs) =
    let (rest, back) = append_from src (pos + 1) (c ∷ bs) in (b ∷ rest, back)

-- `src` has the `n` bytes, at least one. On a list that leads back into itself the walk to its end
-- never ends, which is `none`, as is a failed assertion.
unfoldable pub data_buffer_list_append : DataBufferList → Bytes → Option DataBufferList
unfolding append_from
data_buffer_list_append list src = if length src == 0 then none else (elim list.back [
  | some pos ↦ none
  | none ↦
      let (buffers, back) = append_from src 0 list.buffers in
      some (record { buffers = buffers; back = back })
])

-- LL_DELETE of the buffers in front that have nothing left.
pub drain : List DataBuffer → List DataBuffer
drain [] = []
drain (b ∷ bs) = if leb (length b.buffer) b.roffset then drain bs else b ∷ bs

-- A run of `data_buffer_list_writeto_fd`: whether the loop ended, and if so its result, which is a
-- count or -1 (`none`); whether errno is then EAGAIN; the buffers that are left; what went out; the
-- answers that were not needed.
pub record WriteRun : Type 0 where
  pub result : Option (Option ℕ)
  pub blocked : Bool
  pub buffers : List DataBuffer
  pub sent : Bytes
  pub rest : List FdEvent

abbrev pub run_end : Option (Option ℕ) → Bool → List DataBuffer → Bytes → List FdEvent → WriteRun
run_end result blocked buffers sent rest = record {
  result = result;
  blocked = blocked;
  buffers = buffers;
  sent = sent;
  rest = rest;
}

-- The answers of write(2) in turn. An answer of 0 bytes leaves errno at something other than EAGAIN.
pub write_list : List FdEvent → List DataBuffer → ℕ → Bytes → WriteRun
unfolding drain
write_list [] bs result sent = elim (drain bs) [
  | [] ↦ run_end (some (some result)) false [] sent []
  | b ∷ ds ↦ run_end none false (b ∷ ds) sent []
]
write_list (e ∷ es) bs result sent =
    let after = λ (n : ℕ) (b : DataBuffer) (ds : List DataBuffer).
      let unsent = drop b.roffset b.buffer in
      let written = (if leb n (length unsent) then n else length unsent) in
      write_list es (record b { roffset = b.roffset + written } ∷ ds) (result + written)
        (sent ++ take written unsent) in
    elim (drain bs) [
      | [] ↦ run_end (some (some result)) false [] sent (e ∷ es)
      | b ∷ ds ↦ elim e [
        | accepts n ↦ after n b ds
        | would_block ↦ run_end (some none) true (b ∷ ds) sent es
        | fails ↦ run_end (some none) false (b ∷ ds) sent es
      ]
    ]

-- The list must end in NULL here.
unfoldable pub data_buffer_list_writeto_fd : List FdEvent → DataBufferList → Option WriteRun
unfolding write_list
data_buffer_list_writeto_fd events list = elim list.back [
  | some pos ↦ none
  | none ↦ some (write_list events list.buffers 0 [])
]
