-- ===== src/Buffer/Append.antt =====
-- What `data_buffer_list_append` of src/data-buffer.c does to the bytes that wait.
use khttp.Common.{
  ℕ, zero, suc, ◌+◌, ◌*◌, ◌≤◌, ◌<◌, ◌≡◌, refl, sym, ◌≢◌, ◌⊎◌, inl, inr, none, some, List, [], ◌∷◌,
  ◌++◌, append-nil, append_assoc, arith, ltb, ◌==◌, Bool-cases, length, drop, All, take-append-drop,
  length-pos, length-drop, take-all, Bytes,
}
use khttp.Buffer.{
  DataBuffer, DataBufferList, data_buffer_size, data_buffer_new, space, more_buffers, fill,
  fresh_chain, append_last, append_from, data_buffer_list_append,
}

-- The bytes that are still to be written.
abbrev pub waiting : List DataBuffer → Bytes
waiting [] = []
waiting (b ∷ bs) = drop b.roffset b.buffer ++ waiting bs

-- The room in the last buffer.
abbrev pub room : List DataBuffer → ℕ
room [] = 0
room (b ∷ []) = space b
room (b ∷ c ∷ bs) = room (c ∷ bs)

pub record IsSound (b : DataBuffer) : Type 0 where
  pub read : b.roffset ≤ length b.buffer
  pub written : length b.buffer ≤ b.size

abbrev IsFresh : DataBuffer → Type 0
IsFresh b = b ≡ data_buffer_new data_buffer_size

more_buffers-IsFresh : (f a n : ℕ) → All IsFresh (more_buffers f a n)
unfolding more_buffers
more_buffers-IsFresh zero a n = tt
more_buffers-IsFresh (suc f) a n = elim (Bool-cases (ltb a n)) [
  | inl e ↦ rw e (refl, more_buffers-IsFresh f (a + data_buffer_size) n)
  | inr e ↦ rw e tt
]

more_buffers-enough :
    (f a n : ℕ) → n ≤ a + f → n ≤ a + data_buffer_size * length (more_buffers f a n)
unfolding more_buffers
more_buffers-enough zero a n h = omega arith
more_buffers-enough (suc f) a n h = ground (arith, more_buffers-enough f (a + data_buffer_size) n)

more_buffers-none : (f a n : ℕ) → n ≤ a → more_buffers f a n ≡ []
unfolding more_buffers
more_buffers-none zero a n h = refl
more_buffers-none (suc f) a n h = ground arith

more_buffers-some : (f a n : ℕ) → a < n → n ≤ a + f → 0 < length (more_buffers f a n)
unfolding more_buffers
more_buffers-some zero a n h k = absurd (omega arith)
more_buffers-some (suc f) a n h k = ground arith

waiting-fill :
    (src : Bytes) (bs : List DataBuffer)
    → All IsFresh bs
    → length src ≤ data_buffer_size * length bs
    → waiting (fill src bs) ≡ src
unfolding fill data_buffer_new
waiting-fill [] [] h k = refl
waiting-fill (c ∷ src) [] h k = absurd (omega arith)
waiting-fill src (b ∷ bs) (e, h) k = rw e (
    rw
      (waiting-fill (drop data_buffer_size src) bs h
        (omega (arith, length-drop data_buffer_size src)))
      (take-append-drop data_buffer_size src))

waiting-fresh_chain : (src : Bytes) → waiting (fresh_chain src) ≡ src
unfolding fresh_chain
waiting-fresh_chain src =
    waiting-fill src
      (data_buffer_new data_buffer_size ∷ more_buffers (length src) data_buffer_size (length src))
      (refl, more_buffers-IsFresh (length src) data_buffer_size (length src))
      (omega (arith, more_buffers-enough (length src) data_buffer_size (length src) (omega arith)))

drop-append_short : (n : ℕ) (xs ys : Bytes) → n ≤ length xs → drop n (xs ++ ys) ≡ drop n xs ++ ys
drop-append_short zero xs ys h = refl
drop-append_short (suc n) [] ys h = absurd (omega arith)
drop-append_short (suc n) (x ∷ xs) ys h = drop-append_short n xs ys (omega arith)

append_last-fits :
    (src : Bytes) (pos : ℕ) (b : DataBuffer)
    → IsSound b
    → length src ≤ space b
    → ((append_last src pos b).1 ≡ none)
      × (waiting (append_last src pos b).0 ≡ waiting (b ∷ []) ++ src)
unfolding append_last fill
append_last-fits src pos b s fits =
    rw (more_buffers-none (length src) (space b) (length src) fits) (
      refl,
      rw (take-all (space b) src fits)
          (rw append-nil (rw append-nil (drop-append_short b.roffset b.buffer src s.read))),
    )

append_last_ties :
    (src : Bytes) (pos : ℕ) (b : DataBuffer)
    → space b < length src
    → (append_last src pos b).1 ≢ none
unfolding append_last
append_last_ties src pos b lt e =
    ground (arith, more_buffers-some (length src) (space b) (length src) lt (omega arith), e)

append_from-waiting :
    (src : Bytes) (pos : ℕ) (bs : List DataBuffer)
    → All IsSound bs
    → (room bs ≡ 0) ⊎ (length src ≤ room bs)
    → ((append_from src pos bs).1 ≡ none) × (waiting (append_from src pos bs).0 ≡ waiting bs ++ src)
unfolding append_from
append_from-waiting src pos [] h fits = (refl, waiting-fresh_chain src)
append_from-waiting src pos (b ∷ []) (s, _) fits = elim (Bool-cases (length b.buffer == b.size)) [
  | inl e ↦ rw e (refl, rw (waiting-fresh_chain src) (rw append-nil refl))
  | inr e ↦ rw e (append_last-fits src pos b s (ground (arith, fits, s.written, e)))
]
append_from-waiting src pos (b ∷ c ∷ bs) (s, h) fits =
    let (open_end, more) = append_from-waiting src (pos + 1) (c ∷ bs) h fits in
    (open_end, rw more (sym (append_assoc (drop b.roffset b.buffer) (waiting (c ∷ bs)) src)))

append_from_ties :
    (src : Bytes) (pos : ℕ) (bs : List DataBuffer)
    → 0 < room bs
    → room bs < length src
    → (append_from src pos bs).1 ≢ none
unfolding append_from
append_from_ties src pos [] some_room lt = absurd (omega arith)
append_from_ties src pos (b ∷ []) some_room lt = elim (Bool-cases (length b.buffer == b.size)) [
  | inl e ↦ absurd (ground (arith, e, some_room))
  | inr e ↦ rw e (append_last_ties src pos b lt)
]
append_from_ties src pos (b ∷ c ∷ bs) some_room lt =
    append_from_ties src (pos + 1) (c ∷ bs) some_room lt

-- Appending to a list that ends in NULL, of buffers whose offsets are in range, puts the new bytes
-- behind those that wait, and leaves a list that ends in NULL, when the last buffer is full (or there
-- is none) or has room for all of them.
pub append-waiting :
    (list : DataBufferList) (src : Bytes)
    → src ≢ []
    → list.back ≡ none
    → All IsSound list.buffers
    → (room list.buffers ≡ 0) ⊎ (length src ≤ room list.buffers)
    → (list' : DataBufferList) × (data_buffer_list_append list src ≡ some list')
      × (list'.back ≡ none)
      × (waiting list'.buffers ≡ waiting list.buffers ++ src)
unfolding data_buffer_list_append
append-waiting list src ne ends sound fits =
    let (open_end, more) = append_from-waiting src 0 list.buffers sound fits in
    (
      record {
        buffers = (append_from src 0 list.buffers).0;
        back = (append_from src 0 list.buffers).1;
      },
      ground (arith, ends, length-pos src ne),
      open_end,
      more,
    )

-- When the last buffer has room, but not for all of the new bytes, the append leaves a list that
-- leads back into itself, and no later append to it comes to an end.
pub append_ties :
    (list : DataBufferList) (src : Bytes)
    → list.back ≡ none
    → 0 < room list.buffers
    → room list.buffers < length src
    → (list' : DataBufferList) × (data_buffer_list_append list src ≡ some list')
      × ((later : Bytes) → data_buffer_list_append list' later ≡ none)
unfolding data_buffer_list_append
append_ties list src ends some_room lt = (
  record {
    buffers = (append_from src 0 list.buffers).0;
    back = (append_from src 0 list.buffers).1;
  },
  ground (arith, ends, lt),
  λ later. ground (arith, append_from_ties src 0 list.buffers some_room lt),
)
