-- ===== src/Queue/Count.antt =====
-- The item count that queue.c keeps beside the list.
use khttp.Common.{
  length-pos, ℕ, ◌+◌, ◌%◌, ◌≤◌, ◌<◌, ◌≡◌, refl, ap, ◌≢◌, inl, inr, Bool, true, false, List, [], ◌∷◌,
  arith, length, length-append,
}
use khttp.Queue.Fetch.{take_unblocked-Taken}
use khttp.Queue.{
  Queue, QueueItem, u64_mod, queue_new, queue_add, remove_one, queue_remove, remove_ptr,
  queue_remove_byptr, fetch_locked, queue_fetchone, unblock_one, queue_unblock, unblock_ptr,
  queue_unblock_byptr, queue_clear, pending_remove, queue_return_item, queue_count,
}

-- The counter is the length of the list, as far as 64 bits tell.
abbrev pub Counted : Queue → Type 0
Counted q = q.count ≡ length q.list % u64_mod

remove_one-length :
    (id : ℕ) (xs : List QueueItem) → length (remove_one id xs).0 + (remove_one id xs).1 ≡ length xs
unfolding remove_one
remove_one-length id [] = omega arith
remove_one-length id (x ∷ xs) = ground (arith, remove_one-length id xs)

remove_one-le : (id : ℕ) (xs : List QueueItem) → (remove_one id xs).1 ≤ 1
unfolding remove_one
remove_one-le id [] = omega arith
remove_one-le id (x ∷ xs) = ground (arith, remove_one-le id xs)

remove_ptr-length :
    (ptr : ℕ) (xs : List QueueItem)
    → length (remove_ptr ptr xs).0 + (remove_ptr ptr xs).1 ≡ length xs
unfolding remove_ptr
remove_ptr-length ptr [] = omega arith
remove_ptr-length ptr (x ∷ xs) = ground (arith, remove_ptr-length ptr xs)

unblock_one-length : (id : ℕ) (xs : List QueueItem) → length (unblock_one id xs).0 ≡ length xs
unfolding unblock_one
unblock_one-length id [] = refl
unblock_one-length id (x ∷ xs) = ground (arith, unblock_one-length id xs)

unblock_ptr-length : (ptr : ℕ) (xs : List QueueItem) → length (unblock_ptr ptr xs).0 ≡ length xs
unfolding unblock_ptr
unblock_ptr-length ptr [] = refl
unblock_ptr-length ptr (x ∷ xs) = ground (arith, unblock_ptr-length ptr xs)

fetch_locked-Counted : (q : Queue) → Counted q → Counted (fetch_locked q).1
unfolding fetch_locked
fetch_locked-Counted q h = elim (take_unblocked-Taken q.list) [
  | inl (_, e) ↦ rw (e, fetch_locked) (ground arith)
  | inr (before, item, after, split, _, _, e) ↦
      rw (e, fetch_locked)
        (ground
          (arith, ap length split, length-append before (item ∷ after), length-append before after))
]

-- Each operation on a queue but `queue_clear`.
pub data QueueOp : Type 0 where
  add : QueueItem → QueueOp
  remove : ℕ → QueueOp
  remove_byptr : ℕ → QueueOp
  fetch : QueueOp
  unblock : ℕ → QueueOp
  unblock_byptr : ℕ → QueueOp
  return_item : QueueItem → Bool → QueueOp

pub apply : QueueOp → Queue → Queue
apply (add item) q = (queue_add q item).0
apply (remove id) q = (queue_remove q id).0
apply (remove_byptr ptr) q = (queue_remove_byptr q ptr).0
apply fetch q = (queue_fetchone (λ w. w) q false).1
apply (unblock id) q = (queue_unblock q id).0
apply (unblock_byptr ptr) q = (queue_unblock_byptr q ptr).0
apply (return_item item finished) q = (queue_return_item q item finished).0

add-Counted : (q : Queue) (item : QueueItem) → Counted q → Counted (queue_add q item).0
unfolding queue_add
add-Counted q item h = omega (arith, length-append q.list (item ∷ []))

apply-Counted : (op : QueueOp) (q : Queue) → Counted q → Counted (apply op q)
unfolding apply
apply-Counted (add item) q h = add-Counted q item h
apply-Counted (remove id) q h =
    unfold queue_remove in omega (arith, remove_one-length id q.list, remove_one-le id q.list)
apply-Counted (remove_byptr ptr) q h =
    unfold queue_remove_byptr in omega (arith, remove_ptr-length ptr q.list)
apply-Counted fetch q h = unfold queue_fetchone in ground (arith, fetch_locked-Counted q h)
apply-Counted (unblock id) q h = unfold queue_unblock in omega (arith, unblock_one-length id q.list)
apply-Counted (unblock_byptr ptr) q h =
    unfold queue_unblock_byptr in omega (arith, unblock_ptr-length ptr q.list)
apply-Counted (return_item item true) q h = unfold queue_return_item in h
apply-Counted (return_item item false) q h =
    unfold queue_return_item in add-Counted (pending_remove q item.id) item h

pub run : List QueueOp → Queue → Queue
run [] q = q
run (op ∷ ops) q = run ops (apply op q)

run-Counted : (ops : List QueueOp) (q : Queue) → Counted q → Counted (run ops q)
unfolding run
run-Counted [] q h = h
run-Counted (op ∷ ops) q h = run-Counted ops (apply op q) (apply-Counted op q h)

-- After any sequence of operations on a new queue, with no `queue_clear` among them, the counter
-- that `queue_count` reads is the number of items in the list, modulo 2^64.
pub queue_count-run :
    (ops : List QueueOp)
    → queue_count (run ops queue_new) ≡ length (run ops queue_new).list % u64_mod
unfolding queue_count queue_new
queue_count-run ops = run-Counted ops queue_new refl

-- `queue_clear` leaves the counter behind: of a non-empty queue of fewer than 2^64 items whose
-- counter is right it makes an empty one whose counter is not.
pub queue_clear-not-Counted :
    (q : Queue)
    → Counted q
    → q.list ≢ []
    → length q.list < u64_mod
    → ((queue_clear q).list ≡ []) × ¬ Counted (queue_clear q)
unfolding queue_clear
queue_clear-not-Counted q h ne lt = (refl, λ e. omega (arith, length-pos q.list ne))
