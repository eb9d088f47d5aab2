-- ===== src/Queue/ByPtr.antt =====
-- The operations of src/queue.c that look items up by what they carry.
use khttp.Common.{
  ℕ, ◌≡◌, refl, ap, Bool, false, not, List, [], ◌∷◌, map, arith, ltb, ◌==◌, if◌then◌else◌, length,
  select,
}
use khttp.Queue.{
  Queue, QueueItem, signal_cond, remove_ptr, queue_remove_byptr, unblock_ptr, queue_unblock_byptr,
}

-- The items that carry `ptr`, and the others.
abbrev pub carries : ℕ → QueueItem → Bool
carries ptr x = x.ptr == ptr

abbrev pub others : ℕ → List QueueItem → List QueueItem
others ptr = select (λ x. not (carries ptr x))

-- A list in which every item that carries `ptr` is free and nothing else has changed.
abbrev pub freed : ℕ → List QueueItem → List QueueItem
freed ptr = map (λ x. if carries ptr x then record x { blocked = false } else x)

pub remove_ptr_lem : (ptr : ℕ) (xs : List QueueItem) → (remove_ptr ptr xs).0 ≡ others ptr xs
unfolding remove_ptr
remove_ptr_lem ptr [] = refl
remove_ptr_lem ptr (x ∷ xs) = ground (arith, remove_ptr_lem ptr xs)

remove_ptr-count :
    (ptr : ℕ) (xs : List QueueItem) → (remove_ptr ptr xs).1 ≡ length (select (carries ptr) xs)
unfolding remove_ptr
remove_ptr-count ptr [] = refl
remove_ptr-count ptr (x ∷ xs) = ground (arith, remove_ptr-count ptr xs)

unblock_ptr_lem : (ptr : ℕ) (xs : List QueueItem) → (unblock_ptr ptr xs).0 ≡ freed ptr xs
unfolding unblock_ptr
unblock_ptr_lem ptr [] = refl
unblock_ptr_lem ptr (x ∷ xs) = ground (arith, unblock_ptr_lem ptr xs)

unblock_ptr-count :
    (ptr : ℕ) (xs : List QueueItem) → (unblock_ptr ptr xs).1 ≡ length (select (carries ptr) xs)
unfolding unblock_ptr
unblock_ptr-count ptr [] = refl
unblock_ptr-count ptr (x ∷ xs) = ground (arith, unblock_ptr-count ptr xs)

-- `queue_remove_byptr` drops every item that carries the pointer, keeps the others in order,
-- leaves the processing list alone, and returns how many it dropped.
pub queue_remove_byptr_lem :
    (q : Queue) (ptr : ℕ)
    → ((queue_remove_byptr q ptr).0.list ≡ others ptr q.list)
      × ((queue_remove_byptr q ptr).0.processing ≡ q.processing)
      × ((queue_remove_byptr q ptr).1 ≡ length (select (carries ptr) q.list))
unfolding queue_remove_byptr
queue_remove_byptr_lem q ptr = (remove_ptr_lem ptr q.list, refl, remove_ptr-count ptr q.list)

-- `queue_unblock_byptr` frees every item that carries the pointer and changes nothing else. It
-- returns their number, and signals a waiting thread exactly when there is one.
pub queue_unblock_byptr_lem :
    (q : Queue) (ptr : ℕ)
    → ((queue_unblock_byptr q ptr).0 ≡ record q { list = freed ptr q.list })
      × ((queue_unblock_byptr q ptr).1 ≡ length (select (carries ptr) q.list))
      × ((queue_unblock_byptr q ptr).2
          ≡ (if ltb 0 (length (select (carries ptr) q.list)) then signal_cond ∷ [] else []))
unfolding queue_unblock_byptr
queue_unblock_byptr_lem q ptr = (
  ap (λ l. record q { list = l }) (unblock_ptr_lem ptr q.list),
  unblock_ptr-count ptr q.list,
  rw (unblock_ptr-count ptr q.list) refl,
)
