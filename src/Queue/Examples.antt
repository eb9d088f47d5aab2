-- ===== src/Queue/Examples.antt =====
-- The theorems on the models of src/queue.c at concrete queues.
use khttp.Common.{
  ◌+◌, ◌%◌, ◌≤◌, ◌≡◌, refl, ◌↔◌, true, false, some, List, [], ◌∷◌, arith, length, codes,
}
use khttp.Queue.{
  QueueItem, Queue, u64_mod, queue_new, queue_add, queue_fetchone, queue_count, queue_remove_byptr,
  queue_pending_wait, queue_item_new2, fetch_locked, queue_return_item, queue_pending_waitptr,
  pending_remove,
}
use khttp.Queue.Fetch.{Fetched, queue_fetchone-Fetched}
use khttp.Queue.Count.{QueueOp, add, fetch, run, queue_count-run}
use khttp.Queue.Ownership.{
  System, Reach, here, next, enqueue, fetch as step_fetch, start, occurs, Reach-exclusive,
  Reach-pending,
}
use khttp.Queue.Waiting.{Ended, waitptr-clear, waitptr_leaves}

abbrev first_item : QueueItem
first_item = record { id = 1; tag = codes "READ"; blocked = true; ptr = 7 }

abbrev second_item : QueueItem
second_item = record { id = 2; tag = codes "WRITE"; blocked = false; ptr = 8 }

abbrev two_items : Queue
two_items = record { list = first_item ∷ second_item ∷ []; count = 2; processing = [] }

fetch_second : (queue_fetchone (λ w. w) two_items true).0 ≡ some second_item
unfolding queue_fetchone
fetch_second = refl

queue_fetchone-Fetched_example : Fetched two_items (queue_fetchone (λ w. w) two_items true)
queue_fetchone-Fetched_example = queue_fetchone-Fetched (λ w. w) two_items true

abbrev three_ops : List QueueOp
three_ops = add first_item ∷ add second_item ∷ fetch ∷ []

queue_count-run_example :
    queue_count (run three_ops queue_new) ≡ length (run three_ops queue_new).list % u64_mod
queue_count-run_example = queue_count-run three_ops

-- One item is enqueued and fetched.
abbrev queued : System
queued = record {
  queue = (queue_add queue_new (queue_item_new2 1 (codes "READ") 7).0).0;
  held = [];
  returning = [];
  nextid = (queue_item_new2 1 (codes "READ") 7).1;
}

queued-Reach : Reach start queued
queued-Reach = next here (enqueue (codes "READ") 7 (omega arith) refl)

Reach-exclusive_example :
    occurs 1 queued.queue.list + (occurs 1 queued.held + occurs 1 queued.returning) ≤ 1
Reach-exclusive_example = Reach-exclusive queued 1 queued-Reach

Reach-pending_example :
    (queue_pending_wait [] queued.queue 1 ≡ some queued.queue) ↔ (occurs 1 queued.held ≡ 0)
Reach-pending_example = Reach-pending queued 1 queued-Reach

-- It is fetched.
abbrev fetched_item : QueueItem
fetched_item = (queue_item_new2 1 (codes "READ") 7).0

queued_fetch : (fetch_locked queued.queue).0 ≡ some fetched_item
unfolding fetch_locked queue_add queue_new queue_item_new2
queued_fetch = refl

abbrev fetched : System
fetched = record queued { queue = (fetch_locked queued.queue).1; held = fetched_item ∷ [] }

fetched-Reach : Reach start fetched
fetched-Reach = next queued-Reach (step_fetch fetched_item queued_fetch refl)

abbrev one_held : Queue
one_held = record {
  list = second_item ∷ [];
  count = 1;
  processing = record { qid = 1; ptr = 7 } ∷ [];
}

-- A thread has the item for the pointer, another one comes and goes, then both are done.
abbrev two_held : Queue
two_held = record one_held {
  processing = record { qid = 1; ptr = 7 } ∷ record { qid = 2; ptr = 7 } ∷ [];
}

abbrev none_held : Queue
none_held = record one_held { processing = [] }

waitptr-clear_example :
    Ended
      (two_held ∷ one_held ∷ none_held ∷ none_held ∷ [])
      7
      (queue_pending_waitptr (one_held ∷ none_held ∷ none_held ∷ []) two_held 7)
waitptr-clear_example =
    waitptr-clear (one_held ∷ []) two_held none_held 7 (omega arith, (omega arith, tt))
      ((omega arith, tt), tt) refl

waitptr_leaves_example :
    let removed = (queue_remove_byptr one_held 7).0 in
    let returned = (queue_return_item removed first_item false).0 in
    (queue_pending_waitptr (returned ∷ returned ∷ []) removed 7 ≡ some returned)
    × (returned.list ≡ second_item ∷ first_item ∷ [])
waitptr_leaves_example =
    waitptr_leaves one_held first_item (omega arith) refl (unfold pending_remove in refl)
