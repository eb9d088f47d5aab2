-- ===== src/Loop/Main/Events.antt =====
-- What an event does to the items of the queues in src/server-loop.c.
use khttp.Common.{
  ℕ, ◌<◌, ◌≡◌, refl, sym, ap, ◌∙◌, Bool, true, false, ◌||◌, Option, none, some, List, [], ◌∷◌, ◌++◌,
  arith, ◌==◌, if◌then◌else◌, if_cases, All, All-append, Bytes, codes,
}
use mathlib.Core.Path.{subst}
use khttp.Queue.{Queue, QueueItem, queue_unblock_byptr}
use khttp.Queue.ByPtr.{freed, queue_unblock_byptr_lem}
use khttp.Connection.{
  Connection, ServerPool, pool_read, pool_write, pool_worker, Pools, pool_queue, set_queue,
  pool_add, server_connection_new, skt_new,
}
use khttp.Loop.Main.{
  ServerState, EpollEvent, server_socket, connection, Accepted, is_at, is_unexpected, find_client,
  accept_one, accept_all, close_client, wake, client_event, server_event, source_event,
  handle_event,
}
use khttp.Loop.Main.Known.{All-map, is_client, Pointing}

module _ (known : ℕ → Bool) where
  pool_add-Pointing :
      (pool : ServerPool) (tag : Bytes) (address : ℕ) (pools : Pools)
      → known address ≡ true
      → Pointing known pools
      → Pointing known (pool_add pools pool tag address)
  unfolding pool_add pool_queue set_queue
  pool_add-Pointing pool_read tag address pools k h pool_read =
      All-append _ pools.read.list (_ ∷ []) (h pool_read) (k, tt)
  pool_add-Pointing pool_read tag address pools k h pool_write = h pool_write
  pool_add-Pointing pool_read tag address pools k h pool_worker = h pool_worker
  pool_add-Pointing pool_write tag address pools k h pool_read = h pool_read
  pool_add-Pointing pool_write tag address pools k h pool_write =
      All-append _ pools.write.list (_ ∷ []) (h pool_write) (k, tt)
  pool_add-Pointing pool_write tag address pools k h pool_worker = h pool_worker
  pool_add-Pointing pool_worker tag address pools k h pool_read = h pool_read
  pool_add-Pointing pool_worker tag address pools k h pool_write = h pool_write
  pool_add-Pointing pool_worker tag address pools k h pool_worker =
      All-append _ pools.worker.list (_ ∷ []) (h pool_worker) (k, tt)

  freed-Pointing :
      (address : ℕ) (xs : List QueueItem)
      → All (λ (x : QueueItem). known x.ptr ≡ true) xs
      → All (λ (x : QueueItem). known x.ptr ≡ true) (freed address xs)
  freed-Pointing address [] h = tt
  freed-Pointing address (x ∷ xs) (k, h) = (
    if_cases (λ (y : QueueItem). known y.ptr ≡ true) (x.ptr == address) (λ e. k) (λ e. k),
    freed-Pointing address xs h,
  )

  unblocked-Pointing :
      (address : ℕ) (pools : Pools)
      → Pointing known pools
      → Pointing known (record pools { read = (queue_unblock_byptr pools.read address).0 })
  unfolding pool_queue
  unblocked-Pointing address pools h pool_read =
      subst (All (λ (x : QueueItem). known x.ptr ≡ true))
        (sym (ap (λ (q : Queue). q.list) (queue_unblock_byptr_lem pools.read address).0))
        (freed-Pointing address pools.read.list (h pool_read))
  unblocked-Pointing address pools h pool_write = h pool_write
  unblocked-Pointing address pools h pool_worker = h pool_worker

  wake-Pointing :
      (pool : ServerPool) (tag : Bytes) (address : ℕ) (pools : Pools)
      → known address ≡ true
      → Pointing known pools
      → Pointing known (wake pool tag address pools)
  unfolding wake
  wake-Pointing pool tag address pools k h =
      let woken = unblocked-Pointing address pools h in
      if_cases (Pointing known) ((queue_unblock_byptr pools.read address).1 == 0)
        (λ e. pool_add-Pointing pool tag address _ k woken) (λ e. woken)

find_client-there :
    (cs : List Connection) (address : ℕ)
    → is_client cs address ≡ true
    → find_client cs address ≡ address
unfolding find_client
find_client-there [] address h = absurd (ground (arith, h))
find_client-there (c ∷ cs) address h = ground (arith, h, find_client-there cs address)

is_client-close :
    (address a : ℕ) (cs : List Connection) → is_client (close_client address cs) a ≡ is_client cs a
unfolding close_client
is_client-close address a [] = refl
is_client-close address a (c ∷ cs) = ground (arith, is_client-close address a cs)

is_client-append :
    (a : ℕ) (cs : List Connection) (c : Connection)
    → is_client (cs ++ c ∷ []) a ≡ (is_client cs a || is_at a c)
is_client-append a [] c = ground arith
is_client-append a (d ∷ cs) c = ground (arith, is_client-append a cs c)

-- The items of the queues point to connections of the server.
abbrev pub PointsIn : ServerState → Type 0
PointsIn s = Pointing (is_client s.clients) s.pools

widened :
    (cs : List Connection) (c : Connection) (pools : Pools)
    → Pointing (is_client cs) pools
    → Pointing (is_client (cs ++ c ∷ [])) pools
widened cs c pools h p =
    All-map (λ (x : QueueItem) k. ground (arith, k, is_client-append x.ptr cs c))
      (pool_queue pools p).list (h p)

accept_one-PointsIn : (a : Accepted) (s : ServerState) → PointsIn s → PointsIn (accept_one a s)
unfolding accept_one server_connection_new
accept_one-PointsIn a s h =
    let (client, nextid) = server_connection_new s.nextid a.address skt_new in
    let taken = is_client-append a.address s.clients client in
    if_cases PointsIn a.added
      (λ e.
        pool_add-Pointing (is_client (s.clients ++ client ∷ [])) pool_read (codes "READ") a.address
          s.pools (ground (arith, taken)) (widened s.clients client s.pools h))
      (λ e. h)

accept_all-PointsIn :
    (accepted : List Accepted) (s : ServerState) → PointsIn s → PointsIn (accept_all accepted s)
unfolding accept_all
accept_all-PointsIn [] s h = h
accept_all-PointsIn (a ∷ more) s h =
    accept_all-PointsIn more (accept_one a s) (accept_one-PointsIn a s h)

closed-Pointing :
    (address : ℕ) (s : ServerState)
    → PointsIn s
    → PointsIn (record s { clients = close_client address s.clients })
closed-Pointing address s h p =
    All-map (λ (x : QueueItem) k. is_client-close address x.ptr s.clients ∙ k)
      (pool_queue s.pools p).list (h p)

-- A step that comes to an end, at a state that keeps what is asked.
Ends : Option ServerState → Type 0
Ends o = (s' : ServerState) × (o ≡ some s') × PointsIn s'

client_event-Ends :
    (e : EpollEvent) (address : ℕ) (s : ServerState)
    → 0 < address
    → is_client s.clients address ≡ true
    → PointsIn s
    → Ends (client_event e address s)
unfolding client_event Ends
client_event-Ends e address s pos there h =
    let close =
      (if address == 0
        then none
        else some (record s { clients = close_client address s.clients })) in
    let closes : Ends close =
      if_cases Ends (address == 0) (λ k. absurd (ground (arith, k, pos)))
        (λ k. (_, refl, closed-Pointing address s h)) in
    if_cases Ends (is_unexpected e) (λ k. closes)
      (λ k.
        if_cases Ends e.epollrdhup (λ k. closes)
          (λ k.
            if_cases Ends e.epollin
              (λ k.
                if_cases Ends (address == 0) (λ k. absurd (ground (arith, k, pos)))
                  (λ k. (
                    _,
                    refl,
                    wake-Pointing (is_client s.clients) pool_read (codes "READ") address s.pools
                        there h,
                  )))
              (λ k. (
                _,
                refl,
                wake-Pointing (is_client s.clients) pool_write (codes "WRITE") address s.pools there
                    h,
              ))))

server_event-Ends :
    (e : EpollEvent) (accepted : List Accepted) (s : ServerState)
    → e.epollrdhup ≡ false
    → e.epollout ≡ false
    → PointsIn s
    → Ends (server_event e accepted s)
unfolding server_event Ends
server_event-Ends e accepted s rdhup out h =
    if_cases Ends (is_unexpected e) (λ k. (_, refl, h))
      (λ fine.
        if_cases Ends e.epollrdhup (λ k. absurd (ground (arith, k, rdhup)))
          (λ k.
            if_cases Ends e.epollin (λ k. (_, refl, accept_all-PointsIn accepted s h))
              (λ k. absurd (ground (arith, fine, k, rdhup, out)))))

-- What epoll reports: of the server socket only what it was registered for, and of the
-- connections those that the server has, none of which is at NULL.
pub data Expected (s : ServerState) (e : EpollEvent) : Type 0 where
  of_server : e.source ≡ server_socket → e.epollrdhup ≡ false → e.epollout ≡ false → Expected s e
  of_client :
      (address : ℕ)
      → e.source ≡ connection address
      → 0 < address
      → is_client s.clients address ≡ true
      → Expected s e

-- When every item of the queues points to a connection of the server, an event that epoll can report
-- is handled without a failed assertion, whatever sockets are accepted, and afterwards every item
-- points to a connection of the server again.
pub handle_event-PointsIn :
    (e : EpollEvent) (accepted : List Accepted) (s : ServerState)
    → Expected s e
    → PointsIn s
    → (s' : ServerState) × (handle_event e accepted s ≡ some s') × PointsIn s'
unfolding handle_event source_event Ends
handle_event-PointsIn e accepted s (of_server source rdhup out) h =
    let (s', ran, kept) = server_event-Ends e accepted s rdhup out h in
    (s', ap (λ src. source_event src e accepted s) source ∙ ran, kept)
handle_event-PointsIn e accepted s (of_client address source pos there) h =
    let (s', ran, kept) = client_event-Ends e address s pos there h in
    (
      s',
      ap (λ src. source_event src e accepted s) source
          ∙ (ap (λ a. client_event e a s) (find_client-there s.clients address there) ∙ ran),
      kept,
    )
