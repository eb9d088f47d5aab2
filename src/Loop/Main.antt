-- ===== src/Loop/Main.antt =====
-- The main loop of src/server-loop.c, with the state of src/server-state.h. `none` is a failed
-- assertion. What epoll(7) and accept(2) answer, and what the other threads do to the queues while
-- the loop waits for them, are parameters.
pub mod Known
pub mod Events
pub mod Examples
use khttp.Common.{
  ℕ, Bool, true, false, not, ◌&&◌, ◌||◌, Option, none, some, List, [], ◌∷◌, ◌++◌, ◌==◌,
  if◌then◌else◌, ◌>>=◌, Bytes, codes,
}
use khttp.Queue.{Queue, queue_unblock_byptr, queue_remove_byptr, queue_pending_waitptr}
use khttp.Connection.{
  ServerPool, pool_read, pool_write, pool_worker, Pools, pool_queue, set_queue, pool_add, skt_new,
  skt_close, Connection, server_connection_new,
}

pub record ServerState : Type 0 where
  pub started : Bool
  pub stopped : Bool
  pub shutdown_requested : Bool
  pub clients : List Connection
  pub pools : Pools
  pub nextid : ℕ

-- Where an event comes from: the server socket, or the connection at an address. The code tells them
-- apart by the low half of the pointer.
pub data Source : Type 0 where
  server_socket : Source
  connection : ℕ → Source

pub record EpollEvent : Type 0 where
  pub source : Source
  pub epollerr : Bool
  pub epollrdhup : Bool
  pub epollin : Bool
  pub epollout : Bool

-- An accepted socket: where its connection is allocated, and whether epoll takes it.
pub record Accepted : Type 0 where
  pub address : ℕ
  pub added : Bool

abbrev pub is_at : ℕ → Connection → Bool
is_at address conn = conn.address == address

-- The last connection in `clients` with that address; 0 stands for NULL.
unfoldable pub find_client : List Connection → ℕ → ℕ
find_client [] address = 0
find_client (c ∷ cs) address = if is_at address c then address else find_client cs address

unfoldable pub accept_one : Accepted → ServerState → ServerState
unfolding server_connection_new skt_new pool_add
accept_one a s =
    let (client, nextid) = server_connection_new s.nextid a.address skt_new in
    if a.added
    then record s {
      clients = s.clients ++ client ∷ [];
      pools = pool_add s.pools pool_read (codes "READ") a.address;
      nextid = nextid;
    }
    else record s { nextid = nextid }

-- `while (true)` ends when accept gives no socket.
unfoldable pub accept_all : List Accepted → ServerState → ServerState
unfolding accept_one
accept_all [] s = s
accept_all (a ∷ more) s = accept_all more (accept_one a s)

-- `skt_close` of the connection at an address.
unfoldable pub close_client : ℕ → List Connection → List Connection
unfolding skt_close
close_client address [] = []
close_client address (c ∷ cs) =
    (if is_at address c then record c { skt = skt_close c.skt } else c) ∷ close_client address cs

-- Items of the read queue are unblocked, or else one is added to the queue of `pool`.
unfoldable pub wake : ServerPool → Bytes → ℕ → Pools → Pools
unfolding queue_unblock_byptr pool_add
wake pool tag address pools =
    let (q, count, _) = queue_unblock_byptr pools.read address in
    let woken = record pools { read = q } in
    if count == 0 then pool_add woken pool tag address else woken

abbrev pub is_unexpected : EpollEvent → Bool
is_unexpected e = e.epollerr || (not e.epollin && (not e.epollout && not e.epollrdhup))

-- An event of a connection, which must be in `clients` but for EPOLLOUT.
unfoldable pub client_event : EpollEvent → ℕ → ServerState → Option ServerState
unfolding close_client wake
client_event e address s =
    let close =
      (if address == 0
        then none
        else some (record s { clients = close_client address s.clients })) in
    if is_unexpected e
    then close
    else if e.epollrdhup
    then close
    else if e.epollin
    then (if address == 0
        then none
        else some (record s { pools = wake pool_read (codes "READ") address s.pools }))
    else some (record s { pools = wake pool_write (codes "WRITE") address s.pools })

-- An event of the server socket, for which `conn` is NULL.
unfoldable pub server_event : EpollEvent → List Accepted → ServerState → Option ServerState
unfolding accept_all wake
server_event e accepted s =
    if is_unexpected e
    then some (record s { shutdown_requested = true })
    else if e.epollrdhup
    then none
    else if e.epollin
    then some (accept_all accepted s)
    else some (record s { pools = wake pool_write (codes "WRITE") 0 s.pools })

unfoldable pub source_event : Source → EpollEvent → List Accepted → ServerState → Option ServerState
unfolding client_event server_event find_client
source_event server_socket e accepted s = server_event e accepted s
source_event (connection address) e accepted s = client_event e (find_client s.clients address) s

unfoldable pub handle_event : EpollEvent → List Accepted → ServerState → Option ServerState
unfolding source_event
handle_event e accepted s = source_event e.source e accepted s

-- The events of one call of epoll_wait; an error of the server socket ends the round.
unfoldable pub handle_events : List (EpollEvent × List Accepted) → ServerState → Option ServerState
unfolding handle_event
handle_events [] s = some s
handle_events ((e, accepted) ∷ more) s = do
  s' ← handle_event e accepted s
  let rest = handle_events more s'
  (if s'.shutdown_requested then some s' else rest)

-- What the other threads make of the queues before the loop waits for those of a pool, and the states
-- of that queue during the wait.
pub record Interference : Type 0 where
  pub others : ServerPool → Pools → Pools
  pub states : ServerPool → List Queue

unfoldable pub remove_from : ServerPool → ℕ → Pools → Pools
unfolding pool_queue set_queue queue_remove_byptr
remove_from pool address pools =
    set_queue pools pool (queue_remove_byptr (pool_queue pools pool) address).0

unfoldable pub wait_for : Interference → ServerPool → ℕ → Pools → Option Pools
unfolding pool_queue set_queue queue_pending_waitptr
wait_for i pool address pools = do
  let pools' = i.others pool pools
  q ← queue_pending_waitptr (i.states pool) (pool_queue pools' pool) address
  some (set_queue pools' pool q)

-- The queues of a connection that is about to be deleted.
unfoldable pub forget : Interference → ℕ → Pools → Option Pools
unfolding remove_from wait_for
forget i address pools = do
  let removed =
      remove_from pool_worker address
        (remove_from pool_write address (remove_from pool_read address pools))
  read ← wait_for i pool_read address removed
  write ← wait_for i pool_write address read
  wait_for i pool_worker address write

-- The clean-up of one connection; `none` for the connection means that it is gone.
unfoldable pub clean_client : Interference → Connection → Pools → Option (Option Connection × Pools)
unfolding skt_close forget
clean_client i c pools =
    let skt = (if c.skt.error then skt_close c.skt else c.skt) in
    if skt.closed
    then (do pools' ← forget i c.address pools; some (none, pools'))
    else some (some (record c { skt = skt }), pools)

abbrev pub keep : Option Connection → List Connection → List Connection
keep none cs = cs
keep (some c) cs = c ∷ cs

unfoldable pub clean_up : Interference → List Connection → Pools → Option (List Connection × Pools)
unfolding clean_client
clean_up i [] pools = some ([], pools)
clean_up i (c ∷ cs) pools = do
  (c', pools') ← clean_client i c pools
  (cs', pools'') ← clean_up i cs pools'
  some (keep c' cs', pools'')

-- One round of the main loop.
unfoldable pub main_round :
    Interference → List (EpollEvent × List Accepted) → ServerState → Option ServerState
unfolding handle_events clean_up
main_round i events s = do
  handled ← handle_events events s
  (clients, pools) ← clean_up i handled.clients handled.pools
  some (record handled { clients = clients; pools = pools })

-- What is left when the loop has ended.
unfoldable pub loop_ended : ServerState → ServerState
loop_ended s = record s { shutdown_requested = false; started = false; stopped = true }

-- The loop, over what epoll_wait answers in each round; `none` also where it is not asked to shut
-- down within these rounds.
unfoldable pub server_loop :
    List (Interference × List (EpollEvent × List Accepted)) → ServerState → Option ServerState
unfolding main_round loop_ended
server_loop [] s = if s.shutdown_requested then some (loop_ended s) else none
server_loop ((i, events) ∷ rounds) s =
    let next = main_round i events s >>= (λ s'. server_loop rounds s') in
    if s.shutdown_requested then some (loop_ended s) else next
