-- ===== src/Connection.antt =====
-- The connections of src/server-connection.c and src/server-connection.h, the socket state of
-- src/socket.c that the loops read, and the queues of the three thread pools of src/server-state.h,
-- through which the loops hand connections to one another. A connection is known by its address.
use khttp.Common.{ℕ, ◌+◌, ◌%◌, Bool, true, false, List, [], Bytes}
use khttp.Queue.{Queue, u64_mod, queue_add, queue_item_new2}
use khttp.Http.Request.{Request}
use khttp.Http.Response.{Response}
use khttp.Http.ResponseList.{http_response_list_new}
use khttp.Buffer.{DataBufferList, data_buffer_list_new}
use khttp.Reader.{ParseState, server_parse_status_new}

-- The flags of `socket_info`.
pub record Socket : Type 0 where
  pub closed : Bool
  pub error : Bool

unfoldable pub skt_new : Socket
skt_new = record { closed = false; error = false }

-- An error of close(2) is only warned of.
unfoldable pub skt_close : Socket → Socket
skt_close skt = record skt { closed = true }

pub record Connection : Type 0 where
  pub address : ℕ
  pub id : ℕ
  pub skt : Socket
  pub parse_state : ParseState
  pub pending_requests : List Request
  pub pending_responses : List Response
  pub pending_writes : DataBufferList

-- The counter `nextid` is passed through.
unfoldable pub server_connection_new : ℕ → ℕ → Socket → Connection × ℕ
unfolding server_parse_status_new http_response_list_new data_buffer_list_new
server_connection_new nextid address skt = (
  record {
    address = address;
    id = nextid;
    skt = skt;
    parse_state = server_parse_status_new;
    pending_requests = [];
    pending_responses = http_response_list_new;
    pending_writes = data_buffer_list_new;
  },
  (nextid + 1) % u64_mod,
)

pub data ServerPool : Type 0 where
  pool_read pool_write pool_worker : ServerPool

-- The queues of the pools, and the counter that numbers their items.
pub record Pools : Type 0 where
  pub read : Queue
  pub write : Queue
  pub worker : Queue
  pub nextid : ℕ

unfoldable pub pool_queue : Pools → ServerPool → Queue
pool_queue pools pool_read = pools.read
pool_queue pools pool_write = pools.write
pool_queue pools pool_worker = pools.worker

unfoldable pub set_queue : Pools → ServerPool → Queue → Pools
set_queue pools pool_read q = record pools { read = q }
set_queue pools pool_write q = record pools { write = q }
set_queue pools pool_worker q = record pools { worker = q }

-- `queue_add` of a new item to the queue of a pool, which may wake a thread of that pool.
unfoldable pub pool_add : Pools → ServerPool → Bytes → ℕ → Pools
unfolding pool_queue set_queue queue_add queue_item_new2
pool_add pools pool tag ptr =
    let (item, nextid) = queue_item_new2 pools.nextid tag ptr in
    let (q, _) = queue_add (pool_queue pools pool) item in
    set_queue (record pools { nextid = nextid }) pool q

-- CONN_ENQUEUE
unfoldable pub conn_enqueue : Connection → ServerPool → Bytes → Pools → Pools
unfolding pool_add
conn_enqueue conn pool tag pools = pool_add pools pool tag conn.address
