-- ===== src/Loop/Main/Examples.antt =====
-- The theorems on the model of src/server-loop.c at a concrete state.
use khttp.Common.{◌≡◌, refl, true, false, none, some, List, [], ◌∷◌, arith, All, codes}
use khttp.Queue.{QueueItem}
use khttp.Reader.{ParseState, hstate_none}
use khttp.Connection.{Connection, pool_read, pool_write, pool_worker, Pools, pool_queue}
use khttp.Loop.Main.{ServerState, EpollEvent, connection, handle_event, clean_up}
use khttp.Loop.Main.Known.{is_client, Pointing, Idle, quiet, Open, clean_up-Pointing}
use khttp.Loop.Main.Events.{PointsIn, Expected, of_client, handle_event-PointsIn}

abbrev idle_state : ParseState
idle_state = record {
  current_request = none;
  request_complete = false;
  current_header = none;
  header_state = hstate_none;
}

abbrev conn : Connection
conn = record {
  address = 4096;
  id = 1;
  skt = record { closed = false; error = false };
  parse_state = idle_state;
  pending_requests = [];
  pending_responses = [];
  pending_writes = record { buffers = []; back = none };
}

abbrev dead : Connection
dead = record conn { address = 8192; id = 2; skt = record { closed = false; error = true } }

abbrev item : QueueItem
item = record { id = 3; tag = codes "READ"; blocked = true; ptr = 4096 }

abbrev pools : Pools
pools = record {
  read = record {
    list = item ∷ record item { id = 4; ptr = 8192 } ∷ [];
    count = 2;
    processing = [];
  };
  write = record { list = []; count = 0; processing = [] };
  worker = record { list = []; count = 0; processing = [] };
  nextid = 7;
}

abbrev state : ServerState
state = record {
  started = true;
  stopped = false;
  shutdown_requested = false;
  clients = conn ∷ dead ∷ [];
  pools = pools;
  nextid = 3;
}

pools-Idle : Idle pools
unfolding pool_queue
pools-Idle pool_read = refl
pools-Idle pool_write = refl
pools-Idle pool_worker = refl

pools-Pointing : Pointing (is_client state.clients) pools
unfolding pool_queue
pools-Pointing pool_read = (refl, (refl, tt))
pools-Pointing pool_write = tt
pools-Pointing pool_worker = tt

clean_up-Pointing_example :
    (cs' : List Connection) × (pools' : Pools) × (clean_up quiet state.clients pools
      ≡ some (cs', pools'))
    × All Open cs'
    × Pointing (is_client cs') pools'
clean_up-Pointing_example = clean_up-Pointing state.clients pools pools-Idle pools-Pointing

abbrev readable : EpollEvent
readable = record {
  source = connection 4096;
  epollerr = false;
  epollrdhup = false;
  epollin = true;
  epollout = false;
}

readable-Expected : Expected state readable
readable-Expected = of_client 4096 refl (omega arith) refl

handle_event-PointsIn_example :
    (s' : ServerState) × (handle_event readable [] state ≡ some s') × PointsIn s'
handle_event-PointsIn_example =
    handle_event-PointsIn readable [] state readable-Expected pools-Pointing
