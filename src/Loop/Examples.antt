-- ===== src/Loop/Examples.antt =====
-- The theorems on the models of the loops at a concrete connection.
use khttp.Common.{
  ◌≡◌, refl, inr, true, false, none, some, List, [], ◌∷◌, ◌++◌, ◌>>=◌, length, codes,
}
use khttp.Config.{ServerConfig}
use khttp.Http.Response.{http11}
use khttp.Mime.{MimeType}
use khttp.Server.Files.{System, regular}
use khttp.Reader.{
  ParseState, hstate_none, Parser, on_message_begin, on_url, on_headers_complete,
  on_message_complete, server_parse_status_new,
}
use khttp.Reader.Headers.{Fragments, header_events, all_events}
use khttp.Connection.{Connection, Pools}
use khttp.Loop.Worker.{worker_locked}
use khttp.Loop.Worker.Replies.{replies, answered, worker_locked-replies}
use khttp.Loop.Read.{Execution, received, read_blocked, read_loop, Round}
use khttp.Loop.Read.Once.{Announced, read_loop-once, received-Announced}
use khttp.Loop.Read.Whole.{passed, read_loop-whole, OneMessage, request_of}

abbrev sys : System
sys = record {
  realpath = λ p. some p;
  stat = λ p. some regular;
  entries = λ p. none;
  fopen = λ p. some (codes "hello");
  magic = λ p. none;
  parse_url = λ uri. (false, some (0, length uri));
  mtime = λ p. codes "now";
  basename = λ p. p;
  dirindex_page = none;
  error_page = none;
}

abbrev config : ServerConfig
config = record {
  servername = codes "khttp";
  administrator = codes "khttp";
  listen_port = 80;
  hosts = [];
}

abbrev types : List MimeType
types = []

abbrev pools : Pools
pools = record {
  read = record { list = []; count = 0; processing = [] };
  write = record { list = []; count = 0; processing = [] };
  worker = record { list = []; count = 0; processing = [] };
  nextid = 7;
}

abbrev idle_state : ParseState
idle_state = record {
  current_request = none;
  request_complete = false;
  current_header = none;
  header_state = hstate_none;
}

abbrev conn : Connection
conn = record {
  address = 4096;
  id = 1;
  skt = record { closed = false; error = false };
  parse_state = idle_state;
  pending_requests = [];
  pending_responses = [];
  pending_writes = record { buffers = []; back = none };
}

abbrev parser : Parser
parser = record { method = codes "GET"; http_major = 1; http_minor = 1 }

abbrev host_fragments : Fragments
host_fragments = record {
  name = codes "Host";
  more_name = [];
  value = codes "localhost";
  more_value = [];
}

abbrev execution : Execution
execution = record {
  parser = parser;
  events =
      on_message_begin
      ∷ on_url (codes "/")
      ∷ (header_events host_fragments
          ++ (all_events [] ++ (on_headers_complete ∷ on_message_complete ∷ [])));
  parsed_count = 3;
  upgrade = false;
  errno = none;
}

one_message : OneMessage (codes "GET") execution
one_message = record {
  target = codes "/";
  first = host_fragments;
  more = [];
  version = http11;
  speaks = (refl, inr (refl, refl));
  made = refl;
  all_parsed = refl;
  plain = refl;
  fine = refl;
}

read_loop-once_example :
    read_loop none (received (codes "GET") execution ∷ read_blocked ∷ []) conn pools
    ≡ read_loop none (received (codes "GET") execution ∷ []) conn pools
read_loop-once_example =
    read_loop-once none (received (codes "GET") execution) (read_blocked ∷ []) conn pools

idle : idle_state ≡ server_parse_status_new
unfolding server_parse_status_new
idle = refl

worker_locked-replies_example :
    worker_locked sys types config conn pools
    ≡ (replies sys types config conn.pending_requests >>= answered sys types config conn pools)
worker_locked-replies_example = worker_locked-replies sys types config conn pools

abbrev after_read : Round
after_read = passed conn pools (request_of (codes "GET") execution one_message)

received-Announced_example :
    (after_read.ended ≡ true)
    × (after_read.blocked ≡ false)
    × Announced after_read.conn.address after_read.pools
received-Announced_example =
    received-Announced none (codes "GET") execution conn pools after_read
      (read_loop-whole none (codes "GET") execution one_message [] conn pools idle)
