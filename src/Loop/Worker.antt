-- ===== src/Loop/Worker.antt =====
-- The loop of src/server-loop-worker.c: what a worker thread does with one item of its queue. `none`
-- is a fault, as it is in `server_process_request`.
pub mod Replies
use khttp.Common.{◌>>=◌, false, Option, none, some, List, [], ◌∷◌, Bytes, codes}
use khttp.Config.{ServerConfig}
use khttp.Http.Header.{http_header_new, http_header_list_add}
use khttp.Http.Response.{Response, header_connection}
use khttp.Http.ResponseList.{http_response_list_append}
use khttp.Http.Builtin.{http_response_create_builtin}
use khttp.Http.Request.{Request}
use khttp.Mime.{MimeType}
use khttp.Server.Files.{System}
use khttp.Server.Process.{server_process_request}
use khttp.Connection.{Connection, Pools, pool_write, conn_enqueue}

-- The reply in place of a NULL.
unfoldable pub reply_or_500 : Option Bytes → Option Response → Option Response
reply_or_500 page (some resp) = some resp
reply_or_500 page none = do
  resp ←
      http_response_create_builtin page 500 (some (codes "Request did not complete successfully"))
  hs ←
      http_header_list_add resp.headers (http_header_new header_connection (some (codes "Close")))
        false
  some (record resp { headers = hs })

module _ (sys : System) (types : List MimeType) (config : ServerConfig) where
  -- `server_process_request` always returns a response where it returns.
  unfoldable pub answer : Request → Option Response
  unfolding reply_or_500
  answer request = do
    resp ← server_process_request sys types config request
    reply_or_500 sys.error_page (some resp)

  -- The loop over `pending_requests`, each taken from the front.
  unfoldable pub worker_requests : List Request → Connection → Pools → Option (Connection × Pools)
  unfolding answer http_response_list_append conn_enqueue
  worker_requests [] conn pools = some (conn, pools)
  worker_requests (request ∷ requests) conn pools = do
    resp ← answer request
    worker_requests requests
        (record conn {
          pending_requests = requests;
          pending_responses = http_response_list_append conn.pending_responses resp;
        })
        (conn_enqueue conn pool_write (codes "RESP") pools)

  -- What the loop does while it holds the connection's lock.
  unfoldable pub worker_locked : Connection → Pools → Option (Connection × Pools)
  unfolding worker_requests
  worker_locked conn pools = worker_requests conn.pending_requests conn pools
