-- ===== src/Loop/Worker/Replies.antt =====
-- The worker loop of src/server-loop-worker.c as one map over the pending requests.
use khttp.Common.{
  ◌>>=◌, ℕ, zero, suc, ◌≡◌, refl, sym, ap, Option, some, List, [], ◌∷◌, ◌++◌, append-nil,
  append_assoc, length, codes, bind_cong, bind_assoc, ◌∙◌,
}
use khttp.Config.{ServerConfig}
use khttp.Http.Response.{Response}
use khttp.Http.Request.{Request}
use khttp.Mime.{MimeType}
use khttp.Server.Files.{System}
use khttp.Connection.{Connection, Pools, pool_write, pool_add}
use khttp.Loop.Worker.{answer, worker_requests, worker_locked}

-- The item that tells the writers of a response, once for each of `n` responses.
abbrev pub announce : ℕ → ℕ → Pools → Pools
announce zero address pools = pools
announce (suc n) address pools =
    announce n address (pool_add pools pool_write (codes "RESP") address)

module _ (sys : System) (types : List MimeType) (config : ServerConfig) where
  -- A reply to each request, in order, unless one of them faults.
  abbrev pub replies : List Request → Option (List Response)
  replies [] = some []
  replies (request ∷ requests) = do
    resp ← answer sys types config request
    resps ← replies requests
    some (resp ∷ resps)

  abbrev pub answered : Connection → Pools → List Response → Option (Connection × Pools)
  answered conn pools resps = some (
    record conn { pending_requests = []; pending_responses = conn.pending_responses ++ resps },
    announce (length resps) conn.address pools,
  )

  one_more :
      (resp : Response) (requests : List Request) (conn : Connection) (pools : Pools)
      → (replies requests
          >>= answered
              (record conn { pending_responses = conn.pending_responses ++ resp ∷ [] })
              (pool_add pools pool_write (codes "RESP") conn.address))
        ≡ ((replies requests >>= (λ resps. some (resp ∷ resps))) >>= answered conn pools)
  one_more resp requests conn pools =
      bind_cong (replies requests) (λ resps.
        ap
          (λ all. some (
            record conn { pending_requests = []; pending_responses = all },
            announce (length (resp ∷ resps)) conn.address pools,
          ))
          (append_assoc conn.pending_responses (resp ∷ []) resps))
      ∙ sym (bind_assoc (replies requests) (λ resps. some (resp ∷ resps)) (answered conn pools))

  worker_requests-replies :
      (requests : List Request) (conn : Connection) (pools : Pools)
      → worker_requests sys types config requests
          (record conn { pending_requests = requests })
          pools
        ≡ (replies requests >>= answered conn pools)
  unfolding worker_requests
  worker_requests-replies [] conn pools = rw append-nil refl
  worker_requests-replies (request ∷ requests) conn pools =
      bind_cong (answer sys types config request) (λ resp.
        worker_requests-replies requests
          (record conn { pending_responses = conn.pending_responses ++ resp ∷ [] })
          (pool_add pools pool_write (codes "RESP") conn.address)
        ∙ one_more resp requests conn pools)
      ∙ sym (bind_assoc (answer sys types config request) _ (answered conn pools))

  -- One run of the worker loop on a connection answers every pending request, in the order in which
  -- they arrived, leaves no request pending, and puts the replies, one for each request, behind the
  -- responses that were pending, with one item for the writers for each reply. It faults exactly when
  -- the processing of one of the requests faults.
  pub worker_locked-replies :
      (conn : Connection) (pools : Pools)
      → worker_locked sys types config conn pools
        ≡ (replies conn.pending_requests >>= answered conn pools)
  unfolding worker_locked
  worker_locked-replies conn pools = worker_requests-replies conn.pending_requests conn pools
