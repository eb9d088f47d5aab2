-- ===== src/Lib.antt =====
-- A model of KHttpd, a threaded HTTP server in C.
--
-- The main loop (src/server-loop.c) waits for events and puts connections (src/server-connection.c)
-- into the queues (src/queue.c) of three pools of threads (src/thread-pool.c). A reader
-- (src/server-loop-read.c) hands the socket's bytes to the vendored HTTP parser, whose callbacks
-- (src/http-reader.c) build requests. A worker (src/server-loop-worker.c) hands a request and the
-- configuration (src/config.c) to server_process_request (src/http-server.c), and gets a response
-- (src/http.c) with a body (src/http-body.c), which a writer (src/server-loop-write.c) prints into
-- buffers (src/data-buffer.c) and sends. Text helpers stand in src/util.c, the content types of
-- files in src/mime.c, and the logs in src/log.c.
--
-- Which file models which part. A definition has the name of the function or type that it models,
-- and a part of a function is a helper beside it.
-- - Common: names of the libraries, Boolean tests, lists, and texts as lists of bytes without their
--   NUL.
-- - Util: str_replace (Replace), str_trimwhitespace (Trim) and str_splitlines (Lines) of src/util.c.
-- - Queue: src/queue.c. An item is named by its id, which stands for its address, and `data` is the
--   number `ptr`. A region under the lock is one step, and what it signals is a list.
-- - Http: src/http.c and src/http.h, with Method, Header, Response, Chunk (http_chunks_write), Builtin
--   (http_response_create_builtin) and Request; Body is src/http-body.c, with the pointer of the union
--   NULL, live or freed.
-- - Buffer: src/data-buffer.c. A list has its buffers in order and where the `next` of the last leads.
-- - Config: src/config.c. Handler is the callback of the INI parser, whose calls are a list.
-- - Reader: the callbacks of src/http-reader.c and the parse state of src/server-connection.c. The
--   parser's calls are a list of events.
-- - Mime: look-up of a content type in src/mime.c; Load is mime_load.
-- - Server: src/http-server.c: Files (server_determine_file and server_find_directory_index), Filesize
--   (server_get_filesize), Listing (server_generate_directory_index) and Process
--   (server_process_request). What the operating system, libmagic and the URL parser answer is a
--   record of functions, `System`.
-- - Connection: the connections of src/server-connection.c, the flags of a socket, and the queues of
--   the pools, with CONN_ENQUEUE.
-- - Loop: Main is src/server-loop.c with the state of src/server-state.h; Read, Worker and Write are
--   what the three loops of the pools do with one item while they hold the connection's lock.
-- - ThreadPool: src/thread-pool.c, where 64-bit integers are bit patterns.
-- - Log: src/log.c; what is written into the pipes of the logs is a list.
-- The other modules below these hold proofs, and each Examples holds tests and the theorems at
-- concrete inputs.
--
-- Faults (a NULL or freed pointer that is read, a failed assertion, an access out of bounds) are a
-- result `none`. Counters wrap at their width: 64 bits for the queue's counter and ids, 32 for the
-- content length, 16 for a port.
--
-- Bounds. str_replace goes round 1000 times at most in the code too. The loop over chunks has the
-- source's length as fuel, and each round takes a byte at least; so has the loop that allocates
-- buffers. Printing a number has fuel for 64 digits, which suffices for 64-bit numbers in any base.
-- server_get_filesize goes round seven times at most, since it stops when size_i is above five. A run
-- of http_body_writeto_fd or data_buffer_list_writeto_fd is over the list of answers of write(2), and a
-- run that is still waiting has no result. The write loop has fuel, since it need not end; the main
-- loop is over the list of its calls of epoll_wait, the management loop of a pool and its
-- wait for an empty queue over the sizes of the queue that they see. A wait in the queue is over the list of states that other threads bring
-- about.
--
-- Not modelled: start-up and shut-down of the server (src/server.c, src/server-state.c,
-- src/main.c), the wrappers of system calls in src/socket.c and src/server-socket.c. Functions
-- that only free memory have no definition. Running out of memory ends the program and is left
-- out. The libraries under lib are parameters or lists of calls.
pub mod Common
pub mod Util
pub mod Queue
pub mod Http
pub mod Config
pub mod Reader
pub mod Mime
pub mod Server
pub mod Buffer
pub mod Connection
pub mod Loop
pub mod ThreadPool
pub mod Log
