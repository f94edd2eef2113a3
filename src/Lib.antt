-- ===== src/Lib.antt =====
-- The C core of hcurl, a Haskell binding of libcurl whose transfers are driven by one agent thread.
-- The library is in cbits/; the Haskell modules under src/HCurl call it.
--
-- The parts and their files:
-- - Memory: blocks of bytes, `memcpy`, the allocator as an interface with the laws of `malloc` and
--   `realloc`, and the loop that doubles a capacity (cbits/simple_string.c, cbits/headers.c). An
--   access outside a block is `none`.
-- - SimpleString: cbits/simple_string.c, the bounded buffer of a response body. `create`, `write`
--   (`simple_string_writefunc`), `take_buffer` (`simple_string_take`).
-- - Waker: the one-shot wake-up of a blocked Haskell thread (`wake_up_waker` in cbits/extras.c). A
--   wake-up is the call of `hs_try_putmvar` that it makes, as a value.
-- - Headers: cbits/headers.c. Lines classifies header lines, Search is the search for a text,
--   Buffer the growing buffer, Collector the state `HeaderData` and its operations. Below it,
--   Create is about how a collector begins and its snapshot, Invariant about its flags and its
--   waiter, Fields and Blocks about a whole block of lines, Waiters about any sequence of calls.
-- - Ring: an array of slots read round and round, as cbits/stream.c reads its chunks.
-- - Metrics: the counters of cbits/curl_metrics.c, their saturating addition and the snapshot;
--   Doubles has `get_double_info` with the arithmetic of a `double`, Rounding is about that, and
--   Finish has `curl_metrics_finish`.
-- - Sender: the sender of control messages in cbits/message_chan.c: its reference count, its state
--   word, `enqueue_outer_message`. Outcomes is about the answers of that function; Interleaving has
--   the producers and the thread that closes the sender as a step relation, with the mutex and the
--   condition variable on which it sleeps, Protocol its invariant, Closing is about how a close
--   ends; References has those that hold a reference, `message_sender_acquire` and
--   `destroy_message_context`, and Counting is about the count.
-- - Stream: cbits/stream.c. State has the record `Stream` and the helpers under the mutex, Control
--   the operations that send control messages or end a stream, Download libcurl's write callback
--   and the reader, Upload the writer and libcurl's read callback. Stream/Ring and Drain read the
--   array of chunks as a queue; Invariant has the invariant and what a step may do to the bytes;
--   Ends, Inflow, Outflow and Feed take the operations one by one; Bytes runs any sequence of
--   calls; Contract, Signals and Wakes say what callers rely on. Pauses has the threads on a
--   stream, one section under the mutex, one call of the sender or one round of the agent at a
--   time; Sections, Flushing and Queueing take these one by one, Pausing is about all
--   interleavings, Rounds about how a pause ends, Resuming, Quiet, Refining and Callbacks about the
--   functions of Control, Download and Upload as runs of sections; Schedules has an example.
-- - Installs: the functions of cbits/simple_string.c, cbits/headers.c and cbits/stream.c that set
--   the callbacks of an easy handle (`simple_string_install`, `header_data_install`,
--   `hcurl_stream_install_download`, `hcurl_stream_install_upload`,
--   `hcurl_stream_upload_supported`). `curl_easy_setopt` is the record `Libcurl` with the laws that
--   libcurl documents; Outcomes says what they leave in a handle.
-- - Easy: cbits/extras.c without the waker. `EasyData` is the result of a transfer (`create`,
--   `set_result`, `wake`, `destroy`); Release runs any calls on it. Easy/Overlay has the overlay of
--   a header over a borrowed list, Easy/Once libcurl's global initialisation.
-- - Registry: the hash table of transfers in cbits/message_chan.c (`registry_init`,
--   `registry_find`, `registry_insert`, `registry_remove`, `registry_resize`). Mask is about the
--   hash's mask, Chains, Buckets, Moves and Resizing about the table's parts, Map and Client about
--   the finite map that it stands for.
-- - Agent: the rest of cbits/message_chan.c, with `check_multi_info` of cbits/curl_uv.c. Agent.antt
--   has how a transfer ends, Loop the messages, the loop over them and the shutdown, Steps how an
--   agent starts and what may happen to it. Heap, Table and Marks are about the registry as blocks
--   of memory; Ledger counts what the agent owes, Chunks says that its calls come in whole groups,
--   Invariant what holds between its calls; Completion, Execution, Requests, Draining, Shutdown and
--   Dispatch take the operations one by one; Settling runs any sequence of steps, Results follows
--   one result of cbits/extras.c through the calls that the agent makes of it, and Answering says
--   what one message does.
-- - Reactor: cbits/curl_uv.c. Reactor.antt has the contexts of sockets and libcurl's callbacks
--   `curl_socket_function` and `curl_timer_function`, Steps the callbacks of libuv and the
--   shutdown. Safety has the invariant; Flags has what `socket_callback` tells libcurl of a socket;
--   Sockets, Polls and Runs take the operations one by one, Closing and Freeing the shutdown;
--   Events runs libuv's callbacks and the agent's messages in any order.
-- - Options: cbits/options.c, the typed wrappers of `curl_easy_setopt`, as the calls that they
--   make.
--
-- How they interact: libcurl's callbacks write into a collector, a string or a stream; a stream
-- marks its collector as started and complete, counts bytes in its metrics, and asks the agent
-- through its sender to resume or cancel its transfer. A function takes the state and returns it
-- with what it did: the returned value, the wake-ups, the bytes. A section under a mutex is one
-- step: a function runs its sections in a row, and Stream.Pauses interleaves them. `World` is a
-- stream with what its pointers lead to.
--
-- Numbers are natural; a `size_t` keeps its wrap-around written out (`add_size`, `mul_size`). A
-- null pointer, or a null `StablePtr`, is 0 or `none`. The answers of code outside (`malloc`, the
-- queue, `curl_easy_pause`) are arguments: the record `Allocator` with the documented laws, and the
-- record `Answers`.
--
-- Bounds and fuel: the growth loop runs on fuel; the fuel that the code's models pass is enough,
-- since the capacity grows in every round. The agent's loop runs for a number of rounds, and as
-- many as there are messages are enough. Everything else is structural.
--
-- The agent: the calls that it makes of libcurl, of streams and of results are a log, `Effect`. The
-- private pointer of an easy handle, which libcurl keeps, is a function on handles that
-- `curl_easy_setopt` changes. A read of a transfer through such a pointer looks for it among the
-- registered transfers, and is `none` where it is not one of them. Streams are read as the agent
-- finds them when it handles a message.
--
-- The reactor: libuv frees a context in a later callback, which is an event of its own; the calls
-- that libcurl makes while it is driven are a list. That libuv calls back for handles that are
-- there, that `calloc` gives fresh memory and that libcurl forgets a socket before it answers
-- `CURLM_BAD_SOCKET` for it are hypotheses, `AreFair`.
--
-- Doubles: a `double` that is not negative is a number of units of 2 ^ -1074, and products and
-- quotients are rounded to 53 bits, to the nearest and the even one of two. The rounding runs for
-- 2200 halvings, which is more than the bits of any double times a million.
--
-- Not modelled: the functions that only free (`curl_metrics_context_destroy`,
-- `destroy_outer_message`); what is compiled only for libcurl before 7.32.0 (in
-- cbits/curl_metrics.c, before 7.61.0, in cbits/options.c, before 7.49.0); and the Haskell code.
-- The queue in third-party/ is another project's library.
pub mod Prelude
pub mod Memory
pub mod SimpleString
pub mod Waker
pub mod Headers
pub mod Ring
pub mod Metrics
pub mod Sender
pub mod Stream
pub mod Installs
pub mod Easy
pub mod Registry
pub mod Agent
pub mod Reactor
pub mod Options
