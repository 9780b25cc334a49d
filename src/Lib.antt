-- ===== src/Lib.antt =====
-- mlxd is a local inference server: an HTTP front on a libuv loop takes OpenAI-style requests, an
-- engine thread owns the model and answers them, and a bounded stream of chunks carries the tokens
-- of each request from the one to the other. A command line reads the options of its commands.
--
-- The engine (src/engine, here Engine):
--   Engine/Stream.antt      src/engine/engine.c, stream_*: the ring, its indices, cancellation, the
--                           reference count and the callback. Laws and Ring are its proofs, Queue is
--                           the bounded FIFO that it is compared with.
--   Engine/World.antt       what a handler on the engine thread sees: the stream, the shutdown flag,
--                           and a schedule that says what consumers, cancels and a shutdown do before
--                           each of its calls. Send, Asked, Triple and Total are the reasoning
--                           rules.
--   Engine/Generate.antt    handle_generate, handle_generate_stub, generate_fail; Generate/Real.antt
--                           is handle_generate_real. Generate/Outcome.antt says how a run on a real model
--                           can end; StubLaws, FailLaws, RealLaws, Total and Deliver are the proofs.
--   Engine/Control.antt     the mailbox, engine_post, engine_post_load, the load state, the loop of
--                           engine_thread_main, shutdown and engine_destroy. Ownership and Loading are
--                           its proofs.
-- The rest of the program's parts:
--   Core/Types.antt         src/core/types.c, finish reasons; Core/Sampling.antt, sampling parameters;
--                           Core/Content.antt, roles and the text of a content.
--   Http/GenRequest.antt    src/http/gen_request.c, a request in flight: the drain of its stream into
--                           the connection (Drain), what is written to it and errors (Respond), the
--                           start (Start), and the teardown that waits for the engine.
--   Http/Router.antt        src/http/router.c, the table of routes; Http/Sse.antt, src/http/sse.c, the
--                           format of server-sent events; Http/Response.antt, src/http/response.c, the
--                           heads of responses.
--   Http/Parser.antt        src/http/conn.c, the callbacks of llhttp and the feed of a connection.
--   Http/Server.antt        src/http/server.c, connections, writes, the stop and its deadline;
--                           Http/Server/Read.antt, reads and dispatch. Draining and Read/Sound are the
--                           proofs on the drain counter.
--   Model/Detok.antt        src/model/detok.c, the incremental detokenizer.
--   Model/TokMap.antt       src/model/tok_map.c, the hash maps of the tokenizer. Probing, Content,
--                           Updates, Growth and Histories are its proofs, Pow2 that of next_pow2.
--   Registry/Spec.antt      src/registry/registry.c, specifiers and cache directories;
--   Registry/Names.antt     the files that are downloaded (with src/registry/hub_client.c) and the ids
--                           that are read from directory names;
--   Registry/Discover.antt  src/registry/discover.c, the models in the caches.
--   Cli/Args.antt           src/cli/args.c, commands and the options of serve, pull and list;
--                           Cli/Args/Run.antt, those of run, with Sound and Validate its proofs.
-- Base is shared: native numbers, lists measured by them, C integers and byte strings.
--
-- A stream function runs under the stream's mutex and is one atomic step. A wait on a condition
-- variable is a result of its own, and the schedule decides when the waiting thread looks again. The
-- schedule is a finite list, and a handler that uses it up has no result; the theorems on generate
-- give the number of turns that always suffices. The prefill loop is recursion on fuel and is
-- given one more than the number of prompt tokens, of which each round takes at least one; the drain
-- loop of a request is given one more than the chunks that are there and that the engine thread can still
-- put on the stream while the loop runs, by a schedule of its own.
-- The read loop of a connection is given one round more than there are bytes, each round takes one at
-- least; a probe of a hash map is given as many rounds as there are slots, of which one is empty; an
-- event has no more lines than bytes and one.
-- C's int and long are the integers of Base/Int; the counters that the code compares with the
-- capacity of a buffer stay natural numbers.
--
-- Parameters stand for what is not in the repository: MLX's tensor operations and failures, the
-- connection's write queue, llhttp, the file system, allocation outcomes, the C library's number
-- parsers; and for the HTTP handlers, the tokenizer's decoding and the prompt builders, which are not
-- modelled. The JSON texts that are written to a connection are constructors here, one for each call
-- of a builder. Not modelled: the numeric content of the forward pass, weight files, tokenizer merges, downloads from the Hub, and
-- logging.
pub mod Base
pub mod Cli
pub mod Core
pub mod Engine
pub mod Http
pub mod Model
pub mod Registry
