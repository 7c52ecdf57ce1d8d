-- ===== src/Lib.antt =====
-- A model of grpc-c, a gRPC library in C, and its correctness theorems.
--
-- The program. A call's metadata (include/grpc/grpc.h, src/enhanced_features.c) are coded by HPACK
-- (src/hpack.c) into the payload of HTTP/2 frames, which a connection sends and receives over a
-- socket (src/http2_transport.c). A connection keeps its streams in an array; flow control
-- (src/flow_control.c) keeps a window for the connection and one for each stream and sends
-- WINDOW_UPDATE frames over the transport. A load-balancing policy (src/load_balancing.c) chooses
-- the address of a server, and a pool (src/connection_pool.c) keeps the connections to the
-- targets, which it creates and destroys by the transport's functions. The results of operations
-- reach the application through a completion queue (src/grpc_core.c); interceptors
-- (src/interceptors.c) run before a call; a registry (src/reflection.c) describes a server's
-- services and methods. A channel (src/grpc_channel.c) owns a connection; each of its calls owns a
-- stream of it and pushes its event to a queue. A server (src/grpc_server.c) owns the sockets of
-- its ports and its worker threads, and its shutdown pushes an event to a queue.
--
-- The files.
--   Common: lists, tests, signed and machine-width integers, bits, strings in memory, results.
--   Metadata: grpc_metadata_array and its operations.
--   Hpack: Integer, Header and Metadata for the three layers of src/hpack.c, each with its laws.
--   Transport: the types of src/grpc_internal.h, the locks, and in Frame the frames on the
--     socket.
--   Wire: metadata from one end of a connection to the other, by Hpack over Transport.
--   Streams: http2_connection_create and _destroy, http2_stream_create and _destroy.
--   FlowControl: the functions of src/flow_control.c under their names without the prefix, with
--     Operations for any sequence of them.
--   Channel: channels and calls, with Calls for what they do to the streams, and Lifecycle for the
--     calls of the library as steps, those of the flow control among them.
--   Blocks: blocks of the heap by their addresses, for what destruction frees: Destroy under
--     LoadBalancing, NameResolver, Reflection and Observability, and Release under Messages.
--   Nodes: nodes of linked lists at addresses in memory, and what a list owns of it.
--   LoadBalancing: round robin, pick first and weighted, with a child for the laws of each.
--   ConnectionPool: get, return, cleanup, a round of the keep-alive thread and the destruction.
--   CompletionQueue: the queue as a list of events, with Linked for its linked list in memory and
--     Deadline for grpc_timeout_milliseconds_to_deadline.
--   Interceptors: the chain of the client, which the server's copies but for the context's type,
--     as a list of interceptors, and in Linked as the linked list in memory.
--   Reflection: the registry, with Lookup and Names for what it answers.
--   Targets: strchr and atoi on the address of a server, which Server and NameResolver use.
--   NameResolver: src/name_resolver.c, with Resolution for what its addresses are.
--   Server: src/grpc_server.c; Ports and Success for the sockets, Lifecycle for the calls as
--     steps, Worker for the thread.
--   Observability: src/observability.c; Metrics, Tracing and Logger.
--   Tls: src/grpc_tls.c; Alpn, Context and Connection.
--   Compression: src/compression.c over the Interface of zlib.
--   Messages: src/grpc_protobuf.c, src/grpc_credentials.c, byte buffers and the flag of
--     grpc_init.
--   HealthCheck: streaming calls and the health check of src/enhanced_features.c.
--
-- Conventions. A function that returns -1 or NULL gives `none`, or the status `failure` with the
-- state that it leaves. State is passed on explicitly. Whether a heap request succeeds is told by
-- a function on the number of the request, what send and recv transfer by a function on the number
-- of the call, and the time and rand by parameters, so that the theorems hold for all of them. An
-- operation's own object is not NULL; the guards on other NULL arguments are modelled. A lock is a
-- truth value in the state: to lock it twice is the result `deadlock`, as is to join a worker
-- before the flag that ends it is set; to use a freed object or to read past a block is `fault`. An operation under one lock is one step; where other threads act in between, as in the
-- wait of the completion queue, their actions are a list.
--
-- Bounds and fuel. The loop of the integer encoder descends on its value by accessibility. The
-- loop over an encoded block has the length of the block as fuel, which is enough since each field
-- takes a byte; the ALPN callback has one round for each byte and one more; the loop of the
-- decompression has twice the work of the stream; a worker needs one round for each time it finds
-- the flag of the shutdown not set; a walk over a linked list in memory has a round for each of
-- its nodes; the other loops descend on lists or on the number of rounds
-- that the code counts. A `uint32_t`, an `int32_t` and the `uInt` of zlib wrap as in C, and atoi
-- gives an int; sizes and counts are natural numbers. The buffers of HPACK are shorter than 2 ^ 31
-- bytes, as its int results need, and a round trip over zlib is stated for sizes that no uInt cuts.
--
-- Not modelled: the static table of HPACK, which the code does not read; what is printed to stderr;
-- the buffers and strings of a stream or a call that its destruction only frees. An interceptor, a
-- log handler, an exporter and a custom resolver run under the lock of their owner, and do not call
-- it here. The system calls, OpenSSL, zlib and protobuf-c are parameters: what the source relies
-- on is a hypothesis, such as ZlibLaws, that a concrete instance in the tests meets.
pub mod Common
pub mod Metadata
pub mod Hpack
pub mod Transport
pub mod FlowControl
pub mod Streams
pub mod LoadBalancing
pub mod ConnectionPool
pub mod CompletionQueue
pub mod Interceptors
pub mod Reflection
pub mod Blocks
pub mod Channel
pub mod Targets
pub mod NameResolver
pub mod Server
pub mod Nodes
pub mod Observability
pub mod Tls
pub mod Wire
pub mod Compression
pub mod Messages
pub mod HealthCheck
