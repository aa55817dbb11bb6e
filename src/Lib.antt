-- ===== src/Lib.antt =====
-- The WormWire clients of WormDB, in TypeScript, and the wire format that they share with the
-- server.
--
-- A client talks to the server over one TCP connection. Commands go out and responses come in as
-- frames of a code byte, a big-endian 32-bit length and a payload. There are no request ids: the
-- n-th response answers the n-th request, and EVENT frames are pushed in between.
--
-- Text        encodeUtf8 and decodeUtf8 of apps/bun/src/lib/wire.ts. A string is its UTF-16 units.
-- Wire        apps/bun/src/lib/wire.ts. Bytes: DataView and Uint8Array accesses. Command:
--             ParsedCommand of command.ts. Encode: encodeCommandFrame, encodeAuth, encodeVdelete,
--             encodeSave, each as buffers that are filled at offsets; Format says declaratively what
--             they should write. Frame: tryConsumeFrame and the loop that takes frames off the
--             received bytes. Response: decodeResponse, and writeResponse of
--             src/protocol/wire.zig. Server: readFrameAlloc and parseCommandPayload of wire.zig.
-- Link        writeOrQueue and flushBacklog of client.ts and wormdb.ts. What the socket answers to
--             its n-th write is a parameter: how many bytes it takes, or a failure.
-- Client      WormClient of apps/bun/src/lib/client.ts with keepAlive. Promises are ids; a record of
--             the settled ones stands for the calls of resolve and reject. Callbacks are events, and
--             a run is any sequence of them. An `await` of a socket that is there is no event of its
--             own, and the requests that wait for a dial, also for one of several at once, are in
--             one list.
-- Managed     WormDB of apps/bun/src/lib/wormdb.ts in the same way: dialling, onOpen, reconnecting
--             with its backoff, authentication, subscriptions and their events, timeouts, close.
--             The jitter of the backoff is left out, and so is the clock.
-- OneShot     WormClient without keepAlive, sendOneShotParsed of client.ts.
-- Api         The typed calls of WormDB: the commands that they send, with their defaults and
--             positional arguments, what they make of responses, and the queue of `events`.
-- Browser     apps/browser/src/wire.ts, the encoder and decoder of the browser client; in
--             Browser/Client its WormDB, apps/browser/src/client.ts: connecting and reconnecting,
--             requests, events, close, and the choice of the fastest node. A continuation behind an
--             `await` is an event of its own.
-- TextCommand parseCommand of apps/bun/src/lib/command.ts, from text to a ParsedCommand.
-- Dashboard   apps/bun/src/bin/ui.ts, the server of the web dashboard: its pool of endpoints with
--             failover, the peers it learns of, its subscription to events, its container calls.
-- AgentMemory MemClient of examples/agent-memory/client/mem.ts, against the arguments that memAdd of
--             src/procedures/memory.zig reads.
-- TextProtocol parseSingleResponse of apps/bun/src/lib/protocol.ts, for text responses.
-- Workload    runWorkload of apps/bun/src/lib/bench/runner.ts, the workers of a benchmark.
--
-- Base has the results, the tests on numbers and the list lemmas that the others share.
--
-- The receive loop runs on fuel, one more than the bytes it holds, which is enough since each frame
-- takes five bytes at least. Payload lengths are limited as in the source, by MAX_PAYLOAD for
-- commands, and by the 32-bit length for responses.
--
-- Not modelled: the clocks of pings and probes, the routes of the dashboard that only pass on a
-- response or spawn a process, the other command-line tools, the user interfaces in the browser, the
-- scenarios of the benchmarks, and all of the server but its wire format and the arguments of
-- mem_add. JSON texts are passed on as texts; toUpperCase and Number are parameters.
pub mod AgentMemory
pub mod Api
pub mod Base
pub mod Browser
pub mod Client
pub mod Dashboard
pub mod Link
pub mod Managed
pub mod OneShot
pub mod Text
pub mod TextCommand
pub mod TextProtocol
pub mod Wire
pub mod Workload
