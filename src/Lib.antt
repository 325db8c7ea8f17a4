-- ===== src/Lib.antt =====
-- Code Bridge: clients that stream the console, errors, navigation and network traffic of a running
-- program to a local host, and a consumer that shows what the host sends to a language model.
--
-- The parts and how they interact:
--   * `startBridge` (src/client.ts) decides whether the bridge is on (src/platform.ts tells where it
--     runs), patches the runtime, keeps breadcrumbs, throttles (src/throttle.ts), and hands events
--     to `BridgeWebSocket` (src/websocket.ts), which queues them, redacts them, keeps the connection
--     alive and opens it again.
--   * the host (bin/code-bridge-host.js) holds the lock of a workspace, tells its port and secret in
--     a metadata file, and routes the messages of bridges, which come by socket or by HTTP, to the
--     consumers that subscribed, and control requests back; src/host-utils.ts has the tests of
--     level and capability once more.
--   * the MCP wrapper reads its options (src/mcp/cli.ts, src/mcp/config.ts), connects as a consumer
--     (src/mcp/consumer.ts), buffers what arrives (src/mcp/event-buffer.ts), and serves it as
--     resources and tools (src/mcp/server.ts, src/mcp/mappers.ts, src/mcp/validation.ts).
--
-- Which file models what; a function has the source's name in this library's spelling:
--   Base, Js      what the language brings: lists, lower case, numbers, values of `any`
--   Protocol      src/types.ts            Constants   src/constants.ts
--   Socket        the ready states of a socket, with `close`
--   WebSocket     src/websocket.ts: the record Bridge is the state of BridgeWebSocket, with what it
--                 has sent; WebSocket.Redact has validateAndRedact and redactObject; WebSocket.Events
--                 has the calls and callbacks in any order, with the time of each
--   Throttle      src/throttle.ts         HostUtils   src/host-utils.ts
--   Platform      src/platform.ts
--   Client        src/client.ts: the options, addBreadcrumb, sendEvent; Client.Handlers the handlers
--                 and the functions of the connection; Client.Serialize safeSerialize, on
--                 values whose arrays and objects have an identity; Client.Network the sinks that
--                 share one patch of node's requests, Client.Requests a request that is wrapped,
--                 Client.Meta the search for a host
--   Host          bin/code-bridge-host.js: the record Host is the state of startServer, with what was
--                 sent; sockets and HTTP sessions are numbers. Host.Levels and Host.Routing decide who
--                 gets a message, Host.Bridges and Host.Consumers have the messages of each role,
--                 Host.Messages the handlers of a socket, Host.Http the endpoints, Host.Runs all of
--                 them in any order; Host.Lock the files of the start, Host.Ports the port
--   Mcp.EventBuffer  src/mcp/event-buffer.ts
--   Mcp.Consumer     src/mcp/consumer.ts: promises are numbered as they are made, `settled` logs how
--                    they end, `timers` and the lists of waiting promises hold what can still end
--                    them; Mcp.Consumer.Runs has the calls and callbacks in any order
--   Mcp.Validation   src/mcp/validation.ts   Mcp.Config   src/mcp/config.ts
--   Mcp.Cli          src/mcp/cli.ts          Mcp.Mappers  src/mcp/mappers.ts
--   Mcp.Server       src/mcp/server.ts
-- The other modules under these hold lemmas and theorems, and a Tests module runs the definitions.
--
-- Loops are structural recursion on the list that they go through, or on an index or a depth that
-- is given, so no fuel is needed; the search for a port has fuel for every port, and ends before it.
-- A handler of the host that throws keeps what it did up to there. Numbers that the sources only
-- count with are natural numbers; a number from outside is a `Number`: an integer, an infinity or
-- NaN, with no fractions. Lower case is exact for the words that the sources compare with.
-- Messages are UTF-16 code units. Unions of string literals are texts. Events come in any order
-- that the guards of Events and Runs allow, which covers more orders than a runtime can produce.
--
-- Not modelled: serialising to JSON and parsing, the sockets and timers themselves, the SDK of the
-- MCP server and its transport, reading files, and `Number` of a text, which is a parameter. Of
-- src/client.ts the patches of fetch and XMLHttpRequest; of the host its log, its command line, and
-- its shutdown; the clients in other languages, the demos and tools.
pub mod Base
pub mod Js
pub mod HostUtils
pub mod Throttle
pub mod Protocol
pub mod Constants
pub mod Socket
pub mod WebSocket
pub mod Mcp
pub mod Platform
pub mod Client
pub mod Host
