-- ===== src/Lib.antt =====
-- The game gateway: a server that takes the connections of game clients (TCP and WebSocket), reads
-- a first packet, picks a backend by the server id in it, and forwards the packets both ways.
--
-- A new connection passes the limit on all connections and the limits of its address, and gets a
-- session id. Its first packet names a server type and a world; the router picks an endpoint, the
-- endpoint's breaker is asked, and a connection is taken from the endpoint's pool, with retries that
-- tell the breaker how they end; in gRPC mode the backend is reached by a stream that all clients share
-- instead. The session is then in the session table until it ends or is idle
-- for too long. The configuration sets the limits.
--
-- Which file models which part, with the source's files from the repository's root:
--   Prelude     names of the libraries passed on; lists, maps, sets, integers, decimal and CRC-32
--               texts, bytes, and reads from a stream that ends
--   Breaker     internal/circuitbreaker/breaker.go (Allow, RecordSuccess, RecordFailure);
--               Breaker.Table is the table of internal/gateway/breaker.go
--   Limiter     internal/ratelimit/limiter.go (Allow, Release), one atomic access at a time
--   IpLimiter   internal/ratelimit/ip_limiter.go (Allow, Release, cleanup, GetStats)
--   Router      internal/router/router.go (UpdateRule, RemoveRule, GetRule, RouteByServerID)
--   Session     internal/session/session.go (Add, Get, Remove, UpdateLastActive, CleanupIdle, ...)
--   Pool        internal/pool/pool.go (Get, Put, Remove, Cleanup, Stats, Close);
--               Pool.Manager is internal/pool/manager.go
--   Packet      internal/protocol/packet.go, the client's packets; Packet.Server has the server's
--               messages of packet.go and server_packet.go
--   SessionId   internal/gateway/gateway.go (generateSessionID, ParseSessionID)
--   Retry       internal/retry/retry.go (Do)
--   Config      internal/config/config.go (Load, setDefaults, validateConfig); its structures are
--               in Config.Schema
--   WebSocket   internal/protocol/websocket_conn.go (readFrame, nextDataPayload, writeFrame); Read,
--               Write and Close are in WebSocket.Reader
--   Sniffer     internal/protocol/sniffer.go (Sniff)
--   Accept      internal/gateway/gateway.go (acceptLoop, processConnectionQueue)
--   Handshake   internal/gateway/gateway.go (handleHTTPConnection, handleWebSocketConnection)
--   Forward     internal/gateway/gateway.go (forwardConnection), both loops
--   Discovery   internal/consul/discovery.go (DiscoverServices) and internal/gateway/gateway.go
--               (mergeConsulEndpoints, onRoutingRulesUpdate, onConsulServicesUpdate,
--               loadConfigFromRedis)
--   Transport   internal/transport/grpc/manager.go (getClient, Send, recvLoop, Close);
--               Transport.Reconnect is reconnect
--   GrpcMode    internal/gateway/gateway_grpc.go (handleGrpcPacket, handleServerDisconnect,
--               sendToSession, forwardGrpcConnection) and connection_notify.go
--   Gateway     internal/gateway/gateway.go (New, handleConnection) and config_reload.go
--               (UpdateConfig); Gateway.Establish is handleTCPConnection, Gateway.Lifecycle the
--               connections side by side, Gateway.Reload internal/config/hotreload.go. It is made
--               of Limiter, IpLimiter, Router, Breaker, Retry, Pool, SessionId, Session and Packet.
-- The file of a part has its state as a record and its operations as functions that take the state
-- and return the new one; the files below it have the proofs, and Examples the runs at concrete
-- inputs. An operation that reads the clock takes the time, or a sequence of readings.
--
-- Bounds: widths are written out where a value can leave them (the header's 32-bit length, the
-- 64-bit session ids and backoffs, the wrapping counter of the router). Counters of calls that no
-- run can take to 2 ^ 63 are natural numbers.
--
-- Fuel: `Pool.cleanup` has a round for each receive from the channel, of which the source makes any
-- number. `WebSocket.next_data_payload` has a round for each frame, which takes at least two bytes
-- of the stream, so that its caller gives it one round more than there are bytes. The loop of
-- `WebSocket.Reader.read` has a round for each payload. The loop of `generate_session_id` runs over
-- the readings of the clock. The forwarding loops have a round for each packet, which takes bytes of
-- the stream. `Transport.Reconnect.reconnect` has a round for each wait.
--
-- Parameters: reading a file and parsing YAML, the outcome of a dial, the function that is retried
-- and its context, the mapping to lower case in the sniffer, the answers of Consul, of the goroutine
-- pool and of gRPC's dials and sends, the hash of an address, the reading of an HTTP request, SHA-1
-- and base64.
--
-- Not modelled: the servers of metrics and health, and the access log; the outputs (logs, metrics, traces), the clients of Redis and Consul,
-- the generated code, the entry point and the load test, which hold no logic of the gateway or only
-- call libraries. Where an operation is one function, no other goroutine's part comes between its
-- accesses. That is so under the one lock of Router, IpLimiter and each shard of Session; the
-- breaker loads and stores its fields one by one without a lock, and its calls are taken one behind
-- the other. The parts of several goroutines come in any order in Limiter, Transport, Accept, Gateway
-- (where the two limits of a connection and the set-up of their releases are one part) and
-- Pool.Interleaving; SessionId.Overlap has one round within another.
pub mod Prelude
pub mod Breaker
pub mod Limiter
pub mod IpLimiter
pub mod Router
pub mod Session
pub mod Pool
pub mod Packet
pub mod SessionId
pub mod Retry
pub mod Config
pub mod WebSocket
pub mod Sniffer
pub mod Forward
pub mod Discovery
pub mod Transport
pub mod GrpcMode
pub mod Accept
pub mod Gateway
pub mod Handshake
