-- ===== src/Lib.antt =====
-- WireRift's wire protocol, its stream multiplexer, and its tunnel server.
--
-- WireRift tunnels local services through a server. Between client and server there is one
-- connection, which carries frames (internal/proto). A multiplexer at each end (internal/mux)
-- turns the frames into streams: its read loop hands each frame to a handler, a handler changes a
-- stream or the registry of streams and may send frames, and the program reads, writes, opens,
-- accepts, closes and resets streams. A stream's data waits in a ring buffer until it is read,
-- and window updates give the sender credit for what was read. The server (internal/server) lets
-- clients log in with a token (internal/auth), which starts a session; a session asks for HTTP
-- tunnels under public names and for TCP tunnels on ports, and its end frees them.
--
-- - Prelude: the Boolean tests, lists over the native numbers, and bits.
-- - Proto: internal/proto. Io has what the codec uses of Go's io: a reader is the bytes that it
--   will still deliver, a writer is what was sent and the room before the connection breaks.
--   Types has constants.go, Frame has frame.go (`encode` is Frame.Encode, `read_frame` ReadFrame),
--   Heartbeat the payload of heartbeats in messages.go.
-- - Mux.Ring: internal/mux/ringbuffer.go. `write` and `read` are its methods, with the loops of
--   Write and of growLocked written as recursion on the bytes that are left, which is fuel enough
--   since each round moves at least one. Queue is the abstract view: a bounded queue of bytes.
-- - Mux.Stream, Mux.Methods, Mux.Transfer: internal/mux/stream.go. Stream has the fields and what
--   the methods do to them, Methods the methods that reach the multiplexer, Transfer has Read and
--   Write. Read has three rounds, since its token and the end of the connection are each seen
--   once; Write has two more rounds than bytes.
-- - Mux.State, Mux.Handlers: internal/mux/mux.go. Stream objects live on a heap and the registry
--   maps IDs to their handles, so a stream that was removed can still be read, as in Go.
-- - Mux.Flow: two peers of a stream, with frames and window updates in flight, as a step relation.
-- - Mux.Registry: the invariant of the registry; Steps has every operation as a step.
-- - Mux.Run: the read loop, Mux.Run in mux.go, over the bytes that the connection delivers. It has
--   one more round than there are bytes, and each frame takes at least one.
-- - RateLimit: internal/ratelimit/ratelimit.go, with float64 arithmetic taken as exact. WaitN's loop
--   has as many rounds as the caller gives; Waiting says how many are enough.
-- - Server: Pending is internal/server/pending.go (slots of connections that have not
--   authenticated), Budget bodybudget.go (the cap on buffered bodies), Pin pin.go (the guard
--   against guessing PINs), Held offline.go (names held for dropped clients), CustomDomain
--   customdomain.go. The rest is server.go: Names has the keys and URLs of tunnels, Ports
--   allocatePort and listenTunnelPort, whose loops have as many rounds as Go's.
-- - Server.Tunnels: the server's state with its sessions and tunnels. Login has handleAuth, Create
--   handleTunnelRequest with createHTTPTunnel, takeOver and createTCPTunnel, Close closeTunnel,
--   removeSession and what calls them. Linked ties public names to the tunnels of live sessions:
--   Adds and Ends are the two changes that matter, Claims the states between, Changes all that a
--   request does to the sessions. Runs has every operation as a step.
-- - Server.Edge: where a request's host leads, extractSubdomain and the look-up of handleHTTPRequest
--   in http_edge.go, with the look-ups by host of customdomain.go. Access has the rest of that
--   handler up to the call of forwardHTTPRequest, with isIPAllowed, checkBasicAuth and pin.go's
--   checkPIN.
-- - Auth: internal/auth. Auth.antt has auth.go's manager and its tests of a token, File the token
--   file of store.go and what ApplyTokenFile does with it.
-- - Utils: the test of a subdomain and the reserved names, internal/utils/utils.go.
-- - Examples: the theorems at concrete inputs.
--
-- A method that takes a lock is one step here, and so is a load followed by a compare-and-swap of
-- the same field. handleStreamOpen and OpenStream are one step each as well, although no lock keeps
-- them apart, and so are a tunnel request, a login and the removal of a session. Go's int and int32
-- are natural numbers where the code keeps them from overflowing and from falling below 0: windows
-- are at most 16 MB. Where a uint32 or uint64 is shifted or cut, the wrap-around is written out.
--
-- Strings are lists of bytes, and Go's maps are association lists or functions; times are natural
-- numbers of nanoseconds, and the clock is a parameter of what reads it.
--
-- Not modelled: encoding/json, whose outcome is the parameter Codec or a decoded request; SHA-256,
-- HMAC, DNS, net's SplitHostPort, ParseIP and ParseCIDR, strings.ToLower and strings.TrimSpace,
-- which are parameters; files, sockets and their deadlines; goroutines and timers, which are steps
-- at any time; log messages and the counters of traffic; and the rest of the repository (the
-- listeners, lists and statistics of internal/server/server.go, the proxies, internal/client,
-- internal/tls, internal/dashboard, internal/diag, cmd).
pub mod Prelude
pub mod Proto
pub mod Mux
pub mod Auth
pub mod RateLimit
pub mod Server
pub mod Utils
pub mod Examples
