-- ===== src/Lib.antt =====
-- The Longbridge binary protocol, as implemented in Go under go/.
--
-- A connection starts with a handshake of two bytes, which chooses a protocol version. From then on
-- both sides send packets. Version 1 gives a packet a header of 5 to 11 bytes, a body, and in a
-- verified packet a nonce and a signature; a body can be compressed. The receiver puts what the
-- socket delivers into a ring buffer and calls `Unpack` until it has no packet to give; the header
-- of a packet that has not arrived as a whole stands in the connection's context meanwhile. Version 2
-- sends key-value pairs between header and body. Over a WebSocket a message is one packet, and
-- heartbeats are control messages.
--
-- The client keeps one connection. A loop writes what callers have queued, a loop reads packets into
-- a channel, from which a third runs the client's callback. Responses go to the calls that wait for
-- their request id, push packets to subscribers; heartbeats find out a dead connection, which is then
-- replaced, and the session authorized or resumed.
--
-- Modules and the code that they model:
--   Base         Go's results (a value, an error, a panic), slices as lists, byte orders, bit fields
--   Protocol     go/protocol.go: Handshake (`Pack`, `Unpack`), Registry (`Register`,
--                `GetProtocol`), Options (`GzipSize`, `NewPackOptions`)
--   RingBuffer   the methods and laws of the package `ringbuffer`; Queue is an instance, Pair
--                the two kinds of buffer that a connection uses
--   Metadata     go/metadata.go: `Metadata`, `Set`, `Get`; Strings (`marshalString`,
--                `unmarshalStringLength`, `getString`), Values (`MarshalValues`, `UnmarshalValues`)
--   Context      go/context.go: the state of a connection
--   Gzip         go/gzip/gzip.go: `Compress`, `Decompress`, `DecompressedSize`; Pools is the same over
--                the pools of writers and readers, with `SetLevel`
--   Logger       go/logger.go: `DefaultLogger`
--   Packet       go/packet.go: `Packet`; Build is its constructors, Kinds its predicates and `Err`,
--                Pairs its access to the metadata
--   V1.Header    go/v1/header.go: `Pack` and `UnpackBytes`; Buffered is `Unpack`, Pool the pool of
--                headers and the conversions from and to metadata
--   V1.Packet    go/v1/v1.go: `Pack` and `UnpackBytes`
--   V2.Header    go/v2/v2_header.go: the same of version 2, over the header of version 1
--   V1.Stream    go/v1/v1.go: `Unpack`; Step describes it without context and buffer
--   V2.Packet    go/v2/v2.go: `Pack` and `UnpackBytes`
--   V2.Stream    go/v2/v2.go: `Unpack`; Step describes it as in version 1
--   Decoder      the contract between `Unpack` and its caller; ReadLoop is what a caller unpacks that
--                repeats it; Framing is what the headers of both versions have in common;
--                V1.Stream.Decode and V2.Stream.Decode fill the contract
--   Client.Tcp   go/client/tcp_conn.go: `write`, `Close` and the loop of `writing` as a step relation;
--                Dial is the handshake at the end of `dialTCPConn`, Reading is `reading` and
--                `readPacket`, over either version's `Unpack`
--   Client.Ws    go/client/ws_conn.go: the same; Messages is `Write` and the loop of `reading`,
--                Heartbeat the packets of control messages
--   Client.Inbox the packet channel and the loop of `OnPacket`, which both connections have; Channel
--                is `addPacket` while nobody takes a packet
--   Client.Options, Client.Dialers
--                go/client/options.go and go/client/client_conn.go
--   Client.Dispatch
--                go/client/client.go: `onPacket` and its handlers, `Subscribe`
--   Client.Requests
--                go/client/client.go: `recv`, `handleResponse` and what `reconnect` does to `recvs`,
--                as a step relation
--   Client.Reconnect, Client.Keepalive
--                go/client/client.go: `auth`, `reconnect`, `reconnecting`; `keepalive`
--   Client.Dial, Client.Calls
--                go/client/client.go: `New` and `Dial`; `Do`
--   Client.Lock  go/client/client.go: the lock of the client and the guard of `reconnecting`, as a step
--                relation
--   Examples     instances at concrete data
--
-- A machine integer is a natural number with its bound as a hypothesis where one is needed, and with
-- the truncation of each conversion written out. Packets are values: `Pack`, which changes its
-- packet in place, returns the packet as well.
--
-- Parameters stand for what is not in the repository: the ring buffer (RingBuffer), the package
-- `compress/gzip` (Gzip.Library, with the documented laws Gzip.Laws.IsLawful), `strings.ToLower`,
-- the encoders and decoders of bodies, the command numbers of the package `control`, and the header
-- that a pool hands out. What a peer, a socket and the clock do is in the data of a step or of an
-- attempt.
--
-- Goroutines: a step of a relation is what one goroutine does between two points at which another may
-- come in; a state records the history that a theorem speaks of. Steps after a panic are in the
-- relations although the program has ended then.
--
-- Fuel: the loop of `UnmarshalValues` gets as many rounds as there are bytes, since a string takes a
-- byte at least. The read loop gets one round more than the bytes held and the header under way,
-- since a round that completes a packet takes a byte or that header.
--
-- Not modelled: the sockets, `net.DialTimeout` and the dialling of the websocket library, which are the
-- network; the setters of callbacks and of the marks of a context, which are plain assignments; the
-- names of codecs and platforms, which are only printed; the programs under examples/, which call the
-- client against a live service.
pub mod Base
pub mod Protocol
pub mod RingBuffer
pub mod Metadata
pub mod Context
pub mod Gzip
pub mod Logger
pub mod Packet
pub mod Decoder
pub mod V1
pub mod V2
pub mod Client
pub mod Examples
