-- ===== src/Examples/Sessions.antt =====
-- Dialling, calls, the lock and the pools on concrete data.
use openapi_protocol.Base.{
  ℕ, List, pos, ◌≡◌, refl, arith, [], ◌∷◌, ◌++◌, length, take, drop, false, none,
}
use openapi_protocol.Base.Result.{ok}
use openapi_protocol.Examples.Stored.{stored, stored-IsLawful}
use openapi_protocol.Examples.Packets.{
  ping, zipped_ping, ping_bytes, ping_packed, md-IsSendable, delivered_ping,
}
use openapi_protocol.Protocol.Options.{gzip_size}
use openapi_protocol.Protocol.Handshake.{Handshake, IsValid, pack, unpack}
use openapi_protocol.Context.{Context, new_context, server_side}
use openapi_protocol.RingBuffer.Pair.{queues}
use openapi_protocol.Client.Tcp.Reading.{drained}
use openapi_protocol.Client.Tcp.Reading.Version1.{reading_v1}
use openapi_protocol.V1.Header.{Header, empty}
use openapi_protocol.V1.Packet.Delivery.{Sent, nothing, packet}
use openapi_protocol.Client.Tcp
use openapi_protocol.Client.Tcp.{Conn, dial_tcp_conn, enqueue, joined, wrote}
use openapi_protocol.Client.Tcp.Dial.{
  communicating, handshake_begins, Dialled, handshake_sent, goes_on, unpack-sent,
}
use openapi_protocol.Client.Tcp.Delivery.{IsIdle, reading_v1-sent}

abbrev handshake : Handshake
handshake = record { version = 1; codec = 1; platform = 9; reserve = 0 }

handshake-IsValid : IsValid handshake
handshake-IsValid = record {
  version_fits = omega arith;
  codec_fits = omega arith;
  platform_fits = omega arith;
  reserve_fits = omega arith;
}

-- A connection that has sent the handshake and one packet.
abbrev conn : Conn
conn = record {
  close_ch = false;
  write_ch_closed = false;
  write_ch = [];
  write_queue_size = 2;
  ready = [];
  loop = Tcp.top;
  buf = [];
  sent = 17 ∷ 9 ∷ ping_bytes;
  accepted = 17 ∷ 9 ∷ ping_bytes;
  panicked = false;
}

conn-Dialled : Dialled handshake 2 conn
unfolding dial_tcp_conn enqueue joined wrote pack
conn-Dialled =
    let d0 : Dialled handshake 2 _ =
      handshake_sent (handshake_begins communicating refl refl) refl refl (omega arith) in
    let d1 : Dialled handshake 2 _ = goes_on d0 (Tcp.write_begins ping_bytes refl) in
    let d2 : Dialled handshake 2 _ =
      goes_on d1 (Tcp.write_sends [] [] ping_bytes refl refl (omega arith)) in
    let d3 : Dialled handshake 2 _ = goes_on d2 (Tcp.writing (Tcp.test_open refl refl)) in
    let d4 : Dialled handshake 2 _ = goes_on d3 (
      Tcp.writing
        (Tcp.receive (17 ∷ 9 ∷ []) [] [] (ping_bytes ∷ []) 2 refl refl refl (omega arith))) in
    let d5 : Dialled handshake 2 _ = goes_on d4 (Tcp.writing (Tcp.test_open refl refl)) in
    goes_on d5 (
      Tcp.writing
        (Tcp.receive ping_bytes [] [] [] (length ping_bytes) refl refl refl (omega arith)))

unpack-sent_example : unpack (take 2 conn.sent) ≡ ok handshake
unpack-sent_example = unpack-sent conn-Dialled handshake-IsValid (omega arith)

conn-IsIdle : IsIdle conn
conn-IsIdle = record { runs = λ e. cc; buf = refl; write_ch = refl }

one_ping : Sent stored 0 ping_bytes (delivered_ping ∷ [])
one_ping =
    packet empty ping zipped_ping (gzip_size (pos 2) ∷ []) ping_bytes [] [] md-IsSendable refl
      (omega arith) ping_packed nothing

conn-accepted : conn.accepted ≡ pack handshake ++ ping_bytes
unfolding pack
conn-accepted = refl

-- The peer's connection has room for one packet.
abbrev peer : Context Header ℕ
peer = new_context server_side

peer-new : (peer.header ≡ none) × (peer.codec ≡ 0)
unfolding new_context
peer-new = (refl, refl)

peer_ping : Sent stored peer.codec ping_bytes (delivered_ping ∷ [])
peer_ping = rw peer-new.1 one_ping

reading_v1-sent_example :
    (unpack (take 2 conn.sent) ≡ ok handshake)
    × ((peer' : Context Header ℕ) × (b' : List ℕ) × (reading_v1 stored
            (λ c. empty)
            peer.codec
            queues
            1
            (take 5 ping_bytes ∷ drop 5 ping_bytes ∷ [])
            (drained peer [] [])
          ≡ drained peer' b' (take 1 (delivered_ping ∷ [])))
        × (b' ≡ []))
reading_v1-sent_example =
    reading_v1-sent conn-Dialled conn-IsIdle stored stored-IsLawful (λ c. empty) ping_bytes
      (delivered_ping ∷ []) queues 1 (take 5 ping_bytes ∷ drop 5 ping_bytes ∷ []) peer []
      handshake-IsValid conn-accepted peer_ping refl peer-new.0 refl
