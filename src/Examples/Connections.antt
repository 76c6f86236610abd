-- ===== src/Examples/Connections.antt =====
-- The connections of the client on concrete data.
use openapi_protocol.Base.{
  pos, ℕ, ◌≤◌, ◌≡◌, ◌≢◌, refl, arith, List, [], ◌∷◌, ◌++◌, length, true, false, none, flatten,
}
use openapi_protocol.Base.Result.{ok, write_at}
use openapi_protocol.Examples.Stored.{stored, stored-IsLawful}
use openapi_protocol.Context.{Context, client_side, new_context}
use openapi_protocol.Gzip.{compress}
use openapi_protocol.Metadata.{request}
use openapi_protocol.Packet.{Packet}
use openapi_protocol.Protocol.Options.{compresses, gzip_size, new_pack_options}
use openapi_protocol.V1.Header
use openapi_protocol.V1.Header.{Header, empty}
use openapi_protocol.V1.Header.Pool.{header_from_metadata}
use openapi_protocol.V1.Packet.{
  pack, pack_frame, pack_compressed, fill, frame_header_len, unpack_bytes,
}
use openapi_protocol.V1.Packet.Received.{IsSendable, delivered}
use openapi_protocol.V1.Packet.Frames.{unpack_bytes-pack_packet}
use openapi_protocol.Client.Tcp
use openapi_protocol.Client.Tcp.{Conn, dial_tcp_conn, enqueue}
use openapi_protocol.Client.Tcp.Flow.{accepted-in_order}
use openapi_protocol.Client.Tcp.Progress.{write_panics-close}
use openapi_protocol.Client.Ws
use openapi_protocol.Client.Ws.{dial_ws_conn, queue_up, held}
use openapi_protocol.Client.Ws.Flow.{frames-in_order}
use openapi_protocol.Client.Inbox
use openapi_protocol.Client.Inbox.{Inbox, on_packet, add, handle}
use openapi_protocol.Client.Inbox.Order.{handled-in_order}
use openapi_protocol.Client.Inbox.Stuck
use openapi_protocol.Client.Inbox.Stuck.{same, report-missed, add_packet_panics-close}

-- A connection with a queue of two, which has accepted three bytes.
abbrev conn : Tcp.Conn
conn =
    enqueue ([] ++ []) (1 ∷ 2 ∷ 3 ∷ []) (record (dial_tcp_conn 2) { ready = (1 ∷ 2 ∷ 3 ∷ []) ∷ [] })

dialled-Reach : Tcp.Reach 2 (dial_tcp_conn 2)
dialled-Reach = Tcp.dialled

conn-Reach : Tcp.Reach 2 conn
unfolding dial_tcp_conn
conn-Reach =
    Tcp.later (Tcp.later Tcp.dialled (Tcp.write_begins (1 ∷ 2 ∷ 3 ∷ []) refl))
      (Tcp.write_sends [] [] (1 ∷ 2 ∷ 3 ∷ []) refl refl (omega arith))

conn-open : (conn.loop ≢ Tcp.returned) × (conn.close_ch ≡ false)
unfolding dial_tcp_conn enqueue
conn-open = (λ e. cc, refl)

accepted-in_order_example : conn.sent ++ (conn.buf ++ flatten conn.write_ch) ≡ conn.accepted
accepted-in_order_example = accepted-in_order conn-Reach conn-open.0

-- The loop took the message and found the queue empty.
abbrev flushed : Conn
flushed = record {
  close_ch = false;
  write_ch_closed = false;
  write_ch = [];
  write_queue_size = 2;
  ready = [];
  loop = Tcp.selecting;
  buf = [];
  sent = 1 ∷ 2 ∷ 3 ∷ [];
  accepted = 1 ∷ 2 ∷ 3 ∷ [];
  panicked = false;
}

write_panics-close_example :
    Tcp.Steps conn (record conn { close_ch = true; write_ch_closed = true; panicked = true })
write_panics-close_example = write_panics-close conn (4 ∷ []) conn-open.1

-- A WebSocket connection that has accepted one message.
abbrev ws_conn : Ws.Conn
ws_conn = queue_up ([] ++ []) (7 ∷ []) (record (dial_ws_conn 2) { ready = (7 ∷ []) ∷ [] })

ws_conn-Reach : Ws.Reach 2 ws_conn
unfolding dial_ws_conn
ws_conn-Reach =
    Ws.later (Ws.later Ws.dialled (Ws.write_begins (7 ∷ []) refl))
      (Ws.write_sends [] [] (7 ∷ []) refl refl (omega arith))

frames-in_order_example :
    ((rest : List (List ℕ)) × (ws_conn.frames ++ rest ≡ ws_conn.accepted))
    × (ws_conn.loop ≢ Ws.returned
        → ws_conn.frames ++ (held ws_conn.loop ++ ws_conn.write_ch) ≡ ws_conn.accepted)
frames-in_order_example = frames-in_order ws_conn-Reach

abbrev asked : Packet
asked = record {
  metadata = record {
    nonce = 0;
    request_id = 258;
    cmd_code = 11;
    verify = false;
    gzip = false;
    timeout = 5;
    codec = 1;
    status_code = 0;
    type = request;
    signature = [];
    values = none;
  };
  body = 104 ∷ 105 ∷ [];
}

asked-IsSendable : IsSendable asked.metadata
asked-IsSendable = record { word = omega arith; nonce_u64 = omega arith; signature_16 = λ v. cc }

abbrev zipped_asked : Packet
zipped_asked = record {
  metadata = record asked.metadata { gzip = true };
  body = 104 ∷ 105 ∷ 2 ∷ 0 ∷ 0 ∷ 0 ∷ [];
}

abbrev asked_bytes : List ℕ
asked_bytes = 0x21 ∷ 11 ∷ 0 ∷ 0 ∷ 1 ∷ 2 ∷ 0 ∷ 5 ∷ 0 ∷ 0 ∷ 6 ∷ 104 ∷ 105 ∷ 2 ∷ 0 ∷ 0 ∷ 0 ∷ []

asked_packed : pack stored empty asked (gzip_size (pos 2) ∷ []) ≡ (zipped_asked, ok asked_bytes)
unfolding pack pack_compressed pack_frame Header.pack gzip_size compresses new_pack_options compress
    header_from_metadata write_at fill frame_header_len
asked_packed = refl

abbrev context : Context Header ℕ
context = new_context client_side

context-new : (context.header ≡ none) × (context.codec ≡ 0)
unfolding new_context
context-new = (refl, refl)

unpack_bytes-pack_packet_example :
    (unpack_bytes stored empty context asked_bytes).1
    ≡ ok (record { metadata = delivered zipped_asked.metadata context.codec; body = asked.body })
unpack_bytes-pack_packet_example =
    unpack_bytes-pack_packet stored empty context stored-IsLawful empty asked zipped_asked
      (gzip_size (pos 2) ∷ []) asked_bytes context-new.0 asked-IsSendable refl (omega arith)
      asked_packed

abbrev delivered_asked : Packet
delivered_asked = record { metadata = delivered zipped_asked.metadata 0; body = asked.body }

-- The inbox of a connection whose callback has run on one packet.
abbrev inbox : Inbox
inbox = handle asked [] Inbox.testing (record (add asked (on_packet 4)) { loop = Inbox.receiving })

inbox-Reach : Inbox.Reach 4 inbox
unfolding on_packet add
inbox-Reach =
    Inbox.later
      (Inbox.later (Inbox.later Inbox.begun (Inbox.add_packet asked refl (λ e. cc) (omega arith)))
        (Inbox.test_open refl refl))
      (Inbox.receive asked [] refl refl)

handled-in_order_example :
    (inbox.handled ++ inbox.packet_ch ≡ inbox.queued) × (length inbox.packet_ch ≤ 4)
handled-in_order_example = handled-in_order inbox-Reach

inbox-testing : (inbox.loop ≡ Inbox.testing) × (inbox.reading ≡ true)
unfolding on_packet add handle
inbox-testing = (refl, refl)

add_packet_panics-close_example :
    (s : Inbox) × (Stuck.Later inbox s
      × ((s.handled ≡ inbox.handled ++ inbox.packet_ch) × s.panicked ≡ true))
add_packet_panics-close_example =
    add_packet_panics-close inbox asked inbox-testing.0 inbox-testing.1

-- The connection is closed and the reader has ended while the loop waits.
abbrev ended : Inbox
ended = record (on_packet 4) { loop = Inbox.receiving; closed = true; reading = false }

ended-waiting :
    (ended.loop ≡ Inbox.receiving)
    × (ended.packet_ch ≡ [])
    × (ended.reading ≡ false)
    × (ended.reported ≡ false)
unfolding on_packet
ended-waiting = (refl, refl, refl, refl)

report-missed_example : ended.reported ≡ false
report-missed_example =
    report-missed {s = ended} ended-waiting.0 ended-waiting.1 ended-waiting.2 ended-waiting.3 same
