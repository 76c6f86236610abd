-- ===== src/Examples/Clients.antt =====
-- The client on concrete data.
use openapi_protocol.Base.{
  pos, ℕ, ◌+◌, ◌≡◌, refl, arith, List, [], ◌∷◌, ◌++◌, length, true, false, ◌==◌, if◌then◌else◌,
  Option, none, some, inr,
}
use openapi_protocol.Base.Result.{ok}
use openapi_protocol.Context.{Context, client_side}
use openapi_protocol.Metadata.{PacketType, request, response, push}
use openapi_protocol.Packet.{Packet}
use openapi_protocol.Packet.Build.{
  Encoders, new_metadata, new_packet, new_response, body_bytes, apply_options, with_status_code,
}
use openapi_protocol.Packet.Kinds.{Commands, Decoders, ControlError}
use openapi_protocol.Client.Options.{
  PackageOption, made_by_package, set_read_buffer_size, set_timeout, set_keepalive,
  new_dial_options,
}
use openapi_protocol.Client.Options.Bounds.{
  IsUsable, AreBytesCounted, AreAllCounted, new_dial_options-IsUsable,
}
use openapi_protocol.Client.Requests
use openapi_protocol.Client.Requests.{
  Table, new_table, find, update, remove, register, handle_response, respond, send, fill_channel,
}
use openapi_protocol.Client.Requests.Answers.{answer-IsOwn}
use openapi_protocol.Client.Dispatch.{call, write, Handlers, call_some, subscribe, on_packet}
use openapi_protocol.Client.Dispatch.Routes.{
  AreControl, AnswersCall, pong_of, to_table, on_packet-ping, on_packet-answers,
}
use openapi_protocol.Client.Dispatch.Subscribers.{on_packet-subscribe}
use openapi_protocol.Client.Reconnect.{
  AuthInfo, open_conn, closed_conn, Session, reconnect_failed, has_token, unanswered, answered,
  Attempt, reconnecting, reconnect_dial,
}
use openapi_protocol.Client.Reconnect.Attempts.{IsOver, reconnecting-IsOver}
use openapi_protocol.Client.Reconnect.Authorized.{reconnect_dial-unauthenticated}
use openapi_protocol.Client.Keepalive.{Heart, Tick, keepalive}
use openapi_protocol.Client.Keepalive.Silence.{AllAfter, keepalive-silent}
use openapi_protocol.Client.Ws.Heartbeat.{with_heartbeat_id, on_pong}

abbrev options : List (PackageOption ℕ)
options = set_read_buffer_size (pos 8) ∷ set_timeout (pos 0) ∷ set_keepalive (pos 7) ∷ []

options-AreAllCounted : AreAllCounted options
unfolding AreAllCounted AreBytesCounted
options-AreAllCounted = (λ n e. let same : 8 ≡ n = cc e in omega (arith, same), (tt, (tt, tt)))

new_dial_options-IsUsable_example : IsUsable (new_dial_options (made_by_package options))
new_dial_options-IsUsable_example = new_dial_options-IsUsable options options-AreAllCounted

abbrev pub packet_of : PacketType → ℕ → ℕ → ℕ → List ℕ → Packet
packet_of t cmd id status body = record {
  metadata = record {
    nonce = 0;
    request_id = id;
    cmd_code = cmd;
    verify = false;
    gzip = false;
    timeout = 0;
    codec = 1;
    status_code = status;
    type = t;
    signature = [];
    values = some [];
  };
  body = body;
}

-- One call waits for the request 9.
abbrev table : Table
table = register 9 new_table

table-Reach : Requests.Reach table
table-Reach = Requests.later Requests.made_new (Requests.begins 9)

answer-IsOwn_example :
    ((p : Packet)
      → (table.calls 0).answer ≡ some p
      → p.metadata.request_id ≡ (table.calls 0).request_id)
    × ((p : Packet)
        → (table.calls 0).reply ≡ some p
        → p.metadata.request_id ≡ (table.calls 0).request_id)
answer-IsOwn_example = answer-IsOwn 0 table-Reach

-- The goroutine that reconnects runs, and no call waits.
abbrev reconnecting_table : Table
reconnecting_table = record new_table { reconnecting = true }

abbrev commands : Commands
commands = record { close = 0; heartbeat = 1; auth = 2; reconnect = 3 }

commands-AreControl : AreControl commands
commands-AreControl = record {
  close_below = omega arith;
  heartbeat_below = omega arith;
  auth_below = omega arith;
}

abbrev pub encoders : Encoders ℕ
encoders = record { proto_marshal = λ v. some (v ∷ []); json_marshal = λ v. none }

abbrev pub context : Context ℕ ℕ
context = record {
  header = none;
  auth_info = none;
  last_id = 41;
  side = client_side;
  handshaked = false;
  authed = false;
  codec = 1;
  version = 1;
  platform = 9;
  begin_unpack = false;
  closed = false;
  proxyed = false;
}

abbrev handlers : Handlers ℕ
handlers = record { on_ping = some 1; on_pong = none; subs = (101, 5 ∷ []) ∷ [] }

abbrev ping : Packet
ping = packet_of request 1 3 0 (6 ∷ [])

on_packet-ping_example :
    on_packet encoders commands true context handlers (some ping)
    ≡ call_some handlers.on_ping ping ++ (write (pong_of commands context ping) ∷ [])
on_packet-ping_example =
    on_packet-ping encoders commands commands-AreControl context handlers ping refl refl

abbrev quote : Packet
quote = packet_of push 101 0 0 (1 ∷ [])

on_packet-subscribe_example :
    on_packet encoders commands true context (subscribe 101 6 handlers) (some quote)
    ≡ on_packet encoders commands true context handlers (some quote)
      ++ (if 101 == 101 then call 6 quote ∷ [] else [])
on_packet-subscribe_example =
    on_packet-subscribe encoders commands true context handlers quote 101 6 (omega arith) refl

abbrev answer : Packet
answer = packet_of response 50 9 0 (2 ∷ [])

answer-AnswersCall : AnswersCall commands answer
unfolding AnswersCall
answer-AnswersCall = (refl, inr (inr (omega arith)))

table-waits :
    (find 9 table.recvs ≡ some 0)
    × ((table.calls 0).closed ≡ false)
    × ((table.calls 0).reply ≡ none)
unfolding find register update new_table
table-waits = (refl, refl, refl)

on_packet-answers_example :
    ((to_table (on_packet encoders commands true context handlers (some answer)) table).calls
      0).reply
    ≡ some answer
on_packet-answers_example =
    on_packet-answers encoders commands commands-AreControl true context handlers answer table 0
      answer-AnswersCall table-waits.0 table-waits.1 table-waits.2

abbrev heartbeat_id : List ℕ → Option (Option ℕ)
heartbeat_id [] = none
heartbeat_id (b ∷ bs) = some (some b)

abbrev pong : Packet
pong = packet_of response 1 6 0 (6 ∷ [])

pong_built : on_pong encoders commands heartbeat_id context (6 ∷ []) ≡ ok pong
unfolding on_pong with_heartbeat_id new_response new_packet body_bytes apply_options
    with_status_code new_metadata
pong_built = refl

abbrev pub decoders : Decoders ControlError
decoders = record { from_json = λ b. none; from_proto = λ b. some (length b, b) }

abbrev pub auth_decoders : Decoders AuthInfo
auth_decoders = record {
  from_json = λ b. none;
  from_proto = λ b. some (record { session_id = b; expires = 90000 });
}

abbrev lost : Session
lost = record {
  conn = closed_conn;
  auth_info = some (record { session_id = 4 ∷ []; expires = 90000 });
  reconnect_count = 1;
  last_keepalive_id = 7;
  closed = false;
}

-- The server does not know the session.
abbrev unknown_session : Packet
unknown_session = packet_of response 3 42 5 (1 ∷ [])

abbrev attempt : Attempt
attempt = record {
  dials = true;
  now = 0;
  token = has_token;
  auth_answer = unanswered;
  reconnect_answer = answered unknown_session;
}

reconnecting-IsOver_example :
    IsOver lost (reconnecting decoders auth_decoders 2 (attempt ∷ (attempt ∷ [])) lost)
reconnecting-IsOver_example =
    reconnecting-IsOver decoders auth_decoders 2 (attempt ∷ (attempt ∷ [])) lost (omega arith)
      (omega arith) (omega arith)

reconnect_dial-unauthenticated_example :
    reconnect_dial decoders auth_decoders attempt lost ≡ (lost, some reconnect_failed)
reconnect_dial-unauthenticated_example =
    reconnect_dial-unauthenticated decoders auth_decoders attempt lost unknown_session refl refl
      refl

abbrev bare : Session
bare = record lost { auth_info = none; conn = open_conn }

abbrev ticks : List Tick
ticks =
    record {
      sees_close = false;
      now = 300;
      id = 8;
      writes = true;
      busy = false;
      attempts = attempt ∷ [];
    }
    ∷ record {
      sees_close = false;
      now = 360;
      id = 9;
      writes = true;
      busy = false;
      attempts = attempt ∷ [];
    }
    ∷ []

abbrev heart : Heart
heart = record { session = bare; last_pong_at = 100; pings = 1 }

ticks-AllAfter : AllAfter (100 + 120) ticks
unfolding AllAfter
ticks-AllAfter = (omega arith, (omega arith, tt))

keepalive-silent_example : (keepalive decoders auth_decoders 0 120 ticks heart).pings ≡ 1
keepalive-silent_example =
    keepalive-silent decoders auth_decoders 0 120 ticks heart refl (omega arith) ticks-AllAfter
