-- ===== src/Client/Calls.antt =====
-- go/client/client.go: `Do`, one request from its packet to its response. `answer` says what `recv` is
-- given for the packet written, `writes` whether the connection takes it.
pub mod Answered
use openapi_protocol.Base.{
  ℕ, ◌+◌, ◌%◌, ◌^◌, ◌≡◌, refl, sym, ap, ◌∙◌, arith, List, [], Bool, true, false, ltb, leb, ◌&&◌,
  if◌then◌else◌, Option, none, some, Bool-cases, inl, inr,
}
use openapi_protocol.Base.Result.{Result, Error, ok, err, panic, ◌>>=◌, >>=-eq-ok}
use openapi_protocol.Context.{Context}
use openapi_protocol.Packet.{Packet}
use openapi_protocol.Packet.Build.{Encoders, Body, PacketOption, new_request, new_request_lem}
use openapi_protocol.Packet.Kinds.{Decoders, ControlError, LbError, packet_err}
use openapi_protocol.Packet.Pairs.{
  set_metadata_pairs, get_metadata, last_value, get_metadata-set_metadata_pairs,
}
use openapi_protocol.Client.Reconnect.{
  AuthInfo, Conn, no_conn, open_conn, closed_conn, Session, Attempt, Answer, unanswered, answered,
  unless_err, do_request, reconnect,
}

pub data Outcome : Type 0 where
  crashed not_written timed_out : Outcome
  not_built : Error → Outcome
  refused : LbError → Outcome
  response : Packet → Outcome

-- `c.conn.Context()`, where there is a connection.
unfoldable pub context_of : {H A : Type 0} → Context H A → Conn → Option (Context H A)
context_of ctx no_conn = none
context_of ctx open_conn = some ctx
context_of ctx closed_conn = some ctx

module _ (decoders : Decoders ControlError) where
  unfoldable pub checked : Packet → Option LbError → Outcome
  checked p none = response p
  checked p (some e) = refused e

  unfoldable pub wait : Answer → Outcome
  wait unanswered = timed_out
  wait (answered p) = checked p (packet_err decoders p)

  unfoldable pub send : Bool → (Packet → Answer) → Result Packet → Outcome
  send writes answer (ok p) = if writes then wait (answer p) else not_written
  send writes answer (err e) = not_built e
  send writes answer panic = crashed

-- The packet of a request, the pairs of its metadata in the order in which the map gives them.
unfoldable pub request_of :
    {V H A : Type 0}
    → Encoders V
    → (List ℕ → List ℕ)
    → Context H A
    → ℕ
    → Body V
    → List (List ℕ × List ℕ)
    → Result Packet
request_of encoders lower ctx cmd body pairs =
    (new_request encoders ctx cmd body []).1 >>= λ p. set_metadata_pairs lower pairs p

-- A nil connection is a panic.
unfoldable pub do_call :
    {V H A : Type 0}
    → Encoders V
    → (List ℕ → List ℕ)
    → Decoders ControlError
    → Option (Context H A)
    → ℕ
    → Body V
    → List (List ℕ × List ℕ)
    → Bool
    → (Packet → Answer)
    → Outcome
do_call encoders lower decoders none cmd body pairs writes answer = crashed
do_call encoders lower decoders (some ctx) cmd body pairs writes answer =
    send decoders writes answer (request_of encoders lower ctx cmd body pairs)
