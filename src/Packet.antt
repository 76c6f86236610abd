-- ===== src/Packet.antt =====
-- go/packet.go: a packet, and what one call of a protocol's `Unpack` reports.
pub mod Build
pub mod Kinds
pub mod Pairs
use openapi_protocol.Base.{List, ℕ}
use openapi_protocol.Base.Result.{Error, Result}
use openapi_protocol.Metadata.{Metadata}

pub record Packet : Type 0 where
  pub metadata : Metadata
  pub body : List ℕ

-- The results `(packet, done, err)`: no packet yet, a packet, or an error. With an error Go may
-- return a packet too, which no caller looks at.
pub data Report : Type 0 where
  pending : Report
  complete : Packet → Report
  failure : Error → Report

-- What a call of `Unpack` leaves: the context, the buffer and the report, or a panic.
abbrev pub Outcome : Type 0 → Type 0 → Type 0
Outcome C B = Result (C × B × Report)
