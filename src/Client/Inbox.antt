-- ===== src/Client/Inbox.antt =====
-- go/client/tcp_conn.go and go/client/ws_conn.go, which agree on this: the packets between the
-- reader of a connection and the callback of `OnPacket`. The reader's goroutine calls `addPacket`,
-- that of `OnPacket` runs the callback; a step is what one of them, or `Close`, does between two
-- points at which another may come in.
pub mod Order
pub mod Stuck
pub mod Channel
use openapi_protocol.Base.{
  ℕ, zero, suc, ◌≤◌, ◌<◌, ◌≡◌, ◌≢◌, List, [], ◌∷◌, ◌++◌, length, Bool, true, false,
}
use openapi_protocol.Packet.{Packet}

-- Where the loop of `OnPacket` stands: before its test of `closed`, at its receive, with `n` packets
-- yet to take of those it counted once the connection was closed, or at its end.
pub data Loop : Type 0 where
  testing receiving finished : Loop
  draining : ℕ → Loop

-- `reading` says that the reader runs. Of the history, `queued` is what `addPacket` put into the
-- channel, `handled` what the callback was run on, and `reported` says that the callback was told
-- that the connection is closed.
pub record Inbox : Type 0 where
  pub packet_ch : List Packet
  pub read_queue_size : ℕ
  pub closed : Bool
  pub reading : Bool
  pub loop : Loop
  pub queued : List Packet
  pub handled : List Packet
  pub reported : Bool
  pub panicked : Bool

-- The first call of `OnPacket`.
unfoldable pub on_packet : ℕ → Inbox
on_packet size = record {
  packet_ch = [];
  read_queue_size = size;
  closed = false;
  reading = true;
  loop = testing;
  queued = [];
  handled = [];
  reported = false;
  panicked = false;
}

unfoldable pub add : Packet → Inbox → Inbox
add p s = record s { packet_ch = s.packet_ch ++ (p ∷ []); queued = s.queued ++ (p ∷ []) }

unfoldable pub handle : Packet → List Packet → Loop → Inbox → Inbox
handle p rest l s = record s { packet_ch = rest; handled = s.handled ++ (p ∷ []); loop = l }

-- When the loop of `OnPacket` ends it closes the channel, and a send to it panics.
pub data Step (s : Inbox) : Inbox → Type 0 where
  add_packet :
      (p : Packet)
      → s.reading ≡ true
      → s.loop ≢ finished
      → length s.packet_ch < s.read_queue_size
      → Step s (add p s)
  add_packet_drops :
      (p : Packet)
      → s.reading ≡ true
      → s.loop ≢ finished
      → s.read_queue_size ≤ length s.packet_ch
      → Step s s
  add_packet_panics :
      (p : Packet) → s.reading ≡ true → s.loop ≡ finished → Step s (record s { panicked = true })
  reader_ends : s.closed ≡ true → Step s (record s { reading = false })
  closes : Step s (record s { closed = true })
  test_open : s.loop ≡ testing → s.closed ≡ false → Step s (record s { loop = receiving })
  test_closed :
      s.loop ≡ testing
      → s.closed ≡ true
      → Step s (record s { loop = draining (length s.packet_ch) })
  receive :
      (p : Packet) (rest : List Packet)
      → s.loop ≡ receiving
      → s.packet_ch ≡ p ∷ rest
      → Step s (handle p rest testing s)
  drain :
      (n : ℕ) (p : Packet) (rest : List Packet)
      → s.loop ≡ draining (suc n)
      → s.packet_ch ≡ p ∷ rest
      → Step s (handle p rest (draining n) s)
  report : s.loop ≡ draining zero → Step s (record s { loop = finished; reported = true })

pub data Reach (size : ℕ) : Inbox → Type 0 where
  begun : Reach size (on_packet size)
  later : {s s' : Inbox} → Reach size s → Step s s' → Reach size s'
