-- ===== src/Client/Inbox/Stuck.antt =====
-- How the goroutine of `OnPacket` and the reader miss each other's end.
use openapi_protocol.Base.{
  ◌≡◌, refl, List, [], ◌∷◌, length, true, false, ◌++◌, append-nil, append_assoc, sym, ◌∙◌,
}
use openapi_protocol.Packet.{Packet}
use openapi_protocol.Client.Inbox.{
  testing, receiving, finished, draining, Inbox, add, handle, Step, add_packet, add_packet_drops,
  add_packet_panics, reader_ends, closes, test_open, test_closed, receive, drain, report,
}

-- The loop waits for a packet, and the reader has ended.
pub record IsStuck (s : Inbox) : Type 0 where
  pub waits : s.loop ≡ receiving
  pub empty : s.packet_ch ≡ []
  pub ended : s.reading ≡ false
  pub silent : s.reported ≡ false

pub data Later (s : Inbox) : Inbox → Type 0 where
  same : Later s s
  after : {s' s'' : Inbox} → Later s s' → Step s' s'' → Later s s''

Step-IsStuck : {s s' : Inbox} → Step s s' → IsStuck s → IsStuck s'
unfolding add handle
Step-IsStuck (add_packet p r l room) v = cc (r, v.ended)
Step-IsStuck (add_packet_drops p r l full) v = v
Step-IsStuck (add_packet_panics p r l) v = cc (r, v.ended)
Step-IsStuck (reader_ends c) v = record {
  waits = v.waits;
  empty = v.empty;
  ended = refl;
  silent = v.silent;
}
Step-IsStuck closes v = record {
  waits = v.waits;
  empty = v.empty;
  ended = v.ended;
  silent = v.silent;
}
Step-IsStuck (test_open l c) v = cc (l, v.waits)
Step-IsStuck (test_closed l c) v = cc (l, v.waits)
Step-IsStuck (receive p rest l q) v = cc (q, v.empty)
Step-IsStuck (drain n p rest l q) v = cc (l, v.waits)
Step-IsStuck (report l) v = cc (l, v.waits)

Later-IsStuck : {s s' : Inbox} → Later s s' → IsStuck s → IsStuck s'
Later-IsStuck same v = v
Later-IsStuck (after r s) v = Step-IsStuck s (Later-IsStuck r v)

-- When the connection is closed while the loop of `OnPacket` waits at an empty channel, and the
-- reader has ended, the callback is never told, however the goroutines go on.
pub report-missed :
    {s s' : Inbox}
    → s.loop ≡ receiving
    → s.packet_ch ≡ []
    → s.reading ≡ false
    → s.reported ≡ false
    → Later s s'
    → s'.reported ≡ false
report-missed w e d r steps =
    (Later-IsStuck steps (record { waits = w; empty = e; ended = d; silent = r })).silent

-- The loop takes what it counted and ends; the reader is not told.
drained :
    {s s' : Inbox} (ps : List Packet)
    → s'.packet_ch ≡ ps
    → s'.loop ≡ draining (length ps)
    → s'.reading ≡ true
    → Later s s'
    → (s'' : Inbox) × (Later s s''
        × ((s''.loop ≡ finished) × ((s''.reading ≡ true) × (s''.handled ≡ s'.handled ++ ps))))
unfolding handle
drained {s} {s'} [] q l r steps =
    (_, (after steps (report l), (refl, (r, sym (append-nil s'.handled)))))
drained {s} {s'} (p ∷ ps) q l r steps =
    let to = drained ps refl refl r (after steps (drain (length ps) p ps l q)) in
    (to.0, (to.1.0, (to.1.1.0, (to.1.1.1.0, to.1.1.1.1 ∙ append_assoc s'.handled (p ∷ []) ps))))

-- From every state in which the loop is before its test and the reader runs, steps lead on to a
-- panic: a close of the connection lets the loop run the callback on all packets of the channel, end
-- and close the channel, and the reader's next packet panics.
pub add_packet_panics-close :
    (s : Inbox) (p : Packet)
    → s.loop ≡ testing
    → s.reading ≡ true
    → (s' : Inbox) × (Later s s' × ((s'.handled ≡ s.handled ++ s.packet_ch) × s'.panicked ≡ true))
add_packet_panics-close s p l r =
    let to = drained s.packet_ch refl refl r (after (after same closes) (test_closed l refl)) in
    (_, (after to.1.0 (add_packet_panics p to.1.1.1.0 to.1.1.0), (to.1.1.1.1, refl)))
