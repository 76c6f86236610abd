-- ===== src/Client/Inbox/Order.antt =====
-- The callback runs on what was queued, in this order.
use openapi_protocol.Base.{
  ℕ, suc, ◌≤◌, ◌<◌, ◌≡◌, ◌≢◌, refl, sym, ap, ◌∙◌, arith, List, [], ◌∷◌, ◌++◌, append_assoc, length,
  length-append, true,
}
use openapi_protocol.Packet.{Packet}
use openapi_protocol.Client.Inbox.{
  Loop, testing, finished, draining, Inbox, on_packet, add, handle, Step, add_packet,
  add_packet_drops, add_packet_panics, reader_ends, closes, test_open, test_closed, receive, drain,
  report, Reach, begun, later,
}

-- The packets that the loop has counted are in the channel, and only the end of the loop reports.
pub record Inv (s : Inbox) : Type 0 where
  pub order : s.handled ++ s.packet_ch ≡ s.queued
  pub bounded : length s.packet_ch ≤ s.read_queue_size
  pub counted : (n : ℕ) → s.loop ≡ draining n → n ≤ length s.packet_ch
  pub last : s.reported ≡ true → s.loop ≡ finished

add-Inv : (p : Packet) (s : Inbox) → length s.packet_ch < s.read_queue_size → Inv s → Inv (add p s)
unfolding add
add-Inv p s room v = record {
  order =
      sym (append_assoc s.handled s.packet_ch (p ∷ []))
      ∙ ap (λ (ps : List Packet). ps ++ (p ∷ [])) v.order;
  bounded = omega (arith, length-append s.packet_ch (p ∷ []));
  counted = λ n e. omega (arith, v.counted n e, length-append s.packet_ch (p ∷ []));
  last = v.last;
}

handle-Inv :
    (p : Packet) (rest : List Packet) (l : Loop) (s : Inbox)
    → s.packet_ch ≡ p ∷ rest
    → s.loop ≢ finished
    → ((n : ℕ) → l ≡ draining n → n ≤ length rest)
    → Inv s
    → Inv (handle p rest l s)
unfolding handle
handle-Inv p rest l s q running counted v = record {
  order =
      append_assoc s.handled (p ∷ []) rest
      ∙ (ap (λ (ps : List Packet). s.handled ++ ps) (sym q) ∙ v.order);
  bounded = omega (arith, v.bounded, ap length q);
  counted = counted;
  last = λ r. absurd (running (v.last r));
}

Step-Inv : {s s' : Inbox} → Step s s' → Inv s → Inv s'
Step-Inv {s} (add_packet p r l room) v = add-Inv p s room v
Step-Inv (add_packet_drops p r l full) v = v
Step-Inv (add_packet_panics p r l) v = record {
  order = v.order;
  bounded = v.bounded;
  counted = v.counted;
  last = v.last;
}
Step-Inv (reader_ends c) v = record {
  order = v.order;
  bounded = v.bounded;
  counted = v.counted;
  last = v.last;
}
Step-Inv closes v = record {
  order = v.order;
  bounded = v.bounded;
  counted = v.counted;
  last = v.last;
}
Step-Inv (test_open l c) v = record {
  order = v.order;
  bounded = v.bounded;
  counted = λ n e. cc;
  last = λ r. cc (v.last r);
}
Step-Inv {s} (test_closed l c) v = record {
  order = v.order;
  bounded = v.bounded;
  counted = λ n e. let same : length s.packet_ch ≡ n = cc e in omega (arith, same);
  last = λ r. cc (v.last r);
}
Step-Inv {s} (receive p rest l q) v = handle-Inv p rest testing s q (λ f. cc) (λ n e. cc) v
Step-Inv {s} (drain n p rest l q) v =
    handle-Inv p rest (draining n) s q (λ f. cc)
      (λ m e. let same : n ≡ m = cc e in omega (arith, same, v.counted (suc n) l, ap length q)) v
Step-Inv (report l) v = record {
  order = v.order;
  bounded = v.bounded;
  counted = λ n e. cc;
  last = λ r. refl;
}

pub Reach-Inv : {size : ℕ} {s : Inbox} → Reach size s → Inv s
unfolding on_packet
Reach-Inv begun = record {
  order = refl;
  bounded = omega arith;
  counted = λ n e. cc;
  last = λ r. cc;
}
Reach-Inv (later r s) = Step-Inv s (Reach-Inv r)

Step-size : {s s' : Inbox} → Step s s' → s'.read_queue_size ≡ s.read_queue_size
unfolding add handle
Step-size (add_packet p r l room) = refl
Step-size (add_packet_drops p r l full) = refl
Step-size (add_packet_panics p r l) = refl
Step-size (reader_ends c) = refl
Step-size closes = refl
Step-size (test_open l c) = refl
Step-size (test_closed l c) = refl
Step-size (receive p rest l q) = refl
Step-size (drain n p rest l q) = refl
Step-size (report l) = refl

Reach-size : {size : ℕ} {s : Inbox} → Reach size s → s.read_queue_size ≡ size
unfolding on_packet
Reach-size begun = refl
Reach-size (later r s) = Step-size s ∙ Reach-size r

-- In every state that is reached, the packets that the callback was run on and then those in the
-- channel are the packets queued, in this order, and the channel holds no more than its size.
pub handled-in_order :
    {size : ℕ} {s : Inbox}
    → Reach size s
    → (s.handled ++ s.packet_ch ≡ s.queued) × (length s.packet_ch ≤ size)
handled-in_order r = let v = Reach-Inv r in (v.order, omega (arith, v.bounded, Reach-size r))
