-- ===== src/Client/Ws/Flow.antt =====
-- Each message is what one call of `write` was given, and in this order.
use openapi_protocol.Base.{ℕ, ◌≡◌, ◌≢◌, refl, sym, ap, ◌∙◌, List, [], ◌∷◌, ◌++◌, append_assoc}
use openapi_protocol.Client.Ws.{
  returned, Conn, dial_ws_conn, held, queue_up, Writing, receive, drained, gives_up, writes,
  write_fails, Step, writing, write_begins, write_sends, write_full, write_panics, close_begins,
  close_ends, Reach, dialled, later,
}

-- While the loop of `writing` runs, what was accepted is what was sent, what the loop holds and the
-- queue; ever after, what was sent is the front of it.
record Inv (c : Conn) : Type 0 where
  flow : c.loop ≢ returned → c.frames ++ (held c.loop ++ c.write_ch) ≡ c.accepted
  front : (rest : List (List ℕ)) × (c.frames ++ rest ≡ c.accepted)

Writing-Inv : {c c' : Conn} → Writing c c' → Inv c → Inv c'
unfolding held
Writing-Inv {c} (receive b rest l q) v =
    let before : c.frames ++ c.write_ch ≡ c.accepted =
      ap (λ (hs : List (List ℕ)). c.frames ++ (hs ++ c.write_ch)) (sym (ap held l))
      ∙ v.flow (λ r. cc) in
    record {
      flow = λ r. ap (λ (bs : List (List ℕ)). c.frames ++ bs) (sym q) ∙ before;
      front = v.front;
    }
Writing-Inv (drained l q k) v = record { flow = λ r. absurd (r refl); front = v.front }
Writing-Inv (gives_up b l k) v = record { flow = λ r. absurd (r refl); front = v.front }
Writing-Inv {c} (writes b l k) v =
    let after : (c.frames ++ (b ∷ [])) ++ c.write_ch ≡ c.accepted =
      append_assoc c.frames (b ∷ []) c.write_ch
      ∙ (ap (λ (hs : List (List ℕ)). c.frames ++ (hs ++ c.write_ch)) (sym (ap held l))
          ∙ v.flow (λ r. cc)) in
    record { flow = λ r. after; front = (c.write_ch, after) }
Writing-Inv (write_fails b l k) v = record { flow = λ r. absurd (r refl); front = v.front }

queue_up-Inv : (others : List (List ℕ)) (b : List ℕ) (c : Conn) → Inv c → Inv (queue_up others b c)
unfolding queue_up
queue_up-Inv others b c v = record {
  flow = λ r.
      ap (λ (bs : List (List ℕ)). c.frames ++ bs)
        (sym (append_assoc (held c.loop) c.write_ch (b ∷ [])))
      ∙ (sym (append_assoc c.frames (held c.loop ++ c.write_ch) (b ∷ []))
          ∙ ap (λ (bs : List (List ℕ)). bs ++ (b ∷ [])) (v.flow r));
  front = (
    v.front.0 ++ (b ∷ []),
    sym (append_assoc c.frames v.front.0 (b ∷ []))
        ∙ ap (λ (bs : List (List ℕ)). bs ++ (b ∷ [])) v.front.1,
  );
}

Step-Inv : {c c' : Conn} → Step c c' → Inv c → Inv c'
Step-Inv (writing w) v = Writing-Inv w v
Step-Inv (write_begins b k) v = record { flow = v.flow; front = v.front }
Step-Inv {c} (write_sends before after b r k room) v = queue_up-Inv (before ++ after) b c v
Step-Inv (write_full before after b r k full) v = record { flow = v.flow; front = v.front }
Step-Inv (write_panics before after b r k) v = record { flow = v.flow; front = v.front }
Step-Inv close_begins v = record { flow = v.flow; front = v.front }
Step-Inv (close_ends k) v = record { flow = v.flow; front = v.front }

Reach-Inv : {size : ℕ} {c : Conn} → Reach size c → Inv c
unfolding dial_ws_conn held
Reach-Inv dialled = record { flow = λ r. refl; front = ([], refl) }
Reach-Inv (later r s) = Step-Inv s (Reach-Inv r)

-- In every state that is reached, the messages that the socket took are the first ones that callers
-- of `write` had accepted, each whole and in this order; as long as the loop of `writing` has not
-- returned, the others are what the loop holds and the queue.
pub frames-in_order :
    {size : ℕ} {c : Conn}
    → Reach size c
    → ((rest : List (List ℕ)) × (c.frames ++ rest ≡ c.accepted))
      × (c.loop ≢ returned → c.frames ++ (held c.loop ++ c.write_ch) ≡ c.accepted)
frames-in_order r = let v = Reach-Inv r in (v.front, v.flow)
