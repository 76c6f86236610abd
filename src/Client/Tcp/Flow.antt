-- ===== src/Client/Tcp/Flow.antt =====
-- What is sent is what was accepted, in this order.
use openapi_protocol.Base.{
  ℕ, suc, ◌≤◌, ◌<◌, ◌≡◌, ◌≢◌, refl, sym, ap, ◌∙◌, arith, List, [], ◌∷◌, ◌++◌, append-nil,
  append_assoc, length, length-append, take, drop, take-append-drop, flatten, true, false, ◌==◌,
}
use openapi_protocol.Client.Tcp.{
  Loop, selecting, returned, Conn, dial_tcp_conn, joined, wrote, write_failed, enqueue, Writing,
  test_closed, test_open, receive, receive_failed, drained, tick_idle, tick, tick_failed, Step,
  writing, write_begins, write_sends, write_full, write_panics, close_begins, close_ends, Reach,
  dialled, later,
}

-- While the loop of `writing` runs, what was accepted is what was sent, the buffer and the queue; ever
-- after, what was sent is the front of it. The queue keeps to its size, and `writeCh` is closed after
-- `closeCh`.
pub record Inv (c : Conn) : Type 0 where
  pub flow : c.loop ≢ returned → c.sent ++ (c.buf ++ flatten c.write_ch) ≡ c.accepted
  pub front : (rest : List ℕ) × (c.sent ++ rest ≡ c.accepted)
  pub bounded : length c.write_ch ≤ c.write_queue_size
  pub closing : c.write_ch_closed ≡ true → c.close_ch ≡ true

joined_lem : (buf f e b : List ℕ) → buf ≡ f ++ e → joined buf f e b ≡ buf ++ b
unfolding joined
joined_lem [] f e b h = refl
joined_lem (x ∷ buf) f e b h =
    let held : (suc (length buf) == 0) ≡ false = ground arith in
    rw held (sym (append_assoc f e b) ∙ ap (λ (xs : List ℕ). xs ++ b) (sym h))

-- What the socket takes of `b` and what it leaves are `b`.
taken :
    (sent b more : List ℕ) (n : ℕ) → (sent ++ take n b) ++ (drop n b ++ more) ≡ sent ++ (b ++ more)
taken sent b more n =
    append_assoc sent (take n b) (drop n b ++ more)
    ∙ ap (λ (xs : List ℕ). sent ++ xs)
        (sym (append_assoc (take n b) (drop n b) more)
          ∙ ap (λ (xs : List ℕ). xs ++ more) (take-append-drop n b))

flatten-append : (xss yss : List (List ℕ)) → flatten (xss ++ yss) ≡ flatten xss ++ flatten yss
flatten-append [] yss = refl
flatten-append (xs ∷ xss) yss =
    ap (λ (zs : List ℕ). xs ++ zs) (flatten-append xss yss)
    ∙ sym (append_assoc xs (flatten xss) (flatten yss))

wrote-Inv :
    (c : Conn) (b : List ℕ) (n : ℕ)
    → c.sent ++ (b ++ flatten c.write_ch) ≡ c.accepted
    → length c.write_ch ≤ c.write_queue_size
    → (c.write_ch_closed ≡ true → c.close_ch ≡ true)
    → Inv (wrote b n c) × Inv (write_failed b n c)
unfolding wrote write_failed
wrote-Inv c b n flow bounded closing =
    let kept = taken c.sent b (flatten c.write_ch) n ∙ flow in
    (
      record {
        flow = λ _. kept;
        front = (drop n b ++ flatten c.write_ch, kept);
        bounded = bounded;
        closing = closing;
      },
      record {
        flow = λ running. absurd (running refl);
        front = (drop n b ++ flatten c.write_ch, kept);
        bounded = bounded;
        closing = λ _. refl;
      },
    )

-- The data of the queue's head, joined to the buffer, stands in front of the other data.
flow-receive :
    (c : Conn) (b f e : List ℕ) (rest : List (List ℕ))
    → c.write_ch ≡ b ∷ rest
    → c.buf ≡ f ++ e
    → c.sent ++ (c.buf ++ flatten c.write_ch) ≡ c.accepted
    → c.sent ++ (joined c.buf f e b ++ flatten rest) ≡ c.accepted
flow-receive c b f e rest q h flow =
    ap (λ (xs : List ℕ). c.sent ++ (xs ++ flatten rest)) (joined_lem c.buf f e b h)
    ∙ ap (λ (xs : List ℕ). c.sent ++ xs)
        (append_assoc c.buf b (flatten rest)
          ∙ ap (λ (xss : List (List ℕ)). c.buf ++ flatten xss) (sym q))
    ∙ flow

flow-tick :
    (c : Conn) (f e : List ℕ)
    → c.buf ≡ f ++ e
    → c.sent ++ (c.buf ++ flatten c.write_ch) ≡ c.accepted
    → c.sent ++ ((f ++ e) ++ flatten c.write_ch) ≡ c.accepted
flow-tick c f e h flow = ap (λ (xs : List ℕ). c.sent ++ (xs ++ flatten c.write_ch)) (sym h) ∙ flow

running : {l : Loop} → l ≡ selecting → l ≢ returned
running e = λ r. cc

pub Writing-Inv : {c c' : Conn} → Writing c c' → Inv c → Inv c'
Writing-Inv (test_closed t k) v = record {
  flow = λ r. absurd (r refl);
  front = v.front;
  bounded = v.bounded;
  closing = v.closing;
}
Writing-Inv {c} (test_open t k) v = record {
  flow = λ _. v.flow (λ r. cc);
  front = v.front;
  bounded = v.bounded;
  closing = v.closing;
}
Writing-Inv {c} (receive b f e rest n l q h le) v =
    (wrote-Inv (record c { write_ch = rest }) (joined c.buf f e b) n
      (flow-receive c b f e rest q h (v.flow (running l))) (omega (arith, v.bounded, ap length q))
      v.closing).0
Writing-Inv {c} (receive_failed b f e rest n l q h) v =
    (wrote-Inv (record c { write_ch = rest }) (joined c.buf f e b) n
      (flow-receive c b f e rest q h (v.flow (running l))) (omega (arith, v.bounded, ap length q))
      v.closing).1
Writing-Inv (drained l q k) v = record {
  flow = λ r. absurd (r refl);
  front = v.front;
  bounded = v.bounded;
  closing = v.closing;
}
Writing-Inv (tick_idle l h) v = record {
  flow = λ _. v.flow (running l);
  front = v.front;
  bounded = v.bounded;
  closing = v.closing;
}
Writing-Inv {c} (tick f e n l full h le) v =
    (wrote-Inv c (f ++ e) n (flow-tick c f e h (v.flow (running l))) v.bounded v.closing).0
Writing-Inv {c} (tick_failed f e n l full h) v =
    (wrote-Inv c (f ++ e) n (flow-tick c f e h (v.flow (running l))) v.bounded v.closing).1

enqueue-Inv :
    (c : Conn) (others : List (List ℕ)) (b : List ℕ)
    → length c.write_ch < c.write_queue_size
    → Inv c
    → Inv (enqueue others b c)
unfolding enqueue
enqueue-Inv c others b room v = record {
  flow = λ r.
      ap (λ (xs : List ℕ). c.sent ++ (c.buf ++ xs))
        (flatten-append c.write_ch (b ∷ [])
          ∙ ap (λ (xs : List ℕ). flatten c.write_ch ++ xs) (append-nil b))
      ∙ ap (λ (xs : List ℕ). c.sent ++ xs) (sym (append_assoc c.buf (flatten c.write_ch) b))
      ∙ sym (append_assoc c.sent (c.buf ++ flatten c.write_ch) b)
      ∙ ap (λ (xs : List ℕ). xs ++ b) (v.flow r);
  front = (
    v.front.0 ++ b,
    sym (append_assoc c.sent v.front.0 b) ∙ ap (λ (xs : List ℕ). xs ++ b) v.front.1,
  );
  bounded = omega (arith, length-append c.write_ch (b ∷ []));
  closing = v.closing;
}

Step-Inv : {c c' : Conn} → Step c c' → Inv c → Inv c'
Step-Inv (writing w) v = Writing-Inv w v
Step-Inv (write_begins b k) v = record {
  flow = v.flow;
  front = v.front;
  bounded = v.bounded;
  closing = v.closing;
}
Step-Inv {c} (write_sends before after b r k room) v = enqueue-Inv c (before ++ after) b room v
Step-Inv (write_full before after b r k full) v = record {
  flow = v.flow;
  front = v.front;
  bounded = v.bounded;
  closing = v.closing;
}
Step-Inv (write_panics before after b r k) v = record {
  flow = v.flow;
  front = v.front;
  bounded = v.bounded;
  closing = v.closing;
}
Step-Inv close_begins v = record {
  flow = v.flow;
  front = v.front;
  bounded = v.bounded;
  closing = λ _. refl;
}
Step-Inv (close_ends k) v = record {
  flow = v.flow;
  front = v.front;
  bounded = v.bounded;
  closing = λ _. k;
}

pub Reach-Inv : {size : ℕ} {c : Conn} → Reach size c → Inv c
unfolding dial_tcp_conn
Reach-Inv dialled = record {
  flow = λ _. refl;
  front = ([], refl);
  bounded = omega arith;
  closing = λ e. cc;
}
Reach-Inv (later r s) = Step-Inv s (Reach-Inv r)

-- In every state that is reached, as long as the loop of `writing` has not returned, what the socket
-- took, the buffer and the queue are, in this order, all data accepted from callers of `write`.
pub accepted-in_order :
    {size : ℕ} {c : Conn}
    → Reach size c
    → c.loop ≢ returned
    → c.sent ++ (c.buf ++ flatten c.write_ch) ≡ c.accepted
accepted-in_order r running = (Reach-Inv r).flow running
