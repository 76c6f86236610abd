-- ===== src/Client/Tcp/Reading/Refines.antt =====
-- The reading side of a TCP connection does what the loop over a decoder's steps does on all bytes at
-- once, and what that loop decodes goes to `addPacket`, packet by packet.
use openapi_protocol.Base.{
  ℕ, zero, suc, ◌-◌, ◌≡◌, refl, sym, ap, ◌∙◌, arith, ◌==◌, ltb, List, [], ◌∷◌, ◌++◌, append-nil,
  append_assoc, length, take, flatten, false, Bool-cases, inl, inr,
}
use openapi_protocol.Base.Result.{ok}
use openapi_protocol.Packet.{Packet, Report, Outcome, pending, complete, failure}
use openapi_protocol.RingBuffer.{RingBuffer}
use openapi_protocol.RingBuffer.Pair.{Pair}
use openapi_protocol.Decoder.{Decoder}
use openapi_protocol.Decoder.ReadLoop
use openapi_protocol.Decoder.ReadLoop.{
  Ending, Reading, with_packet, measure, read_all, proceed, read_on,
}
use openapi_protocol.Decoder.Chunks.{read_all-append}
use openapi_protocol.Client.Inbox.Channel.{
  add_packet, add_each, add_each-append, add_each_lem, take_nil,
}
use openapi_protocol.Client.Tcp.Reading.{
  Reads, drained, broken, crashed, out_of_rounds, react, read_packet, keep_rest, read_some, go_on,
  reading,
}

nil_of_length : (xs : List ℕ) → length xs ≡ 0 → xs ≡ []
nil_of_length [] e = refl
nil_of_length (x ∷ xs) e = absurd (omega (arith, e))

-- As many rounds as the loop can need.
abbrev pub rounds : (d : Decoder) {C : Type 0} → (C → d.State) → C → List ℕ → ℕ
rounds d state c bytes = suc (measure d (state c) bytes)

-- On the ring buffers `rb`, `unpack` does what the decoder does on the bytes held, from every context
-- that is `Good`.
pub record Unpacks (d : Decoder) (rb : RingBuffer) {C : Type 0} (state : C → d.State)
    (Good : C → Type 0) (unpack : C → rb.Buf → Outcome C rb.Buf) : Type 0 where
  pub refines :
      (c : C) (b : rb.Buf)
      → Good c
      → let s = d.step (state c) (rb.contents b) in
        (c' : C) × (b' : rb.Buf) × (unpack c b ≡ ok (c', b', s.2))
        × Good c'
        × (state c' ≡ s.0)
        × (rb.contents b' ≡ s.1)

module _ (d : Decoder) (rb : RingBuffer) {C : Type 0} (state : C → d.State) (Good : C → Type 0)
    (size : ℕ) where
  -- What the code leaves where the loop over the decoder's steps left `r`, with the channel at first
  -- `ch`.
  unfoldable pub Matches : List Packet → Reading d → Reads C rb.Buf → Ending → Type 0
  Matches ch r reads ReadLoop.drained =
      (c : C) × (b : rb.Buf) × (reads ≡ drained c b (add_each size r.packets ch))
      × Good c
      × (state c ≡ r.state)
      × (rb.contents b ≡ r.left)
  Matches ch r reads (ReadLoop.broken e) = reads ≡ broken e (add_each size r.packets ch)
  Matches ch r reads ReadLoop.out_of_rounds = Unit

module _ (d : Decoder) (rb : RingBuffer) {C : Type 0} (state : C → d.State) (Good : C → Type 0)
    (size : ℕ) where
  with_packet-Matches :
      (p : Packet) (ch : List Packet) (r : Reading d) (reads : Reads C rb.Buf) (e : Ending)
      → Matches d rb state Good size (add_packet size p ch) r reads e
      → Matches d rb state Good size ch (with_packet d p r) reads e
  unfolding Matches add_each with_packet
  with_packet-Matches p ch r reads ReadLoop.drained m = m
  with_packet-Matches p ch r reads (ReadLoop.broken e) m = m
  with_packet-Matches p ch r reads ReadLoop.out_of_rounds m = m

  module _ (unpack : C → rb.Buf → Outcome C rb.Buf) (u : Unpacks d rb state Good unpack) where
    react-Matches :
        (n : ℕ) (ch : List Packet) (c : C) (b : rb.Buf) (o : d.State × List ℕ × Report)
        → Good c
        → state c ≡ o.0
        → rb.contents b ≡ o.1
        → ((ch' : List Packet)
            → let r = ReadLoop.read_packet d n (state c) (rb.contents b) in
              Matches d rb state Good size ch' r (read_packet unpack size n c b ch') r.ending)
        → let r = ReadLoop.react d (λ s xs. ReadLoop.read_packet d n s xs) o in
          Matches d rb state Good size ch r
            (react size (λ c' b' ch'. read_packet unpack size n c' b' ch') ch (ok (c, b, o.2)))
            r.ending
    unfolding react ReadLoop.react Matches add_each
    react-Matches n ch c b (s, rest, pending) good es eb go = (c, b, refl, good, es, eb)
    react-Matches n ch c b (s, rest, failure e) good es eb go = refl
    react-Matches n ch c b (s, rest, complete p) good es eb go =
        rw (← es, ← eb)
          (unfold with_packet in
            with_packet-Matches p ch (ReadLoop.read_packet d n (state c) (rb.contents b))
              (read_packet unpack size n c b (add_packet size p ch))
              (ReadLoop.read_packet d n (state c) (rb.contents b)).ending
              (go (add_packet size p ch)))

    read_packet-Matches :
        (n : ℕ) (ch : List Packet) (c : C) (b : rb.Buf)
        → Good c
        → let r = ReadLoop.read_packet d n (state c) (rb.contents b) in
          Matches d rb state Good size ch r (read_packet unpack size n c b ch) r.ending
    unfolding read_packet ReadLoop.read_packet
    read_packet-Matches zero ch c b good = unfold Matches in tt
    read_packet-Matches (suc n) ch c b good =
        let t = u.refines c b good in
        rw t.2 (
          react-Matches n ch t.0 t.1 (d.step (state c) (rb.contents b)) t.3 t.4 t.5
            (λ ch'. read_packet-Matches n ch' t.0 t.1 t.3))

    -- The loop with as many rounds as it can need.
    loop-Matches :
        (ch : List Packet) (c : C) (b : rb.Buf) (bytes : List ℕ)
        → Good c
        → rb.contents b ≡ bytes
        → let r = read_all d (state c) bytes in
          Matches d rb state Good size ch r
            (read_packet unpack size (suc (measure d (state c) bytes)) c b ch)
            r.ending
    loop-Matches ch c b bytes good held = rw (← held) (
        unfold read_all in
        read_packet-Matches (suc (measure d (state c) (rb.contents b))) ch c b good)

module _ (d : Decoder) (rbs : Pair) {C : Type 0} (state : C → d.State) (Good : C → Type 0)
    (unpack : C → rbs.ring.Buf → Outcome C rbs.ring.Buf)
    (unpack_flat : C → rbs.flat.Buf → Outcome C rbs.flat.Buf) (size : ℕ) where
  nothing_left :
      (f : rbs.flat.Buf) → ltb 0 (rbs.flat.buf_length f) ≡ false → rbs.flat.contents f ≡ []
  nothing_left f e = nil_of_length (rbs.flat.contents f) (ground (arith, rbs.flat.length_law f))

  keep_rest-Matches :
      (ch : List Packet) (b : rbs.ring.Buf) (r : Reading d) (reads : Reads C rbs.flat.Buf)
      (e : Ending)
      → rbs.ring.contents b ≡ []
      → Matches d rbs.flat state Good size ch r reads e
      → Matches d rbs.ring state Good size ch r
          (keep_rest rbs unpack unpack_flat size (rounds d state) b reads)
          e
  unfolding Matches keep_rest
  keep_rest-Matches ch b r reads ReadLoop.drained none_yet m =
      elim (Bool-cases (ltb 0 (rbs.flat.buf_length m.1))) [
        | inl e ↦
            rw (m.2, e)
              (
                m.0,
                rbs.write (rbs.first m.1) b,
                refl,
                m.3,
                m.4,
                rbs.write_law (rbs.first m.1) b ∙ rw none_yet (rbs.first_law m.1) ∙ m.5,
              )
        | inr e ↦ rw (m.2, e) (m.0, b, refl, m.3, m.4, none_yet ∙ sym (nothing_left m.1 e) ∙ m.5)
      ]
  keep_rest-Matches ch b r reads (ReadLoop.broken e) none_yet m = rw m refl
  keep_rest-Matches ch b r reads ReadLoop.out_of_rounds none_yet m = tt

  -- Reading on puts the packets behind those of before.
  behind :
      (ch : List Packet) (ps : List Packet) (r : Reading d) (reads : Reads C rbs.ring.Buf)
      (e : Ending)
      → Matches d rbs.ring state Good size (add_each size ps ch) r reads e
      → Matches d rbs.ring state Good size ch (record r { packets = ps ++ r.packets }) reads e
  unfolding Matches
  behind ch ps r reads ReadLoop.drained m = rw (add_each-append size ps r.packets ch) m
  behind ch ps r reads (ReadLoop.broken e) m = rw (add_each-append size ps r.packets ch) m
  behind ch ps r reads ReadLoop.out_of_rounds m = m

  go_on_nil :
      (reads : Reads C rbs.ring.Buf)
      → go_on rbs unpack unpack_flat size (rounds d state) [] reads ≡ reads
  unfolding go_on read_some
  go_on_nil (drained c b ch) = refl
  go_on_nil (broken e ch) = refl
  go_on_nil crashed = refl
  go_on_nil out_of_rounds = refl

  module _ (u : Unpacks d rbs.ring state Good unpack)
      (v : Unpacks d rbs.flat state Good unpack_flat) where
    read_some-Matches :
        (x : ℕ) (xs : List ℕ) (c : C) (b : rbs.ring.Buf) (ch : List Packet)
        → Good c
        → let r = read_all d (state c) (rbs.ring.contents b ++ (x ∷ xs)) in
          Matches d rbs.ring state Good size ch r
            (read_some rbs unpack unpack_flat size (rounds d state) (x ∷ xs) c b ch)
            r.ending
    unfolding read_some
    read_some-Matches x xs c b ch good =
        let some_bytes : (suc (length xs) == 0) ≡ false = ground arith in
        elim (Bool-cases (rbs.ring.buf_length b == 0)) [
          | inl e ↦
              let empty : rbs.ring.contents b ≡ [] =
                nil_of_length (rbs.ring.contents b) (ground (arith, rbs.ring.length_law b)) in
              rw (some_bytes, e, empty)
                (keep_rest-Matches ch b (read_all d (state c) (x ∷ xs)) _ _ empty (
                  loop-Matches d rbs.flat state Good size unpack_flat v ch c
                    (rbs.new_with_data (x ∷ xs)) (x ∷ xs) good (rbs.new_with_data_law (x ∷ xs))))
          | inr e ↦
              rw (some_bytes, e, rbs.write_law (x ∷ xs) b)
                (loop-Matches d rbs.ring state Good size unpack u ch c (rbs.write (x ∷ xs) b)
                  (rbs.ring.contents b ++ (x ∷ xs)) good (rbs.write_law (x ∷ xs) b))
        ]

    go_on-Matches :
        (x : ℕ) (xs : List ℕ) (ch : List Packet) (r : Reading d) (reads : Reads C rbs.ring.Buf)
        (e : Ending)
        → r.ending ≡ e
        → Matches d rbs.ring state Good size ch r reads e
        → let r' = proceed d e r (x ∷ xs) in
          Matches d rbs.ring state Good size ch r'
            (go_on rbs unpack unpack_flat size (rounds d state) (x ∷ xs) reads)
            r'.ending
    unfolding go_on proceed Matches
    go_on-Matches x xs ch r reads ReadLoop.drained h m =
        behind ch r.packets (read_all d r.state (r.left ++ (x ∷ xs))) _ _
          (rw (m.2, ← m.4, ← m.5) (read_some-Matches x xs m.0 m.1 (add_each size r.packets ch) m.3))
    go_on-Matches x xs ch r reads (ReadLoop.broken e) h m = rw (h, m) refl
    go_on-Matches x xs ch r reads ReadLoop.out_of_rounds h m = rw h tt

    module _ (c : C) (b : rbs.ring.Buf) (ch : List Packet) (good : Good c)
        (none_yet : rbs.ring.contents b ≡ []) where
      -- Where `reading` stands after the bytes of a prefix of the stream.
      data Along (prefix : List ℕ) (reads : Reads C rbs.ring.Buf) : Type 0 where
        begun : prefix ≡ [] → reads ≡ drained c b ch → Along prefix reads
        under_way :
            (let r = read_all d (state c) prefix in
              Matches d rbs.ring state Good size ch r reads r.ending)
            → Along prefix reads

      go_on-Along :
          (prefix bytes : List ℕ) (reads : Reads C rbs.ring.Buf)
          → Along prefix reads
          → Along (prefix ++ bytes) (go_on rbs unpack unpack_flat size (rounds d state) bytes reads)
      unfolding go_on
      go_on-Along prefix [] reads a = rw (append-nil, go_on_nil reads) a
      go_on-Along prefix (x ∷ xs) reads (begun e h) =
          under_way (rw (e, h) (rw none_yet at (read_some-Matches x xs c b ch good)))
      go_on-Along prefix (x ∷ xs) reads (under_way m) = under_way (
          rw (← (read_all-append d (state c) prefix (x ∷ xs)))
            (unfold read_on in go_on-Matches x xs ch (read_all d (state c) prefix) reads _ refl m))

      reading-Along :
          (chunks : List (List ℕ)) (prefix : List ℕ) (reads : Reads C rbs.ring.Buf)
          → Along prefix reads
          → Along
              (prefix ++ flatten chunks)
              (reading rbs unpack unpack_flat size (rounds d state) chunks reads)
      unfolding reading
      reading-Along [] prefix reads a = rw append-nil a
      reading-Along (bytes ∷ chunks) prefix reads a =
          rw (← (append_assoc prefix bytes (flatten chunks)))
            (reading-Along chunks (prefix ++ bytes) _ (go_on-Along prefix bytes reads a))

      -- When the loop over the steps decodes the packets `ps` from the whole stream and waits with
      -- `left`, `reading` leaves `left` in its buffer and has called `addPacket` on just `ps`.
      pub reading-read_all :
          (chunks : List (List ℕ)) (s s' : d.State) (left : List ℕ) (ps : List Packet)
          → read_all d (state c) []
            ≡ record { packets = []; state = s; left = []; ending = ReadLoop.drained }
          → read_all d (state c) (flatten chunks)
            ≡ record { packets = ps; state = s'; left = left; ending = ReadLoop.drained }
          → (c' : C) × (b' : rbs.ring.Buf) × (reading rbs unpack unpack_flat size
                (rounds d state)
                chunks
                (drained c b ch)
              ≡ drained c' b' (ch ++ take (size - length ch) ps))
            × (rbs.ring.contents b' ≡ left)
      unfolding Matches
      reading-read_all chunks s s' left ps idle whole =
          by_case (flatten chunks) _ whole
            (reading-Along chunks [] (drained c b ch) (begun refl refl))
        where
          by_case :
              (bytes : List ℕ) (reads : Reads C rbs.ring.Buf)
              → read_all d (state c) bytes
                ≡ record { packets = ps; state = s'; left = left; ending = ReadLoop.drained }
              → Along bytes reads
              → (c' : C) × (b' : rbs.ring.Buf) × (reads
                  ≡ drained c' b' (ch ++ take (size - length ch) ps))
                × (rbs.ring.contents b' ≡ left)
          by_case bytes reads w (begun e h) =
              let same = sym idle ∙ ap (read_all d (state c)) (sym e) ∙ w in
              let no_packet : [] ≡ ps = ap (λ (r : Reading d). r.packets) same in
              let room = size - length ch in
              (
                c,
                b,
                h
                    ∙ ap (λ (xs : List Packet). drained c b xs)
                        (rw (← no_packet) (
                          sym (append-nil ch)
                          ∙ ap (λ (xs : List Packet). ch ++ xs) (sym (take_nil room)))),
                none_yet ∙ ap (λ (r : Reading d). r.left) same,
              )
          by_case bytes reads w (under_way m) =
              let out : Matches d rbs.ring state Good size ch
                  (record { packets = ps; state = s'; left = left; ending = ReadLoop.drained })
                  reads ReadLoop.drained =
                rw w at m in
              (
                out.0,
                out.1,
                out.2 ∙ ap (λ (xs : List Packet). drained out.0 out.1 xs) (add_each_lem size ps ch),
                out.5,
              )
