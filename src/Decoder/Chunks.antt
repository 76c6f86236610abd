-- ===== src/Decoder/Chunks.antt =====
-- The read loop ends, and what it decodes does not depend on how the stream is cut into chunks.
use openapi_protocol.Base.{
  ℕ, zero, suc, ◌<◌, ◌≡◌, ◌≢◌, refl, sym, ap, ◌∙◌, arith, List, [], ◌∷◌, ◌++◌, append-nil,
  append_assoc, length-append, min, flatten,
}
use openapi_protocol.Packet.{Packet, Report, pending, complete, failure}
use openapi_protocol.Decoder.{Decoder, resume}
use openapi_protocol.Decoder.ReadLoop.{
  Ending, drained, broken, out_of_rounds, Reading, with_packet, react, read_packet, measure,
  read_all, proceed, read_on, read_chunks,
}

module _ (d : Decoder) where
  open d use {State, step, weight, step-append, complete_takes}

  -- A round that completes a packet leaves less than `n`.
  abbrev Below : ℕ → State × List ℕ × Report → Type 0
  Below n r = (p : Packet) → r.2 ≡ complete p → measure d r.0 r.1 < n

  react_agrees :
      (f g : State → List ℕ → Reading d) (n : ℕ) (r : State × List ℕ × Report)
      → ((s : State) (bytes : List ℕ) → measure d s bytes < n → f s bytes ≡ g s bytes)
      → Below n r
      → react d f r ≡ react d g r
  unfolding react
  react_agrees f g n (s, rest, pending) same below = refl
  react_agrees f g n (s, rest, failure e) same below = refl
  react_agrees f g n (s, rest, complete p) same below =
      ap (with_packet d p) (same s rest (below p refl))

  -- Rounds that are not needed change nothing.
  read_packet_rounds :
      (k j : ℕ) (s : State) (bytes : List ℕ)
      → measure d s bytes < k
      → measure d s bytes < j
      → read_packet d k s bytes ≡ read_packet d j s bytes
  unfolding read_packet
  read_packet_rounds zero j s bytes hk hj = absurd (omega arith)
  read_packet_rounds (suc k) zero s bytes hk hj = absurd (omega arith)
  read_packet_rounds (suc k) (suc j) s bytes hk hj =
      react_agrees _ _ (measure d s bytes) (step s bytes)
        (λ s' rest lt. read_packet_rounds k j s' rest (omega arith) (omega arith))
        (λ p e. complete_takes s bytes p e)

  -- A round of the loop, and then the loop again.
  pub read_all_round :
      (s : State) (bytes : List ℕ)
      → read_all d s bytes ≡ react d (λ t xs. read_all d t xs) (step s bytes)
  unfolding read_all read_packet
  read_all_round s bytes =
      react_agrees _ _ (measure d s bytes) (step s bytes)
        (λ t xs lt.
          read_packet_rounds (measure d s bytes) (suc (measure d t xs)) t xs lt (omega arith))
        (λ p e. complete_takes s bytes p e)

  react_ends :
      (again : State → List ℕ → Reading d) (n : ℕ) (r : State × List ℕ × Report)
      → ((s : State) (bytes : List ℕ)
          → measure d s bytes < n
          → (again s bytes).ending ≢ out_of_rounds)
      → Below n r
      → (react d again r).ending ≢ out_of_rounds
  unfolding react with_packet
  react_ends again n (s, rest, pending) ih below = λ e. cc
  react_ends again n (s, rest, failure x) ih below = λ e. cc
  react_ends again n (s, rest, complete p) ih below = ih s rest (below p refl)

  read_packet_ends :
      (limit : ℕ) (s : State) (bytes : List ℕ)
      → measure d s bytes < limit
      → (read_packet d limit s bytes).ending ≢ out_of_rounds
  unfolding read_packet
  read_packet_ends zero s bytes h = absurd (omega arith)
  read_packet_ends (suc limit) s bytes h =
      react_ends _ limit (step s bytes) (λ s' rest lt. read_packet_ends limit s' rest lt)
        (λ p e. omega (arith, complete_takes s bytes p e))

  -- The loop ends by its own test, on every stream and from every state.
  pub read_all-ne-out_of_rounds :
      (s : State) (bytes : List ℕ) → (read_all d s bytes).ending ≢ out_of_rounds
  unfolding read_all
  read_all-ne-out_of_rounds s bytes =
      read_packet_ends (suc (measure d s bytes)) s bytes (omega arith)

  with_packet-read_on :
      (p : Packet) (r : Reading d) (more : List ℕ)
      → read_on d (with_packet d p r) more ≡ with_packet d p (read_on d r more)
  unfolding read_on with_packet
  with_packet-read_on p r more = by_ending r.ending
    where
      by_ending :
          (e : Ending) → proceed d e (with_packet d p r) more ≡ with_packet d p (proceed d e r more)
      by_ending drained = refl
      by_ending (broken e) = refl
      by_ending out_of_rounds = refl

  -- One round on all the bytes, from the round on the first ones.
  react-resume :
      (again all : State → List ℕ → Reading d) (r : State × List ℕ × Report) (more : List ℕ)
      → ((s : State) (rest : List ℕ) (p : Packet)
          → r ≡ (s, rest, complete p)
          → all s (rest ++ more) ≡ read_on d (again s rest) more)
      → ((s : State) (rest : List ℕ)
          → r ≡ (s, rest, pending)
          → react d all (step s (rest ++ more)) ≡ read_all d s (rest ++ more))
      → react d all (resume step r more) ≡ read_on d (react d again r) more
  unfolding react read_on
  react-resume again all (s, rest, pending) more go wait = wait s rest refl
  react-resume again all (s, rest, failure e) more go wait = refl
  react-resume again all (s, rest, complete p) more go wait =
      ap (with_packet d p) (go s rest p refl) ∙ sym (with_packet-read_on p (again s rest) more)

  shrinks :
      (s s' : State) (bytes rest : List ℕ) (p : Packet)
      → step s bytes ≡ (s', rest, complete p)
      → measure d s' rest < measure d s bytes
  shrinks s s' bytes rest p e = rw e at (complete_takes s bytes p (rw e refl))

  -- A step that was waiting, done again with more bytes, needs no more rounds than all the bytes.
  waited :
      (s s' : State) (bytes rest more : List ℕ)
      → step s bytes ≡ (s', rest, pending)
      → react d (λ t xs. read_packet d (measure d s (bytes ++ more)) t xs) (step s' (rest ++ more))
        ≡ read_all d s' (rest ++ more)
  unfolding read_all
  waited s s' bytes rest more e =
      let n = measure d s (bytes ++ more) in
      let m = measure d s' (rest ++ more) in
      let joined : step s (bytes ++ more) ≡ step s' (rest ++ more) =
        step-append s bytes more ∙ rw e refl in
      react_agrees _ _ (min n m) (step s' (rest ++ more))
        (λ t xs lt. read_packet_rounds n m t xs (omega arith) (omega arith))
        (λ p q.
          let here = complete_takes s' (rest ++ more) p q in
          let there = rw joined at (complete_takes s (bytes ++ more) p (rw joined q)) in
          omega arith)

  read_packet-append :
      (limit : ℕ) (s : State) (bytes more : List ℕ)
      → measure d s bytes < limit
      → read_all d s (bytes ++ more) ≡ read_on d (read_packet d limit s bytes) more
  unfolding read_all
  read_packet-append zero s bytes more h = absurd (omega arith)
  read_packet-append (suc limit) s bytes more h =
      let n = measure d s (bytes ++ more) in
      let all = λ (t : State) (xs : List ℕ). read_packet d n t xs in
      rw (step-append s bytes more) (
        react-resume (λ t xs. read_packet d limit t xs) all (step s bytes) more
          (λ s' rest p e.
            let less = shrinks s s' bytes rest p e in
            read_packet_rounds n (suc (measure d s' (rest ++ more))) s' (rest ++ more)
              (omega (arith, length-append {0} rest more, length-append {0} bytes more))
              (omega arith)
            ∙ read_packet-append limit s' rest more (omega arith))
          (λ s' rest e. waited s s' bytes rest more e))

  -- Reading some bytes and then more of them is reading them all at once: the same packets, the
  -- same state, the same bytes left and the same ending.
  pub read_all-append :
      (s : State) (bytes more : List ℕ)
      → read_on d (read_all d s bytes) more ≡ read_all d s (bytes ++ more)
  read_all-append s bytes more =
      sym
        (unfold read_all in read_packet-append (suc (measure d s bytes)) s bytes more (omega arith))

  -- However the stream is cut into chunks, the loop decodes from it what it decodes from the whole
  -- stream at once: the same packets in the same order, the same state, rest and ending.
  pub read_chunks-read_all :
      (chunks : List (List ℕ)) (s : State) (bytes : List ℕ)
      → read_chunks d (read_all d s bytes) chunks ≡ read_all d s (bytes ++ flatten chunks)
  unfolding read_chunks
  read_chunks-read_all [] s bytes = rw append-nil refl
  read_chunks-read_all (chunk ∷ chunks) s bytes = rw (read_all-append s bytes chunk) (
      read_chunks-read_all chunks s (bytes ++ chunk)
      ∙ ap (read_all d s) (append_assoc bytes chunk (flatten chunks)))
