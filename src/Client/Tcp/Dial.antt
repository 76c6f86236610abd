-- ===== src/Client/Tcp/Dial.antt =====
-- go/client/tcp_conn.go: the end of `dialTCPConn`, which starts the goroutines of the connection and
-- then writes the handshake; nobody else has the connection before it returns.
use openapi_protocol.Base.{
  ℕ, ◌≤◌, ◌<◌, ◌≡◌, refl, sym, ap, ◌∙◌, List, [], ◌∷◌, ◌++◌, append-nil, append_assoc, length, take,
  take-append_le, true, false,
}
use openapi_protocol.Base.Result.{ok}
use openapi_protocol.Protocol.Handshake.{Handshake, IsValid, pack, unpack, unpack-pack}
use openapi_protocol.Client.Tcp.{
  Conn, dial_tcp_conn, wrote, write_failed, enqueue, Writing, test_closed, test_open, receive,
  receive_failed, drained, tick_idle, tick, tick_failed, Step, writing, write_begins, write_sends,
  write_full, write_panics, close_begins, close_ends, Reach, dialled, later,
}
use openapi_protocol.Client.Tcp.Flow.{Reach-Inv}

-- Before the handshake is in the queue: the loop of `writing` runs, and the reader may close the
-- connection.
pub data Dialling (h : Handshake) (size : ℕ) : Conn → Type 0 where
  communicating : Dialling h size (dial_tcp_conn size)
  loop_runs : {c c' : Conn} → Dialling h size c → Writing c c' → Dialling h size c'
  reader_closes : {c : Conn} → Dialling h size c → Dialling h size (record c { close_ch = true })
  reader_closed :
      {c : Conn}
      → Dialling h size c
      → c.close_ch ≡ true
      → Dialling h size (record c { write_ch_closed = true })
  handshake_begins :
      {c : Conn}
      → Dialling h size c
      → c.ready ≡ []
      → c.close_ch ≡ false
      → Dialling h size (record c { ready = pack h ∷ c.ready })

-- `dialTCPConn` has returned the connection, and any goroutine goes on.
pub data Dialled (h : Handshake) (size : ℕ) : Conn → Type 0 where
  handshake_sent :
      {c : Conn}
      → Dialling h size c
      → c.ready ≡ pack h ∷ []
      → c.write_ch_closed ≡ false
      → length c.write_ch < c.write_queue_size
      → Dialled h size (enqueue [] (pack h) c)
  goes_on : {c c' : Conn} → Dialled h size c → Step c c' → Dialled h size c'

Writing-accepted : {c c' : Conn} → Writing c c' → (c'.accepted ≡ c.accepted) × (c'.ready ≡ c.ready)
unfolding wrote write_failed
Writing-accepted (test_closed t k) = (refl, refl)
Writing-accepted (test_open t k) = (refl, refl)
Writing-accepted (receive b f e rest n l q h le) = (refl, refl)
Writing-accepted (receive_failed b f e rest n l q h) = (refl, refl)
Writing-accepted (drained l q k) = (refl, refl)
Writing-accepted (tick_idle l h) = (refl, refl)
Writing-accepted (tick f e n l full h le) = (refl, refl)
Writing-accepted (tick_failed f e n l full h) = (refl, refl)

-- The data accepted begins with the bytes `first`.
abbrev Starts : List ℕ → Conn → Type 0
Starts first c = (more : List ℕ) × (c.accepted ≡ first ++ more)

Step-Starts : (first : List ℕ) {c c' : Conn} → Step c c' → Starts first c → Starts first c'
unfolding enqueue
Step-Starts first (writing w) v = (v.0, (Writing-accepted w).0 ∙ v.1)
Step-Starts first (write_begins b k) v = v
Step-Starts first (write_sends before after b r k room) v =
    (v.0 ++ b, ap (λ (xs : List ℕ). xs ++ b) v.1 ∙ append_assoc first v.0 b)
Step-Starts first (write_full before after b r k full) v = v
Step-Starts first (write_panics before after b r k) v = v
Step-Starts first close_begins v = v
Step-Starts first (close_ends k) v = v

module _ {h : Handshake} {size : ℕ} where
  Dialling-Reach : {c : Conn} → Dialling h size c → Reach size c
  Dialling-Reach communicating = dialled
  Dialling-Reach (loop_runs d w) = later (Dialling-Reach d) (writing w)
  Dialling-Reach (reader_closes d) = later (Dialling-Reach d) close_begins
  Dialling-Reach (reader_closed d k) = later (Dialling-Reach d) (close_ends k)
  Dialling-Reach (handshake_begins d r k) = later (Dialling-Reach d) (write_begins (pack h) k)

  -- Nothing is accepted before the handshake.
  Dialling-accepted : {c : Conn} → Dialling h size c → c.accepted ≡ []
  unfolding dial_tcp_conn
  Dialling-accepted communicating = refl
  Dialling-accepted (loop_runs d w) = (Writing-accepted w).0 ∙ Dialling-accepted d
  Dialling-accepted (reader_closes d) = Dialling-accepted d
  Dialling-accepted (reader_closed d k) = Dialling-accepted d
  Dialling-accepted (handshake_begins d r k) = Dialling-accepted d

  pub Dialled-Reach : {c : Conn} → Dialled h size c → Reach size c
  Dialled-Reach (handshake_sent d r k room) =
      later (Dialling-Reach d) (write_sends [] [] (pack h) r k room)
  Dialled-Reach (goes_on d s) = later (Dialled-Reach d) s

  Dialled-Starts : {c : Conn} → Dialled h size c → Starts (pack h) c
  unfolding enqueue
  Dialled-Starts (handshake_sent d r k room) =
      ([], rw (Dialling-accepted d) (sym (append-nil (pack h))))
  Dialled-Starts (goes_on d s) = Step-Starts (pack h) s (Dialled-Starts d)

  -- On every connection that `dialTCPConn` returned, whatever its goroutines did since, the first two
  -- bytes that the socket took, once it took two, are read as the handshake, when its fields fit four
  -- bits each.
  pub unpack-sent :
      {c : Conn} → Dialled h size c → IsValid h → 2 ≤ length c.sent → unpack (take 2 c.sent) ≡ ok h
  unpack-sent {c} d valid two =
      let front = (Reach-Inv (Dialled-Reach d)).front in
      let starts = Dialled-Starts d in
      let head : take 2 c.sent ≡ pack h =
        sym (take-append_le 2 c.sent front.0 two)
        ∙ ap (take 2) (front.1 ∙ starts.1)
        ∙ (unfold pack in refl) in
      rw head (unpack-pack h valid)
