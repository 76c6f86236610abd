-- ===== src/Client/Inbox/Channel.antt =====
-- go/client/tcp_conn.go and go/client/ws_conn.go: `addPacket` of either connection, on the packet
-- channel while the goroutine of `OnPacket` takes no packet from it. A channel that is nil, before
-- `OnPacket` is called, is one of size 0.
use openapi_protocol.Base.{
  ℕ, zero, suc, ◌-◌, ◌<◌, ◌≡◌, refl, sym, ap, ◌∙◌, arith, ltb, List, [], ◌∷◌, ◌++◌, append-nil,
  append_assoc, length, length-append, take, true, Bool-cases, inl, inr, if◌then◌else◌,
}
use openapi_protocol.Packet.{Packet}

-- A packet is dropped when the channel is full.
unfoldable pub add_packet : ℕ → Packet → List Packet → List Packet
add_packet size p ch = if ltb (length ch) size then ch ++ (p ∷ []) else ch

-- `addPacket` of each packet, in order.
unfoldable pub add_each : ℕ → List Packet → List Packet → List Packet
add_each size [] ch = ch
add_each size (p ∷ ps) ch = add_each size ps (add_packet size p ch)

pub add_each-append :
    (size : ℕ) (ps qs ch : List Packet)
    → add_each size (ps ++ qs) ch ≡ add_each size qs (add_each size ps ch)
unfolding add_each
add_each-append size [] qs ch = refl
add_each-append size (p ∷ ps) qs ch = add_each-append size ps qs (add_packet size p ch)

take_none : (n : ℕ) (ps : List Packet) → n ≡ 0 → take n ps ≡ []
take_none n ps e = rw e refl

pub take_nil : (n : ℕ) → take {A = Packet} n [] ≡ []
take_nil zero = refl
take_nil (suc n) = refl

below : (m n : ℕ) → ltb m n ≡ true → m < n
below m n e = ground arith

take_one : (n m : ℕ) (p : Packet) (ps : List Packet) → n ≡ suc m → take n (p ∷ ps) ≡ p ∷ take m ps
take_one n m p ps e = rw e refl

-- The channel keeps the first packets, as many as it has room for.
pub add_each_lem :
    (size : ℕ) (ps ch : List Packet) → add_each size ps ch ≡ ch ++ take (size - length ch) ps
unfolding add_each add_packet
add_each_lem size [] ch =
    sym (append-nil ch) ∙ ap (λ (xs : List Packet). ch ++ xs) (sym (take_nil (size - length ch)))
add_each_lem size (p ∷ ps) ch = elim (Bool-cases (ltb (length ch) size)) [
  | inl e ↦
      let left = size - length (ch ++ (p ∷ [])) in
      let room : size - length ch ≡ suc left =
        omega (arith, length-append ch (p ∷ []), below (length ch) size e) in
      rw e (add_each_lem size ps (ch ++ (p ∷ [])))
      ∙ append_assoc ch (p ∷ []) (take left ps)
      ∙ ap (λ (xs : List Packet). ch ++ xs) (sym (take_one (size - length ch) left p ps room))
  | inr e ↦
      let full : size - length ch ≡ 0 = ground arith in
      rw e (add_each_lem size ps ch)
      ∙ ap (λ (xs : List Packet). ch ++ xs)
          (take_none (size - length ch) ps full ∙ sym (take_none (size - length ch) (p ∷ ps) full))
]
