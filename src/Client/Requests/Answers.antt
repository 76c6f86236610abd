-- ===== src/Client/Requests/Answers.antt =====
-- A call of `recv` returns no response but its own.
use openapi_protocol.Base.{
  ℕ, ◌<◌, ◌≡◌, refl, arith, List, [], ◌∷◌, true, false, ◌==◌, Option, none, some, ◌⊎◌, ==_iff, sym,
  ap, ◌∙◌, Bool-cases, inl, inr,
}
use openapi_protocol.Packet.{Packet}
use openapi_protocol.Client.Requests.{
  Call, Table, new_table, find, remove, update, register, close_channel, leave, send, fill_channel,
  respond, handle_response, close_each, drop_receivers, Step, begins, responds, answers,
  finds_closed, times_out, starts_reconnecting, reconnects, ends_reconnecting, Reach, made_new,
  later,
}

-- The packet in the channel of a call and the packet that it returned are responses to its request.
pub record IsOwn (call : Call) : Type 0 where
  pub held : (p : Packet) → call.reply ≡ some p → p.metadata.request_id ≡ call.request_id
  pub told : (p : Packet) → call.answer ≡ some p → p.metadata.request_id ≡ call.request_id

-- Each entry of `recvs` is that of a call with this number.
pub record Inv (t : Table) : Type 0 where
  pub listed :
      (rid c : ℕ) → find rid t.recvs ≡ some c → ((t.calls c).request_id ≡ rid) × (c < t.made)
  pub own : (c : ℕ) → IsOwn (t.calls c)

find-removed : (rid : ℕ) (es : List (ℕ × ℕ)) → find rid (remove rid es) ≡ none
unfolding find remove
find-removed rid [] = refl
find-removed rid ((i, d) ∷ es) = ground (arith, find-removed rid es)

find-remove :
    (rid j c : ℕ) (es : List (ℕ × ℕ)) → find j (remove rid es) ≡ some c → find j es ≡ some c
unfolding find remove
find-remove rid j c [] h = h
find-remove rid j c ((i, d) ∷ es) h = ground (arith, find-remove rid j c es, find-removed rid es)

find-register :
    (rid j c d : ℕ) (es : List (ℕ × ℕ))
    → find j ((rid, d) ∷ remove rid es) ≡ some c
    → ((rid ≡ j) × (d ≡ c)) ⊎ (find j es ≡ some c)
unfolding find
find-register rid j c d es h = elim (Bool-cases (rid == j)) [
  | inl e ↦ let found : some d ≡ some c = simp e at h in inl ((==_iff rid j).0 e, cc found)
  | inr e ↦
      let found : find j (remove rid es) ≡ some c = simp e at h in
      inr (find-remove rid j c es found)
]

module _ (c : ℕ) (call : Call) (calls : ℕ → Call) where
  IsOwn-update : ((i : ℕ) → IsOwn (calls i)) → IsOwn call → (i : ℕ) → IsOwn (update c call calls i)
  unfolding update
  IsOwn-update own v i = elim (Bool-cases (i == c)) [ inl e ↦ rw e v | inr e ↦ rw e (own i) ]

  id-update :
      call.request_id ≡ (calls c).request_id
      → (i : ℕ) → (update c call calls i).request_id ≡ (calls i).request_id
  unfolding update
  id-update h i = elim (Bool-cases (i == c)) [
    | inl e ↦ rw e (h ∙ ap (λ (k : ℕ). (calls k).request_id) (sym ((==_iff i c).0 e)))
    | inr e ↦ rw e refl
  ]

-- A step that lists no new call.
kept :
    (t t' : Table)
    → Inv t
    → ((rid c : ℕ) → find rid t'.recvs ≡ some c → find rid t.recvs ≡ some c)
    → ((i : ℕ) → (t'.calls i).request_id ≡ (t.calls i).request_id)
    → t.made ≡ t'.made
    → ((i : ℕ) → IsOwn (t'.calls i))
    → Inv t'
kept t t' v sub ids same own = record {
  listed = λ rid c h.
      let old = v.listed rid c (sub rid c h) in (ids c ∙ old.0, omega (arith, old.1, same));
  own = own;
}

set-Inv :
    (c : ℕ) (call : Call) (t : Table)
    → Inv t
    → call.request_id ≡ (t.calls c).request_id
    → IsOwn call
    → Inv (record t { calls = update c call t.calls })
set-Inv c call t v h own =
    kept t (record t { calls = update c call t.calls }) v (λ rid d e. e)
      (id-update c call t.calls h) refl (IsOwn-update c call t.calls v.own own)

close_channel-Inv : (c : ℕ) (t : Table) → Inv t → Inv (close_channel c t)
unfolding close_channel
close_channel-Inv c t v = elim (Bool-cases (t.calls c).closed) [
  | inl e ↦ rw e (record { listed = v.listed; own = v.own })
  | inr e ↦ rw e (
      set-Inv c (record (t.calls c) { closed = true }) t v refl
        (record { held = (v.own c).held; told = (v.own c).told }))
]

close_each-Inv : (es : List (ℕ × ℕ)) (t : Table) → Inv t → Inv (close_each es t)
unfolding close_each
close_each-Inv [] t v = v
close_each-Inv ((j, c) ∷ es) t v = close_each-Inv es (close_channel c t) (close_channel-Inv c t v)

fill_channel-Inv :
    (c : ℕ) (p : Packet) (t : Table) (reply : Option Packet)
    → p.metadata.request_id ≡ (t.calls c).request_id
    → Inv t
    → Inv (fill_channel c p t reply)
unfolding fill_channel
fill_channel-Inv c p t none h v =
    set-Inv c (record (t.calls c) { reply = some p }) t v refl
      (record { held = λ q e. cc (e, h); told = (v.own c).told })
fill_channel-Inv c p t (some q) h v = v

respond-Inv :
    (p : Packet) (t : Table) (found : Option ℕ)
    → find p.metadata.request_id t.recvs ≡ found
    → Inv t
    → Inv (respond p t found)
unfolding respond send
respond-Inv p t none h v = v
respond-Inv p t (some c) h v =
    let own = sym (v.listed p.metadata.request_id c h).0 in
    elim (Bool-cases (t.calls c).closed) [
      | inl e ↦ rw e (record { listed = v.listed; own = v.own })
      | inr e ↦ rw e (fill_channel-Inv c p t (t.calls c).reply own v)
    ]

leave-Inv :
    (c : ℕ) (answer : Option Packet) (t : Table)
    → ((p : Packet) → answer ≡ some p → p.metadata.request_id ≡ (t.calls c).request_id)
    → Inv t
    → Inv (leave c answer t)
unfolding leave
leave-Inv c answer t h v =
    let call = t.calls c in
    let left = record call { reply = none; waiting = false; answer = answer } in
    close_channel-Inv c _ (
      kept t (record t { recvs = remove call.request_id t.recvs; calls = update c left t.calls }) v
        (λ j d e. find-remove call.request_id j d t.recvs e) (id-update c left t.calls refl) refl
        (IsOwn-update c left t.calls v.own (record { held = λ p e. cc; told = h })))

register-Inv : (rid : ℕ) (t : Table) → Inv t → Inv (register rid t)
unfolding register update
register-Inv rid t v = record {
  listed = λ j c h. elim (find-register rid j c t.made t.recvs h) [
    | inl e ↦
        let here : (c == t.made) ≡ true = ground (arith, e.1) in (rw here e.0, omega (arith, e.1))
    | inr e ↦
        let old = v.listed j c e in
        let apart : (c == t.made) ≡ false = ground (arith, old.1) in
        (rw apart old.0, omega (arith, old.1))
  ];
  own = IsOwn-update t.made _ t.calls v.own (record { held = λ p e. cc; told = λ p e. cc });
}

Step-Inv : {t t' : Table} → Step t t' → Inv t → Inv t'
unfolding handle_response drop_receivers find
Step-Inv {t} (begins rid) v = register-Inv rid t v
Step-Inv {t} (responds p) v = respond-Inv p t _ refl v
Step-Inv {t} (answers c p w h) v = leave-Inv c (some p) t (λ q e. cc (e, (v.own c).held p h)) v
Step-Inv {t} (finds_closed c w h k) v = leave-Inv c none t (λ q e. cc) v
Step-Inv {t} (times_out c w) v = leave-Inv c none t (λ q e. cc) v
Step-Inv {t} (starts_reconnecting w k) v = record { listed = v.listed; own = v.own }
Step-Inv {t} (reconnects k) v = record {
  listed = λ rid c h. cc;
  own = (close_each-Inv t.recvs t v).own;
}
Step-Inv {t} (ends_reconnecting w k) v = record { listed = v.listed; own = v.own }

Reach-Inv : {t : Table} → Reach t → Inv t
unfolding new_table find
Reach-Inv made_new = record {
  listed = λ rid c h. cc;
  own = λ c. record { held = λ p h. cc; told = λ p h. cc };
}
Reach-Inv (later r s) = Step-Inv s (Reach-Inv r)

-- In every state that is reached, however calls, responses, ends of time and reconnections mix, the
-- packet that a call of `recv` returned, and the packet in its channel, carry the request id that it
-- was called with.
pub answer-IsOwn :
    {t : Table} (c : ℕ)
    → Reach t
    → ((p : Packet) → (t.calls c).answer ≡ some p → p.metadata.request_id ≡ (t.calls c).request_id)
      × ((p : Packet) → (t.calls c).reply ≡ some p → p.metadata.request_id ≡ (t.calls c).request_id)
answer-IsOwn c r = let own = (Reach-Inv r).own c in (own.told, own.held)
