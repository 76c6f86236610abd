-- ===== src/Client/Requests/Ids.antt =====
-- Requests take their ids from the counter of the connection (go/context.go, go/packet.go), and a call
-- of `recv` waits under the id of its request.
use openapi_protocol.Base.{
  ℕ, zero, suc, ◌+◌, ◌%◌, ◌^◌, ◌≤◌, ◌<◌, ◌≡◌, ◌≢◌, refl, sym, ap, ◌∙◌, arith, List, [], ◌∷◌, true,
  false, ◌==◌, some, Bool-cases, inl, inr,
}
use openapi_protocol.Context.{Context, next_req_id}
use openapi_protocol.Client.Requests.{Table, find, remove, register}

-- `n` requests one after the other, each of which takes an id and waits under it.
unfoldable pub register_each : {H A : Type 0} → ℕ → Context H A → Table → Table
register_each zero c t = t
register_each (suc n) c t = let r = next_req_id c in register_each n r.0 (register r.1 t)

-- The id that the call of `NextReqId` after `i` other ones gives.
unfoldable pub id_after : {H A : Type 0} → ℕ → Context H A → ℕ
id_after i c = (c.last_id + i + 1) % 2 ^ 32

find-remove : (rid j : ℕ) (es : List (ℕ × ℕ)) → rid ≢ j → find rid (remove j es) ≡ find rid es
unfolding find remove
find-remove rid j [] ne = refl
find-remove rid j ((k, c) ∷ es) ne =
    let rest = find-remove rid j es ne in
    elim (Bool-cases (k == j)) [
      | inl e ↦ let apart : (k == rid) ≡ false = ground (arith, e, ne) in rw (e, apart) rest
      | inr e ↦ rw (e, rest) refl
    ]

find-register : (rid : ℕ) (t : Table) → find rid (register rid t).recvs ≡ some t.made
unfolding find register
find-register rid t = let same_id : (rid == rid) ≡ true = ground arith in rw same_id refl

find-register_other :
    (rid j : ℕ) (t : Table) → rid ≢ j → find rid (register j t).recvs ≡ find rid t.recvs
unfolding find register
find-register_other rid j t ne =
    let apart : (j == rid) ≡ false = ground (arith, ne) in rw apart (find-remove rid j t.recvs ne)

module _ {H A : Type 0} where
  id_after-next : (i : ℕ) (c : Context H A) → id_after i (next_req_id c).0 ≡ id_after (suc i) c
  unfolding id_after next_req_id
  id_after-next i c = omega arith

  -- Requests with other ids leave an entry alone.
  kept :
      (n : ℕ) (c : Context H A) (t : Table) (rid : ℕ)
      → ((i : ℕ) → i < n → rid ≢ id_after i c)
      → find rid (register_each n c t).recvs ≡ find rid t.recvs
  unfolding register_each
  kept zero c t rid other = refl
  kept (suc n) c t rid other =
      let r = next_req_id c in
      kept n r.0 (register r.1 t) rid
        (λ i lt e. other (suc i) (omega arith) (e ∙ id_after-next i c))
      ∙ find-register_other rid r.1 t
          (λ e. other 0 (omega arith) (e ∙ (unfold id_after next_req_id in omega arith)))

  -- Of at most 2^32 requests made one after the other, every one finds the call that waits for it
  -- under its id, when no response has come yet: no id is given to two of them.
  pub find-register_each :
      (n i : ℕ) (c : Context H A) (t : Table)
      → i < n
      → n ≤ 2 ^ 32
      → find (id_after i c) (register_each n c t).recvs ≡ some (t.made + i)
  unfolding register_each
  find-register_each zero i c t lt le = absurd (omega arith)
  find-register_each (suc n) zero c t lt le =
      let r = next_req_id c in
      let first : id_after 0 c ≡ r.1 = (unfold id_after next_req_id in omega arith) in
      rw first (
        kept n r.0 (register r.1 t) r.1 (λ i lt e. (unfold id_after next_req_id in omega arith))
        ∙ find-register r.1 t
        ∙ ap some (omega arith))
  find-register_each (suc n) (suc i) c t lt le =
      let r = next_req_id c in
      let made : (register r.1 t).made ≡ t.made + 1 = (unfold register in refl) in
      ap (λ (k : ℕ). find k (register_each n r.0 (register r.1 t)).recvs) (sym (id_after-next i c))
      ∙ find-register_each n i r.0 (register r.1 t) (omega arith) (omega arith)
      ∙ ap some (omega (arith, made))
