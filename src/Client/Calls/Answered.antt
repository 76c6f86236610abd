-- ===== src/Client/Calls/Answered.antt =====
-- What a response of `Do` says, and a call of `Do` without a connection.
use openapi_protocol.Base.{
  ℕ, ◌+◌, ◌%◌, ◌^◌, ◌≡◌, refl, sym, ap, ◌∙◌, List, [], Bool, true, false, ltb, leb, ◌&&◌, Option,
  none, some,
}
use openapi_protocol.Base.Result.{Result, ok, err, panic, >>=-eq-ok}
use openapi_protocol.Context.{Context}
use openapi_protocol.Metadata.{request, get, lookup}
use openapi_protocol.Packet.{Packet}
use openapi_protocol.Packet.Build.{
  Encoders, Body, new_request, new_request_lem, new_packet_lem, new_metadata, apply_options,
  with_request_id,
}
use openapi_protocol.Packet.Kinds.{Decoders, ControlError, LbError, packet_err}
use openapi_protocol.Packet.Pairs.{get_metadata, last_value, get_metadata-set_metadata_pairs}
use openapi_protocol.Client.Reconnect.{
  AuthInfo, Session, Attempt, Answer, unanswered, answered, dial, reconnect,
}
use openapi_protocol.Client.Calls.{
  crashed, response, context_of, checked, wait, send, request_of, do_call,
}

module _ (decoders : Decoders ControlError) where
  checked-response :
      (p q : Packet) (e : Option LbError) → checked decoders p e ≡ response q → (q ≡ p) × (e ≡ none)
  unfolding checked
  checked-response p q none h = (cc h, refl)
  checked-response p q (some e) h = cc h

  wait-response :
      (a : Answer) (q : Packet)
      → wait decoders a ≡ response q
      → (a ≡ answered q) × (packet_err decoders q ≡ none)
  unfolding wait
  wait-response unanswered q h = cc h
  wait-response (answered p) q h =
      let r = checked-response p q (packet_err decoders p) h in (ap answered (sym r.0), rw r.0 r.1)

  send-response :
      (writes : Bool) (answer : Packet → Answer) (r : Result Packet) (q : Packet)
      → send decoders writes answer r ≡ response q
      → (p : Packet) × (r ≡ ok p)
        × (writes ≡ true)
        × (answer p ≡ answered q)
        × (packet_err decoders q ≡ none)
  unfolding send
  send-response true answer (ok p) q h =
      let w = wait-response (answer p) q h in (p, refl, refl, w.0, w.1)
  send-response false answer (ok p) q h = cc h
  send-response writes answer (err e) q h = cc h
  send-response writes answer panic q h = cc h

get_metadata-empty :
    (lower : List ℕ → List ℕ) (j : List ℕ) (p : Packet)
    → p.metadata.values ≡ some []
    → get_metadata lower p j ≡ []
unfolding get_metadata get lookup
get_metadata-empty lower j p v = rw (v, get_metadata, get) refl

module _ {V H A : Type 0} (encoders : Encoders V) (lower : List ℕ → List ℕ)
    (decoders : Decoders ControlError) where
  -- A new request has a map of values, which is empty.
  new_request-values :
      (ctx : Context H A) (cmd : ℕ) (body : Body V) (p : Packet)
      → (new_request encoders ctx cmd body []).1 ≡ ok p
      → p.metadata.values ≡ some []
  unfolding new_request
  new_request-values ctx cmd body p e =
      let m = new_packet_lem encoders _ request cmd body _ p e in
      ap (λ md. md.values) m ∙ (unfold apply_options with_request_id new_metadata in refl)

  request_of_lem :
      (j : List ℕ) (ctx : Context H A) (cmd : ℕ) (body : Body V) (pairs : List (List ℕ × List ℕ))
      (p : Packet)
      → request_of encoders lower ctx cmd body pairs ≡ ok p
      → (p.metadata.request_id ≡ (ctx.last_id + 1) % 2 ^ 32)
        × (get_metadata lower p j ≡ last_value lower j pairs [])
  unfolding request_of
  request_of_lem j ctx cmd body pairs p e =
      let r = >>=-eq-ok (new_request encoders ctx cmd body []).1 _ e in
      let v = new_request-values ctx cmd body r.0 r.1 in
      let s = get_metadata-set_metadata_pairs lower j pairs r.0 ([], v) in
      let same : s.0 ≡ p = cc (s.1, r.2) in
      let empty : get_metadata lower r.0 j ≡ [] = get_metadata-empty lower j r.0 v in
      rw (← same) (
        s.2 ∙ (new_request_lem encoders ctx cmd body [] r.0 r.1).0,
        s.3 ∙ ap (last_value lower j pairs) empty,
      )

  -- A packet that `Do` returns without an error is the answer to a request that took the next id of
  -- the connection and carries the pairs of the call, of keys that are the same in lower case the last
  -- one that is not too long; and the packet reports no error itself.
  pub do_call-response :
      (j : List ℕ) (ctx : Context H A) (cmd : ℕ) (body : Body V) (pairs : List (List ℕ × List ℕ))
      (writes : Bool) (answer : Packet → Answer) (q : Packet)
      → do_call encoders lower decoders (some ctx) cmd body pairs writes answer ≡ response q
      → (p : Packet) × (answer p ≡ answered q)
        × (p.metadata.request_id ≡ (ctx.last_id + 1) % 2 ^ 32)
        × (get_metadata lower p j ≡ last_value lower j pairs [])
        × (packet_err decoders q ≡ none)
  unfolding do_call
  do_call-response j ctx cmd body pairs writes answer q e =
      let r =
        send-response decoders writes answer (request_of encoders lower ctx cmd body pairs) q e in
      let l = request_of_lem j ctx cmd body pairs r.0 r.1 in (r.0, r.3, l.0, l.1, r.4)

  -- After an attempt of `reconnect` that could not dial, below the limit on reconnections, a call of
  -- `Do` panics, since the connection is nil.
  pub do_call-crashes :
      (auth_decoders : Decoders AuthInfo) (max : ℕ) (a : Attempt) (s : Session) (ctx : Context H A)
      (cmd : ℕ) (body : Body V) (pairs : List (List ℕ × List ℕ)) (writes : Bool)
      (answer : Packet → Answer)
      → a.dials ≡ false
      → (ltb 0 max && leb max s.reconnect_count) ≡ false
      → do_call encoders lower decoders
          (context_of ctx (reconnect decoders auth_decoders max a s).0.conn)
          cmd
          body
          pairs
          writes
          answer
        ≡ crashed
  unfolding do_call context_of reconnect dial
  do_call-crashes auth_decoders max a s ctx cmd body pairs writes answer e below =
      simp (below, e) refl
