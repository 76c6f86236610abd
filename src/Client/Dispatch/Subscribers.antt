-- ===== src/Client/Dispatch/Subscribers.antt =====
-- What a subscription adds.
use openapi_protocol.Base.{
  ℕ, ◌<◌, leb, ◌≡◌, refl, arith, sym, ap, ◌∙◌, List, [], ◌∷◌, ◌++◌, append-nil, Bool, true, false,
  ◌==◌, if◌then◌else◌, some, Bool-cases, inl, inr, ==_iff,
}
use openapi_protocol.Metadata.{push}
use openapi_protocol.Context.{Context}
use openapi_protocol.Packet.{Packet}
use openapi_protocol.Packet.Build.{Encoders}
use openapi_protocol.Packet.Kinds.{Commands, is_control, is_push}
use openapi_protocol.Client.Dispatch.{
  Effect, call, Handlers, subs_of, add_sub, subscribe, call_each, handle_push, on_packet,
}

module _ {H : Type 0} where
  subs_of-add_sub :
      (cmd k : ℕ) (sub : H) (es : List (ℕ × List H))
      → subs_of k (add_sub cmd sub es) ≡ subs_of k es ++ (if k == cmd then sub ∷ [] else [])
  unfolding subs_of add_sub
  subs_of-add_sub cmd k sub [] = elim (Bool-cases (k == cmd)) [
    | inl e ↦ let same : (cmd == k) ≡ true = ground (arith, (==_iff k cmd).0 e) in rw (e, same) refl
    | inr e ↦ let apart : (cmd == k) ≡ false = ground arith in rw (e, apart) refl
  ]
  subs_of-add_sub cmd k sub ((j, hs) ∷ es) = elim (Bool-cases (j == cmd)) [
    | inl e ↦ elim (Bool-cases (j == k)) [
      | inl f ↦ let same : (k == cmd) ≡ true = ground arith in rw (e, f, same) refl
      | inr f ↦
          let apart : (k == cmd) ≡ false = ground arith in
          rw (e, f, apart) (sym (append-nil (subs_of k es)))
    ]
    | inr e ↦ elim (Bool-cases (j == k)) [
      | inl f ↦
          let apart : (k == cmd) ≡ false = ground arith in rw (e, f, apart) (sym (append-nil hs))
      | inr f ↦ rw (e, f) (subs_of-add_sub cmd k sub es)
    ]
  ]

  call_each-append :
      (xs ys : List H) (p : Packet) → call_each (xs ++ ys) p ≡ call_each xs p ++ call_each ys p
  unfolding call_each
  call_each-append [] ys p = refl
  call_each-append (x ∷ xs) ys p =
      ap (λ (es : List (Effect H)). call x p ∷ es) (call_each-append xs ys p)

  call_each-if :
      (b : Bool) (sub : H) (p : Packet)
      → call_each (if b then sub ∷ [] else []) p ≡ (if b then call sub p ∷ [] else [])
  unfolding call_each
  call_each-if true sub p = refl
  call_each-if false sub p = refl

module _ {H V Header A : Type 0} (encoders : Encoders V) (commands : Commands) where
  -- After a subscription to a command, a push packet that is no control packet does what it did
  -- before, and then, if it has this command, goes to the new subscriber.
  pub on_packet-subscribe :
      (need : Bool) (c : Context Header A) (h : Handlers H) (p : Packet) (cmd : ℕ) (sub : H)
      → commands.reconnect < p.metadata.cmd_code
      → p.metadata.type ≡ push
      → on_packet encoders commands need c (subscribe cmd sub h) (some p)
        ≡ on_packet encoders commands need c h (some p)
          ++ (if p.metadata.cmd_code == cmd then call sub p ∷ [] else [])
  unfolding on_packet is_control is_push handle_push subscribe
  on_packet-subscribe need c h p cmd sub lt t =
      let high : leb p.metadata.cmd_code commands.reconnect ≡ false = ground (arith, lt) in
      let k = p.metadata.cmd_code in
      let one : call_each (if k == cmd then sub ∷ [] else []) p
          ≡ (if k == cmd then call sub p ∷ [] else []) =
        call_each-if (k == cmd) sub p in
      let pushed : is_push p.metadata.type ≡ true = rw t refl in
      rw (high, pushed)
        (ap (λ (xs : List H). call_each xs p) (subs_of-add_sub cmd k sub h.subs)
          ∙ (call_each-append (subs_of k h.subs) _ p
              ∙ ap (λ (es : List (Effect H)). call_each (subs_of k h.subs) p ++ es) one))
