-- ===== src/V2/Packet/Frames.antt =====
-- A packet that `Pack` of version 2 turned into bytes comes back from `UnpackBytes`, which has them as
-- one frame.
use openapi_protocol.Base.{
  ℕ, ◌+◌, ◌-◌, ◌%◌, ◌^◌, ◌<◌, ◌≡◌, refl, sym, ap, ◌∙◌, arith, List, [], ◌++◌, append-nil,
  append_assoc, length, length-append, drop, take-append, drop-append, true, false, ltb, leb, none,
  Bool-cases, inl, inr,
}
use openapi_protocol.Base.Bytes.{put_uint64, uint-put_uint64}
use openapi_protocol.Base.Result.{ok, ◌>>=◌}
use openapi_protocol.Context.{Context, begin}
use openapi_protocol.Gzip.{Library}
use openapi_protocol.Gzip.Laws.{IsLawful}
use openapi_protocol.Metadata.{Metadata}
use openapi_protocol.Metadata.Values.{unmarshal_values}
use openapi_protocol.Metadata.Values.Kept.{length-marshal_values}
use openapi_protocol.Packet.{Packet}
use openapi_protocol.Protocol.Options.{PackOption}
use openapi_protocol.V1.Header.Pool.{metadata}
use openapi_protocol.V1.Header.RoundTrip.{wire}
use openapi_protocol.V1.Header.StreamTrip.{received}
use openapi_protocol.V1.Packet.{decompress_body}
use openapi_protocol.V1.Packet.Layout.{header_of, header_of-IsWord, signature_of}
use openapi_protocol.V1.Packet.Received.{
  IsSendable, delivered, verify_received, body_received, signature_sent,
}
use openapi_protocol.V1.Packet.RoundTrip.{opened_body, gzip_received}
use openapi_protocol.V2.Header.{HeaderV2, header_from_context}
use openapi_protocol.V2.Header.RoundTrip.{wire_v2, unpack_bytes-encode}
use openapi_protocol.V2.Packet.{
  max_metadata_length, pack, pack_frame, frame_signature, unpack_frame, unpack_bytes,
}
use openapi_protocol.V2.Packet.Delivery.{IsSendableV2, frame_unless, read-pack}
use openapi_protocol.V2.Packet.Layout.{block, header_v2, frame}
use openapi_protocol.V2.Packet.RoundTrip.{delivered_v2, behind-plain, unmarshal-received}
use openapi_protocol.V2.Stream.Refines.{get-empty}

module _ (lower : List ℕ → List ℕ) (lib : Library) (codec : ℕ) where
  -- The parts of a frame, from what the header says of their lengths.
  unpack_frame_lem :
      (h : HeaderV2) (values body more : List ℕ) (md md' : Metadata)
      → length values ≡ h.metadata_length
      → length body ≡ h.base.body_length
      → length body + length values < 2 ^ 32
      → unmarshal_values lower (metadata h.base codec) values ≡ ok md
      → frame_signature h (values ++ (body ++ more)) md ≡ ok md'
      → unpack_frame lower lib h codec (values ++ (body ++ more))
        ≡ (decompress_body lib h.base body >>= λ b. ok (record { metadata = md'; body = b }))
  unfolding unpack_frame
  unpack_frame_lem h values body more md md' ev eb lt u s =
      let bytes = values ++ (body ++ more) in
      let len : length bytes ≡ length values + length body + length more =
        omega (arith, length-append values (body ++ more), length-append body more) in
      let long : ltb (length bytes) (h.base.body_length + h.metadata_length) ≡ false =
        ground (arith, ev, eb, len) in
      let from : leb 0 h.metadata_length ≡ true = ground arith in
      let front : leb h.metadata_length (length bytes) ≡ true = ground (arith, ev, len) in
      let first : h.metadata_length - 0 ≡ length values = omega (arith, ev) in
      let end_of : (h.base.body_length + h.metadata_length) % 2 ^ 32 ≡ length values + length body =
        omega (arith, ev, eb) in
      let up : leb h.metadata_length (length values + length body) ≡ true = ground (arith, ev) in
      let fits : leb (length values + length body) (length bytes) ≡ true = ground (arith, len) in
      let second : length values + length body - h.metadata_length ≡ length body =
        omega (arith, ev) in
      let behind : drop h.metadata_length bytes ≡ body ++ more =
        drop-append h.metadata_length values (body ++ more) ev in
      rw
        (
          long,
          from,
          front,
          first,
          take-append (length values) values (body ++ more) refl,
          end_of,
          up,
          fits,
          second,
          behind,
          take-append (length body) body more refl,
          u,
          s,
        )
        refl

  frame_signature-received :
      (md : Metadata) (values body : List ℕ)
      → IsSendable md
      → let h : HeaderV2 = record {
        metadata_length = length values;
        base = received (header_of md (length body));
      } in
        frame_signature h
          (values ++ (body ++ signature_of md))
          (record (delivered_v2 md codec) { nonce = 0; signature = [] })
        ≡ ok (delivered_v2 md codec)
  unfolding frame_signature delivered_v2 delivered
  frame_signature-received md values body s =
      let n = length body in
      let m = length values in
      elim (Bool-cases md.verify) [
        | inr v ↦ rw (verify_received md n ∙ v) (simp v)
        | inl v ↦
            let tail = put_uint64 md.nonce ++ md.signature in
            let front = values ++ body in
            let sent : values ++ (body ++ signature_of md) ≡ front ++ tail =
              ap (λ (xs : List ℕ). values ++ (body ++ xs))
                (sym (append-nil (signature_of md))
                  ∙ (signature_sent md [] v s
                      ∙ ap (λ (xs : List ℕ). put_uint64 md.nonce ++ xs) (append-nil md.signature)))
              ∙ sym (append_assoc values body tail) in
            let size : length front ≡ n + m = omega (arith, length-append values body) in
            let len : length (front ++ tail) ≡ n + m + 8 + 16 = omega (
              arith,
              length-append front tail,
              length-append (put_uint64 md.nonce) md.signature,
              s.signature_16 v,
            ) in
            let long : ltb (length (front ++ tail)) (n + m + 8 + 16) ≡ false =
              ground (arith, len) in
            let up : leb (n + m) (n + m + 8) ≡ true = ground arith in
            let fits : leb (n + m + 8) (length (front ++ tail)) ≡ true = ground (arith, len) in
            let eight : n + m + 8 - (n + m) ≡ 8 = omega arith in
            let sig : drop (n + m + 8) (front ++ tail) ≡ md.signature =
              ap (λ (xs : List ℕ). drop (n + m + 8) xs)
                (sym (append_assoc front (put_uint64 md.nonce) md.signature))
              ∙ drop-append (n + m + 8) (front ++ put_uint64 md.nonce) md.signature
                  (omega (arith, length-append front (put_uint64 md.nonce))) in
            rw
              (
                verify_received md n ∙ v,
                body_received md n,
                sent,
                long,
                up,
                fits,
                sig,
                eight,
                drop-append (n + m) front tail size,
                take-append 8 (put_uint64 md.nonce) md.signature refl,
                uint-put_uint64 md.nonce s.nonce_u64,
              )
              (simp v refl)
      ]

module _ (lower : List ℕ → List ℕ) (lib : Library) {A : Type 0} (fresh : HeaderV2)
    (ctx : Context HeaderV2 A) where
  unpack_bytes-pack_frame :
      (pooled : HeaderV2) (p : Packet) (plain bytes : List ℕ)
      → ctx.header ≡ none
      → IsSendableV2 lower p
      → opened_body lib p ≡ ok plain
      → pack_frame pooled p ≡ ok bytes
      → (unpack_bytes lower lib fresh ctx bytes).1
        ≡ ok (record { metadata = delivered_v2 p.metadata ctx.codec; body = plain })
  unfolding unpack_bytes header_from_context frame begin wire_v2
  unpack_bytes-pack_frame pooled p plain bytes hn s opened e =
      let md = p.metadata in
      let n = length p.body in
      let f = frame_unless pooled p bytes s.sendable.word e in
      let h = header_v2 p in
      let h' : HeaderV2 = record {
        metadata_length = length (block p);
        base = wire (header_of md n);
      } in
      let sent : bytes ≡ frame p = f.2 in
      let behind = behind-plain p s.sendable s.plain in
      let fits = length-marshal_values md max_metadata_length in
      let rest = block p ++ (p.body ++ signature_of md) in
      let head =
        unpack_bytes-encode h rest
          (unfold header_v2 in header_of-IsWord md n s.sendable.word (omega arith))
          (unfold header_v2 in omega arith) (unfold header_v2 in f.0)
          (unfold header_v2 header_of in f.1) in
      let pairs : unmarshal_values lower (metadata (wire (header_of md n)) ctx.codec) (block p)
          ≡ ok (record (delivered_v2 md ctx.codec) { nonce = 0; signature = [] }) =
        (unfold metadata in unmarshal-received lower lib ctx.codec md n f.0 s.lowered s.distinct) in
      let sig : frame_signature h' rest
            (record (delivered_v2 md ctx.codec) { nonce = 0; signature = [] })
          ≡ ok (delivered_v2 md ctx.codec) =
        (unfold frame_signature in
          frame_signature-received lower lib ctx.codec md (block p) p.body s.sendable) in
      let body =
        unpack_frame_lem lower lib ctx.codec h' (block p) p.body (signature_of md) _
          (delivered_v2 md ctx.codec) refl (unfold wire header_of in refl) (omega arith) pairs
          sig in
      let g : decompress_body lib (wire (header_of md n)) p.body ≡ ok plain =
        (unfold decompress_body in rw (gzip_received md n) opened) in
      rw (f.2, behind, hn, get-empty fresh, head) (unfold header_v2 in rw (body, g) refl)

  -- From the bytes that `Pack` wrote for a packet that version 2 carries, whose body is shorter than
  -- 2^32 bytes and not compressed yet, as one frame and with no header under way, `UnpackBytes` of
  -- version 2 returns the packet: the body as before a compression, the pairs as far as they were sent,
  -- the rest of the metadata as far as a header carries it.
  pub unpack_bytes-pack_v2 :
      (lawful : IsLawful lib) (pooled : HeaderV2) (p p' : Packet) (opts : List PackOption)
      (bytes : List ℕ)
      → ctx.header ≡ none
      → IsSendableV2 lower p
      → p.metadata.gzip ≡ false
      → length p.body < 2 ^ 32
      → pack lib pooled p opts ≡ (p', ok bytes)
      → (unpack_bytes lower lib fresh ctx bytes).1
        ≡ ok (record { metadata = delivered_v2 p'.metadata ctx.codec; body = p.body })
  unpack_bytes-pack_v2 lawful pooled p p' opts bytes hn =
      read-pack lower lib lawful pooled p bytes
        (λ q.
          (unpack_bytes lower lib fresh ctx bytes).1
          ≡ ok (record { metadata = delivered_v2 q.metadata ctx.codec; body = p.body }))
        (λ q s opened e. unpack_bytes-pack_frame pooled q p.body bytes hn s opened e) p' opts
