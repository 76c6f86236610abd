-- ===== src/V1/Packet/Frames.antt =====
-- A packet that `Pack` turned into bytes comes back from `UnpackBytes`, which has them as one frame.
use openapi_protocol.Base.{
  ℕ, ◌+◌, ◌-◌, ◌^◌, ◌<◌, ◌≡◌, refl, sym, ap, ◌∙◌, arith, List, [], ◌++◌, append-nil, append_assoc,
  length, length-append, drop, take-append, drop-append, true, false, ltb, leb, none, Bool-cases,
  inl, inr,
}
use openapi_protocol.Base.Bytes.{put_uint64, uint-put_uint64}
use openapi_protocol.Base.Result.{ok, ◌>>=◌}
use openapi_protocol.Gzip.{Library}
use openapi_protocol.Gzip.Laws.{IsLawful}
use openapi_protocol.Protocol.Options.{PackOption}
use openapi_protocol.Metadata.{Metadata}
use openapi_protocol.Packet.{Packet}
use openapi_protocol.V1.Header.{Header, is_unknown_packet}
use openapi_protocol.V1.Header.RoundTrip.{wire, unpack_bytes-encode}
use openapi_protocol.V1.Header.StreamTrip.{received}
use openapi_protocol.V1.Header.Pool.{metadata, get_lem}
use openapi_protocol.V1.Packet.{
  header_from_context, pack_frame, frame_signature, decompress_body, unpack_frame, unpack_bytes,
  pack,
}
use openapi_protocol.V1.Packet.Layout.{header_of, header_of-IsWord, signature_of, frame}
use openapi_protocol.V1.Packet.RoundTrip.{frame_unless, opened_body, gzip_received, read-pack}
use openapi_protocol.Context.{Context, begin}
use openapi_protocol.V1.Packet.Received.{
  delivered, IsSendable, metadata_received, verify_received, body_received, signature_sent,
}

module _ (lib : Library) (codec : ℕ) where
  unpack_frame_lem :
      (h : Header) (body more : List ℕ) (md : Metadata)
      → length body ≡ h.body_length
      → frame_signature lib h (body ++ more) (metadata h codec) ≡ ok md
      → unpack_frame lib h codec (body ++ more)
        ≡ (decompress_body lib h body >>= λ b. ok (record { metadata = md; body = b }))
  unfolding unpack_frame frame_signature decompress_body
  unpack_frame_lem h body more md e s =
      let long : ltb (length (body ++ more)) h.body_length ≡ false =
        ground (arith, e, length-append body more) in
      let fits : leb h.body_length (length (body ++ more)) ≡ true =
        ground (arith, e, length-append body more) in
      let from : leb 0 h.body_length ≡ true = ground arith in
      let whole : h.body_length - 0 ≡ length body = omega (arith, e) in
      rw (long, from, fits, whole, take-append (length body) body more refl, s) refl

  frame_signature-received :
      (md : Metadata) (body : List ℕ)
      → is_unknown_packet (header_of md (length body)) ≡ false
      → IsSendable md
      → let h = received (header_of md (length body)) in
        frame_signature lib h (body ++ signature_of md) (metadata h codec) ≡ ok (delivered md codec)
  unfolding frame_signature
  frame_signature-received md body known s =
      let n = length body in
      let m = metadata_received md n codec known in
      elim (Bool-cases md.verify) [
        | inr v ↦ rw (verify_received md n ∙ v) (ap ok (m ∙ (unfold delivered in simp v)))
        | inl v ↦
            let sent : signature_of md ≡ put_uint64 md.nonce ++ md.signature =
              sym (append-nil (signature_of md))
              ∙ (signature_sent md [] v s
                  ∙ ap (λ (xs : List ℕ). put_uint64 md.nonce ++ xs) (append-nil md.signature)) in
            let bytes = body ++ (put_uint64 md.nonce ++ md.signature) in
            let len : length bytes ≡ n + 8 + 16 = omega (
              arith,
              length-append body (put_uint64 md.nonce ++ md.signature),
              length-append (put_uint64 md.nonce) md.signature,
              s.signature_16 v,
            ) in
            let long : ltb (length bytes) (n + 8 + 16) ≡ false = ground (arith, len) in
            let up : leb n (n + 8) ≡ true = ground arith in
            let fits : leb (n + 8) (length bytes) ≡ true = ground (arith, len) in
            let eight : n + 8 - n ≡ 8 = omega arith in
            let sig : drop (n + 8) bytes ≡ md.signature =
              ap (λ (xs : List ℕ). drop (n + 8) xs)
                (sym (append_assoc body (put_uint64 md.nonce) md.signature))
              ∙ drop-append (n + 8) (body ++ put_uint64 md.nonce) md.signature
                  (omega (arith, length-append body (put_uint64 md.nonce))) in
            rw
              (
                verify_received md n ∙ v,
                m,
                body_received md n,
                sent,
                long,
                up,
                fits,
                sig,
                eight,
                drop-append n body (put_uint64 md.nonce ++ md.signature) refl,
                take-append 8 (put_uint64 md.nonce) md.signature refl,
                uint-put_uint64 md.nonce s.nonce_u64,
              )
              (unfold delivered in simp v refl)
      ]

module _ (lib : Library) {A : Type 0} (fresh : Header) (ctx : Context Header A) where
  unpack_bytes-pack_frame :
      (pooled : Header) (p : Packet) (plain bytes : List ℕ)
      → ctx.header ≡ none
      → IsSendable p.metadata
      → opened_body lib p ≡ ok plain
      → pack_frame pooled p ≡ ok bytes
      → (unpack_bytes lib fresh ctx bytes).1
        ≡ ok (record { metadata = delivered p.metadata ctx.codec; body = plain })
  unfolding unpack_bytes header_from_context frame begin
  unpack_bytes-pack_frame pooled p plain bytes hn s opened e =
      let md = p.metadata in
      let f = frame_unless pooled p bytes s.word e in
      let h = header_of md (length p.body) in
      let word = header_of-IsWord md (length p.body) s.word (omega arith) in
      let head =
        unpack_bytes-encode h (p.body ++ signature_of md) word f.0 (unfold header_of in f.1) in
      let sig : frame_signature lib (wire h) (p.body ++ signature_of md)
            (metadata (wire h) ctx.codec)
          ≡ ok (delivered md ctx.codec) =
        (unfold frame_signature metadata in
          frame_signature-received lib ctx.codec md p.body f.0 s) in
      let body =
        unpack_frame_lem lib ctx.codec (wire h) p.body (signature_of md) (delivered md ctx.codec)
          (unfold wire header_of in refl) sig in
      let g : decompress_body lib (wire h) p.body ≡ ok plain =
        (unfold decompress_body in rw (gzip_received md (length p.body)) opened) in
      rw (f.2, hn, get_lem fresh, head, body, g) refl

  -- From the bytes that `Pack` wrote for a sendable packet, whose body is shorter than 2^32 bytes and
  -- not compressed yet, as one frame and with no header under way, `UnpackBytes` returns the packet:
  -- the body as before a compression, the metadata as far as version 1 carries it.
  pub unpack_bytes-pack_packet :
      (lawful : IsLawful lib) (pooled : Header) (p p' : Packet) (opts : List PackOption)
      (bytes : List ℕ)
      → ctx.header ≡ none
      → IsSendable p.metadata
      → p.metadata.gzip ≡ false
      → length p.body < 2 ^ 32
      → pack lib pooled p opts ≡ (p', ok bytes)
      → (unpack_bytes lib fresh ctx bytes).1
        ≡ ok (record { metadata = delivered p'.metadata ctx.codec; body = p.body })
  unpack_bytes-pack_packet lawful pooled p p' opts bytes hn =
      read-pack lib lawful pooled p bytes
        (λ q.
          (unpack_bytes lib fresh ctx bytes).1
          ≡ ok (record { metadata = delivered q.metadata ctx.codec; body = p.body }))
        (λ q s opened e. unpack_bytes-pack_frame pooled q p.body bytes hn s opened e) p' opts
