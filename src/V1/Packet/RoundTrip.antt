-- ===== src/V1/Packet/RoundTrip.antt =====
-- A packet that `Pack` turns into bytes comes back from these bytes, from a stream and from a
-- frame, with or without compression.
use mathlib.Core.Path.{subst}
use openapi_protocol.Base.{
  ℕ, ◌^◌, ◌≤◌, ◌<◌, ◌≡◌, refl, ap, arith, List, ◌++◌, append_assoc, length, take-append, Bool, true,
  false, ◌==◌, if◌then◌else◌, none,
}
use openapi_protocol.Base.Result.{Result, ok, err, panic, ◌>>=◌}
use openapi_protocol.Gzip.{Library, compress, decompress}
use openapi_protocol.Gzip.Laws.{IsLawful, decompress-compress}
use openapi_protocol.Metadata.{Metadata}
use openapi_protocol.Packet.{Packet, complete}
use openapi_protocol.Protocol.Options.{compresses, PackOption, new_pack_options}
use openapi_protocol.V1.Header.{Header, max_body_length, is_unknown_packet}
use openapi_protocol.V1.Header.RoundTrip.{wire}
use openapi_protocol.V1.Header.StreamTrip.{received, absorb-encode}
use openapi_protocol.V1.Header.Layout.{encode}
use openapi_protocol.V1.Header.Pool.{header_from_metadata}
use openapi_protocol.V1.Packet.{pack_frame, pack_compressed, pack, decompress_body}
use openapi_protocol.V1.Packet.Layout.{
  IsWordMetadata, header_of, header_of-IsWord, signature_of, frame, pack_frame_lem,
}
use openapi_protocol.V1.Stream.Step.{report_of, deliver, header_step, step_from, step}
use openapi_protocol.V1.Stream.Append.{body_step_enough}
use openapi_protocol.V1.Packet.Received.{
  delivered, IsSendable, body_received, signed-received, need-received,
}

pub frame_unless :
    (pooled : Header) (p : Packet) (bytes : List ℕ)
    → IsWordMetadata p.metadata
    → pack_frame pooled p ≡ ok bytes
    → (is_unknown_packet (header_of p.metadata (length p.body)) ≡ false)
      × (length p.body ≤ max_body_length)
      × (bytes ≡ frame p)
frame_unless pooled p bytes w e = let l = pack_frame_lem pooled p w in ground arith

pub gzip_received : (md : Metadata) (bl : ℕ) → ((received (header_of md bl)).gzip == 1) ≡ md.gzip
unfolding header_of header_from_metadata wire
gzip_received md bl = ground arith

abbrev pub compressed : Packet → List ℕ → Packet
compressed p out = record { metadata = record p.metadata { gzip = true }; body = out }

pub IsSendable-compressed :
    (p : Packet) (out : List ℕ) → IsSendable p.metadata → IsSendable (compressed p out).metadata
IsSendable-compressed p out s = record {
  word = record {
    request_id_u32 = s.word.request_id_u32;
    timeout_u16 = s.word.timeout_u16;
    status_code_u8 = s.word.status_code_u8;
  };
  nonce_u64 = s.nonce_u64;
  signature_16 = s.signature_16;
}

module _ (lib : Library) (codec : ℕ) where
  step-frame :
      (p : Packet) (rest : List ℕ)
      → let h = header_of p.metadata (length p.body) in
        is_unknown_packet h ≡ false
        → length p.body ≤ max_body_length
        → IsSendable p.metadata
        → step lib codec none (frame p ++ rest) ≡ (
          none,
          rest,
          report_of (delivered p.metadata codec) (decompress_body lib (received h) p.body),
        )
  unfolding step step_from frame deliver header_step
  step-frame p rest known le s =
      let md = p.metadata in
      let h = header_of md (length p.body) in
      let word = header_of-IsWord md (length p.body) s.word (omega arith) in
      let n = need-received md p.body rest s in
      rw
        (
          append_assoc (encode h) (p.body ++ signature_of md) rest,
          append_assoc p.body (signature_of md) rest,
          absorb-encode h (p.body ++ (signature_of md ++ rest)) word known (unfold header_of in le),
          body_step_enough lib codec (received h) (p.body ++ (signature_of md ++ rest)) n.0,
          n.1,
          signed-received md p.body rest codec known s,
          body_received md (length p.body),
          take-append (length p.body) p.body (signature_of md ++ rest) refl,
        )
        refl

  -- A frame of a packet whose body `plain` becomes by the decompression that its mark asks for.
  step-pack_frame :
      (pooled : Header) (p : Packet) (plain bytes rest : List ℕ)
      → IsSendable p.metadata
      → (if p.metadata.gzip then (decompress lib p.body >>= λ r. ok r.0) else ok p.body) ≡ ok plain
      → pack_frame pooled p ≡ ok bytes
      → step lib codec none (bytes ++ rest)
        ≡ (none, rest, complete (record { metadata = delivered p.metadata codec; body = plain }))
  step-pack_frame pooled p plain bytes rest s opened e =
      let f = frame_unless pooled p bytes s.word e in
      let g : decompress_body lib (received (header_of p.metadata (length p.body))) p.body
          ≡ ok plain =
        (unfold decompress_body in rw (gzip_received p.metadata (length p.body)) opened) in
      rw (f.2, step-frame p rest f.0 f.1 s, g) (unfold report_of in refl)

-- The body that a packet that goes out has without its compression.
abbrev pub opened_body : Library → Packet → Result (List ℕ)
opened_body lib p = if p.metadata.gzip then (decompress lib p.body >>= λ r. ok r.0) else ok p.body

-- What holds of every sendable packet with a frame and the body `p.body` holds of what `Pack` makes
-- of `p`.
module _ (lib : Library) (lawful : IsLawful lib) (pooled : Header) (p : Packet) (bytes : List ℕ)
    (Read : Packet → Type 0)
    (read : (q : Packet)
      → IsSendable q.metadata
      → opened_body lib q ≡ ok p.body
      → pack_frame pooled q ≡ ok bytes
      → Read q) where
  read-pack_compressed :
      (zipped : Bool) (p' : Packet) (r : Result (List ℕ))
      → IsSendable p.metadata
      → p.metadata.gzip ≡ false
      → length p.body < 2 ^ 32
      → compress lib p.body ≡ r
      → (if zipped then pack_compressed pooled p r else (p, pack_frame pooled p)) ≡ (p', ok bytes)
      → Read p'
  unfolding pack_compressed
  read-pack_compressed true p' (ok out) s plain lt c e = subst Read (ap (λ x. x.0) e) (
      read (compressed p out) (IsSendable-compressed p out s)
        (rw (decompress-compress lib lawful p.body out lt c) refl) (ap (λ x. x.1) e))
  read-pack_compressed true p' (err f) s plain lt c e = ground arith
  read-pack_compressed true p' panic s plain lt c e = ground arith
  read-pack_compressed false p' r s plain lt c e =
      subst Read (ap (λ x. x.0) e) (read p s (rw plain refl) (ap (λ x. x.1) e))

  pub read-pack :
      (p' : Packet) (opts : List PackOption)
      → IsSendable p.metadata
      → p.metadata.gzip ≡ false
      → length p.body < 2 ^ 32
      → pack lib pooled p opts ≡ (p', ok bytes)
      → Read p'
  unfolding pack
  read-pack p' opts s plain lt e =
      let o = new_pack_options opts in
      read-pack_compressed (compresses o.min_gzip_size (length p.body)) p' (compress lib p.body) s
        plain lt refl e

module _ (lib : Library) (lawful : IsLawful lib) (codec : ℕ) where
  pub step-pack :
      (pooled : Header) (p p' : Packet) (opts : List PackOption) (bytes rest : List ℕ)
      → IsSendable p.metadata
      → p.metadata.gzip ≡ false
      → length p.body < 2 ^ 32
      → pack lib pooled p opts ≡ (p', ok bytes)
      → step lib codec none (bytes ++ rest)
        ≡ (none, rest, complete (record { metadata = delivered p'.metadata codec; body = p.body }))
  step-pack pooled p p' opts bytes rest =
      read-pack lib lawful pooled p bytes
        (λ q. step lib codec none (bytes ++ rest) ≡ (
          none,
          rest,
          complete (record { metadata = delivered q.metadata codec; body = p.body }),
        ))
        (λ q s opened e. step-pack_frame lib codec pooled q p.body bytes rest s opened e) p' opts
