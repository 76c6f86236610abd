-- ===== src/V2/Packet/Delivery.antt =====
-- From end to end in version 2: what `Pack` writes, one call of `Unpack` reads from the ring buffer.
use mathlib.Core.Path.{subst}
use openapi_protocol.Base.{
  ℕ, ◌^◌, ◌≤◌, ◌<◌, ◌≡◌, refl, ap, ◌∙◌, arith, List, [], ◌++◌, append_assoc, length, Bool, true,
  false, if◌then◌else◌, none,
}
use openapi_protocol.Base.Result.{Result, ok, err, panic}
use openapi_protocol.RingBuffer.{RingBuffer}
use openapi_protocol.Gzip.{Library, compress}
use openapi_protocol.Gzip.Laws.{IsLawful, decompress-compress}
use openapi_protocol.Metadata.Values.{marshal_values}
use openapi_protocol.Metadata.Values.Kept.{entries, length-marshal_values}
use openapi_protocol.Metadata.Values.RoundTrip.{Lowered, Distinct}
use openapi_protocol.Context.{Context, begin}
use openapi_protocol.Packet.{Packet, complete}
use openapi_protocol.Protocol.Options.{compresses, PackOption, new_pack_options}
use openapi_protocol.V1.Header.{max_body_length, is_unknown_packet}
use openapi_protocol.V1.Header.StreamTrip.{received}
use openapi_protocol.V1.Packet.{decompress_body}
use openapi_protocol.V1.Packet.Layout.{IsWordMetadata, header_of, header_of-IsWord}
use openapi_protocol.V1.Packet.Received.{IsSendable}
use openapi_protocol.V1.Packet.RoundTrip.{
  opened_body, gzip_received, compressed, IsSendable-compressed,
}
use openapi_protocol.V1.Stream.Step.{report_of}
use openapi_protocol.V2.Header.{HeaderV2}
use openapi_protocol.V2.Header.Layout.{encode}
use openapi_protocol.V2.Header.StreamTrip.{received_v2, absorb-encode_v2}
use openapi_protocol.V2.Packet.{max_metadata_length, pack_frame, pack_compressed, pack}
use openapi_protocol.V2.Packet.Layout.{block, header_v2, behind_header, frame, pack_frame_v2_lem}
use openapi_protocol.V2.Packet.RoundTrip.{delivered_v2, body_step-frame}
use openapi_protocol.V2.Stream.{unpack}
use openapi_protocol.V2.Stream.Step.{body_step, header_step, step_from, step}
use openapi_protocol.V2.Stream.Refines.{Leaves, unpack-step_v2}

-- What version 2 carries: a packet that version 1 carries, with distinct keys in lower case, and
-- without pairs if it is verified.
pub record IsSendableV2 (lower : List ℕ → List ℕ) (p : Packet) : Type 0 where
  pub sendable : IsSendable p.metadata
  pub plain : p.metadata.verify ≡ true → block p ≡ []
  pub lowered : Lowered lower (entries p.metadata)
  pub distinct : Distinct (entries p.metadata)

pub frame_unless :
    (pooled : HeaderV2) (p : Packet) (bytes : List ℕ)
    → IsWordMetadata p.metadata
    → pack_frame pooled p ≡ ok bytes
    → (is_unknown_packet (header_of p.metadata (length p.body)) ≡ false)
      × (length p.body ≤ max_body_length)
      × (bytes ≡ frame p)
frame_unless pooled p bytes w e = let l = pack_frame_v2_lem pooled p w in ground arith

module _ (lower : List ℕ → List ℕ) (lib : Library) (codec : ℕ) where
  -- On a packet's frame the header is read first, and the step goes on behind it.
  pub step-frame :
      (p : Packet) (rest : List ℕ)
      → is_unknown_packet (header_of p.metadata (length p.body)) ≡ false
      → length p.body ≤ max_body_length
      → IsWordMetadata p.metadata
      → step lower lib codec none (frame p ++ rest)
        ≡ body_step lower lib codec (received_v2 (header_v2 p)) (behind_header p ++ rest)
  unfolding step step_from frame header_step header_v2
  step-frame p rest known le w =
      let h = header_v2 p in
      let word = header_of-IsWord p.metadata (length p.body) w (omega arith) in
      let fits = length-marshal_values p.metadata max_metadata_length in
      let le' : h.base.body_length ≤ max_body_length = (unfold header_of in le) in
      rw
        (
          append_assoc (encode h) (behind_header p) rest,
          absorb-encode_v2 h (behind_header p ++ rest) word (omega arith) known le',
        )
        refl

  -- A frame of a packet whose body `plain` becomes by the decompression that its mark asks for.
  step-pack_frame :
      (pooled : HeaderV2) (p : Packet) (plain bytes rest : List ℕ)
      → IsSendableV2 lower p
      → opened_body lib p ≡ ok plain
      → pack_frame pooled p ≡ ok bytes
      → step lower lib codec none (bytes ++ rest)
        ≡ (none, rest, complete (record { metadata = delivered_v2 p.metadata codec; body = plain }))
  step-pack_frame pooled p plain bytes rest s opened e =
      let f = frame_unless pooled p bytes s.sendable.word e in
      let g : decompress_body lib (received (header_of p.metadata (length p.body))) p.body
          ≡ ok plain =
        (unfold decompress_body in rw (gzip_received p.metadata (length p.body)) opened) in
      rw
        (
          f.2,
          step-frame p rest f.0 f.1 s.sendable.word,
          body_step-frame lower lib codec p rest f.0 s.sendable s.plain s.lowered s.distinct,
          g,
        )
        (unfold report_of in refl)

IsSendableV2-compressed :
    (lower : List ℕ → List ℕ) (p : Packet) (out : List ℕ)
    → IsSendableV2 lower p
    → IsSendableV2 lower (compressed p out)
unfolding marshal_values
IsSendableV2-compressed lower p out s = record {
  sendable = IsSendable-compressed p out s.sendable;
  plain = s.plain;
  lowered = s.lowered;
  distinct = s.distinct;
}

-- What `Pack` writes is a frame of the packet as it is left, whose body becomes `p.body` when it is
-- opened; `Read` is what is to hold of the packet left.
module _ (lower : List ℕ → List ℕ) (lib : Library) (lawful : IsLawful lib) (pooled : HeaderV2)
    (p : Packet) (bytes : List ℕ) (Read : Packet → Type 0)
    (read : (q : Packet)
      → IsSendableV2 lower q
      → opened_body lib q ≡ ok p.body
      → pack_frame pooled q ≡ ok bytes
      → Read q) where
  read-pack_compressed :
      (zipped : Bool) (p' : Packet) (r : Result (List ℕ))
      → IsSendableV2 lower p
      → p.metadata.gzip ≡ false
      → length p.body < 2 ^ 32
      → compress lib p.body ≡ r
      → (if zipped then pack_compressed pooled p r else (p, pack_frame pooled p)) ≡ (p', ok bytes)
      → Read p'
  unfolding pack_compressed
  read-pack_compressed true p' (ok out) s plain lt c e = subst Read (ap (λ x. x.0) e) (
      read (compressed p out) (IsSendableV2-compressed lower p out s)
        (rw (decompress-compress lib lawful p.body out lt c) refl) (ap (λ x. x.1) e))
  read-pack_compressed true p' (err f) s plain lt c e = ground arith
  read-pack_compressed true p' panic s plain lt c e = ground arith
  read-pack_compressed false p' r s plain lt c e =
      subst Read (ap (λ x. x.0) e) (read p s (rw plain refl) (ap (λ x. x.1) e))

  pub read-pack :
      (p' : Packet) (opts : List PackOption)
      → IsSendableV2 lower p
      → p.metadata.gzip ≡ false
      → length p.body < 2 ^ 32
      → pack lib pooled p opts ≡ (p', ok bytes)
      → Read p'
  unfolding pack
  read-pack p' opts s plain lt e =
      let o = new_pack_options opts in
      read-pack_compressed (compresses o.min_gzip_size (length p.body)) p' (compress lib p.body) s
        plain lt refl e

module _ (lower : List ℕ → List ℕ) (lib : Library) (lawful : IsLawful lib) where
  pub step-pack :
      (codec : ℕ) (pooled : HeaderV2) (p p' : Packet) (opts : List PackOption) (bytes rest : List ℕ)
      → IsSendableV2 lower p
      → p.metadata.gzip ≡ false
      → length p.body < 2 ^ 32
      → pack lib pooled p opts ≡ (p', ok bytes)
      → step lower lib codec none (bytes ++ rest) ≡ (
        none,
        rest,
        complete (record { metadata = delivered_v2 p'.metadata codec; body = p.body }),
      )
  step-pack codec pooled p p' opts bytes rest =
      read-pack lower lib lawful pooled p bytes
        (λ q. step lower lib codec none (bytes ++ rest) ≡ (
          none,
          rest,
          complete (record { metadata = delivered_v2 q.metadata codec; body = p.body }),
        ))
        (λ q s opened e. step-pack_frame lower lib codec pooled q p.body bytes rest s opened e) p'
        opts

  -- One call of `Unpack` of version 2 with no header under way, on a ring buffer that holds what `Pack`
  -- wrote for a packet that version 2 carries (a verified one without pairs), whose body is shorter
  -- than 2^32 bytes and not compressed yet, and then any bytes, takes exactly the bytes of the packet
  -- and returns it: its body as before a compression, its pairs as far as they were sent, the rest of
  -- its metadata as far as a header carries it.
  pub unpack-pack_v2 :
      {A : Type 0} (rb : RingBuffer) (c : Context HeaderV2 A) (b : rb.Buf)
      (pooled pooled' : HeaderV2) (p p' : Packet) (opts : List PackOption) (bytes rest : List ℕ)
      → IsSendableV2 lower p
      → p.metadata.gzip ≡ false
      → length p.body < 2 ^ 32
      → pack lib pooled p opts ≡ (p', ok bytes)
      → c.header ≡ none
      → rb.contents b ≡ bytes ++ rest
      → Leaves lower lib rb (begin c) (unpack lower lib rb pooled' c b) (
        none,
        rest,
        complete (record { metadata = delivered_v2 p'.metadata c.codec; body = p.body }),
      )
  unpack-pack_v2 rb c b pooled pooled' p p' opts bytes rest s plain lt e fresh held =
      subst (λ r. Leaves lower lib rb (begin c) (unpack lower lib rb pooled' c b) r)
        (ap (λ h. step lower lib c.codec h (rb.contents b)) fresh
          ∙ ap (step lower lib c.codec none) held
          ∙ step-pack c.codec pooled p p' opts bytes rest s plain lt e)
        (unpack-step_v2 lower lib rb pooled' c b)
