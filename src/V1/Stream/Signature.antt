-- ===== src/V1/Stream/Signature.antt =====
-- The nonce and the signature that stand behind the body of a verified packet, as a function of
-- the bytes, and that `Unpack` of both versions reads them so.
use openapi_protocol.Base.{
  ℕ, ◌+◌, ◌≤◌, ◌≡◌, ◌∙◌, arith, List, length, length-drop, take, drop, drop-drop, true, ◌==◌,
  if◌then◌else◌, some, Bool-cases, inl, inr,
}
use openapi_protocol.Base.Bytes.{uint}
use openapi_protocol.RingBuffer.{RingBuffer}
use openapi_protocol.RingBuffer.Reads.{read_slice}
use openapi_protocol.Metadata.{Metadata}
use openapi_protocol.V1.Header.{Header}
use openapi_protocol.V1.Packet.{nonce_length, signature_length}
use openapi_protocol.V1.Stream.{take_signature}

-- How many bytes they take.
unfoldable pub signed_length : Header → ℕ
signed_length h = if h.verify == 1 then nonce_length + signature_length else 0

unfoldable pub sign : Header → Metadata → List ℕ → Metadata
sign h md bytes =
    if h.verify == 1
    then record md {
      nonce = uint (take nonce_length bytes);
      signature = take signature_length (drop nonce_length bytes);
    }
    else md

module _ (rb : RingBuffer) where
  open rb use {Buf, contents, peek_uint64, retrieve, read, retrieve_law, peek_uint64_law}

  sign_read :
      (h : Header) (md : Metadata) (bytes : List ℕ) (b b' : Buf)
      → (h.verify == 1) ≡ true
      → peek_uint64 b ≡ uint (take 8 bytes)
      → read 16 (retrieve 8 b) ≡ some (take 16 (drop 8 bytes), b')
      → take_signature rb h md b ≡ (some (sign h md bytes), b')
  unfolding take_signature sign
  sign_read h md bytes b b' e nonce signature = ground arith

  sign_verified :
      (h : Header) (md : Metadata) (b : Buf) (bytes : List ℕ)
      → (h.verify == 1) ≡ true
      → contents b ≡ bytes
      → 24 ≤ length bytes
      → (b' : Buf) × (take_signature rb h md b ≡ (some (sign h md bytes), b'))
        × (contents b' ≡ drop 24 bytes)
  sign_verified h md b bytes e held enough =
      let left = length-drop 8 bytes in
      let nonce = rw held at (peek_uint64_law b (rw held (omega arith))) in
      let moved = rw held at (retrieve_law 8 b (rw held (omega arith))) in
      let r = read_slice rb 16 (retrieve 8 b) (drop 8 bytes) moved (omega arith) in
      (r.0, sign_read h md bytes b r.0 e nonce r.1, r.2 ∙ drop-drop 16 8 bytes)

  -- Where there are bytes enough, they are read, and the bytes behind them are left.
  pub take_signature-sign :
      (h : Header) (md : Metadata) (b : Buf) (bytes : List ℕ)
      → contents b ≡ bytes
      → signed_length h ≤ length bytes
      → (b' : Buf) × (take_signature rb h md b ≡ (some (sign h md bytes), b'))
        × (contents b' ≡ drop (signed_length h) bytes)
  unfolding signed_length
  take_signature-sign h md b bytes held enough = elim (Bool-cases (h.verify == 1)) [
    | inl e ↦ simp e (sign_verified h md b bytes e held (simp e at enough))
    | inr e ↦ simp e (b, unfold take_signature sign in simp e, held)
  ]
