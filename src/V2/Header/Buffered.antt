-- ===== src/V2/Header/Buffered.antt =====
-- go/v2/v2_header.go: `Header.Unpack`, which takes a header from a ring buffer, in as many calls as
-- the arrival of its bytes needs. A step returns the header, the buffer and what it reports.
use openapi_protocol.Base.{true, ltb, ◌==◌, if◌then◌else◌}
use openapi_protocol.Base.Result.{
  Result, ok, unknown_packet, ◌>>=◌, Progress, waiting, done, failed,
}
use openapi_protocol.RingBuffer.{RingBuffer}
use openapi_protocol.V1.Header.{is_unknown_packet}
use openapi_protocol.V1.Header.Buffered.{
  take_first_byte, take_cmd_code, take_request_id, take_timeout, take_status, take_body_length,
}
use openapi_protocol.V2.Header.{HeaderV2, remain_len}

module _ (rb : RingBuffer) where
  open rb use {Buf, buf_length, peek_uint16, retrieve}

  unfoldable pub take_fields : HeaderV2 → Buf → Result (HeaderV2 × Buf)
  take_fields h b =
      let (base, b) = take_cmd_code rb h.base b in
      let (base, b) = take_request_id rb base b in
      let (base, b) = take_timeout rb base b in
      let (base, b) = take_status rb base b in
      take_body_length rb base (retrieve 2 b) >>= λ r.
      ok (record { metadata_length = peek_uint16 b; base = r.0 }, r.1)

  unfoldable pub unpack_rest : HeaderV2 → Buf → Result (HeaderV2 × Buf × Progress)
  unfolding remain_len
  unpack_rest h b =
      if is_unknown_packet h.base
      then ok (h, b, failed unknown_packet)
      else if ltb (buf_length b) (remain_len h)
      then ok (h, b, waiting)
      else (do
        (h, b) ← take_fields (record h { base = record h.base { is_unpacked = true } }) b
        ok (h, b, done))

  unfoldable pub unpack : HeaderV2 → Buf → Result (HeaderV2 × Buf × Progress)
  unpack h b =
      if buf_length b == 0
      then ok (h, b, waiting)
      else if h.base.is_unpacked
      then ok (h, b, done)
      else let (base, b) = take_first_byte rb h.base b in unpack_rest (record h { base = base }) b
