-- ===== src/V1/Header/Buffered.antt =====
-- go/v1/header.go: `Header.Unpack`, which takes a header from a ring buffer, in as many calls as
-- the arrival of its bytes needs. A step returns the header, the buffer and what it reports.
use openapi_protocol.Base.{ℕ, List, length, true, ◌||◌, ltb, ◌==◌, if◌then◌else◌}
use openapi_protocol.Base.Result.{
  Result, ok, unknown_packet, ◌>>=◌, index, Progress, waiting, done, failed,
}
use openapi_protocol.Base.Bytes.{join24}
use openapi_protocol.RingBuffer.{RingBuffer}
use openapi_protocol.V1.Header.{
  Header, is_unknown_packet, set_first_byte, remain_len, request_packet, response_packet,
}

-- The three bytes of the body length, from the two pieces that `Peek(3)` returns.
unfoldable pub three_bytes : List ℕ → List ℕ → Result (ℕ × ℕ × ℕ)
three_bytes f e =
    if length f == 0
    then (do fb ← index e 0; sb ← index e 1; tb ← index e 2; ok (fb, sb, tb))
    else if length f == 1
    then (do fb ← index f 0; sb ← index e 0; tb ← index e 1; ok (fb, sb, tb))
    else if length f == 2
    then (do fb ← index f 0; sb ← index f 1; tb ← index e 0; ok (fb, sb, tb))
    else (do fb ← index f 0; sb ← index f 1; tb ← index f 2; ok (fb, sb, tb))

module _ (rb : RingBuffer) where
  open rb use {Buf, buf_length, peek_uint8, peek_uint16, peek_uint32, peek, retrieve}

  unfoldable pub take_first_byte : Header → Buf → Header × Buf
  take_first_byte h b =
      if h.begin_unpack
      then (h, b)
      else (record (set_first_byte (peek_uint8 b) h) { begin_unpack = true }, retrieve 1 b)

  unfoldable pub take_cmd_code : Header → Buf → Header × Buf
  take_cmd_code h b = (record h { cmd_code = peek_uint8 b }, retrieve 1 b)

  unfoldable pub take_request_id : Header → Buf → Header × Buf
  take_request_id h b =
      if h.type == request_packet || h.type == response_packet
      then (record h { request_id = peek_uint32 b }, retrieve 4 b)
      else (h, b)

  unfoldable pub take_timeout : Header → Buf → Header × Buf
  take_timeout h b =
      if h.type == request_packet
      then (record h { timeout = peek_uint16 b }, retrieve 2 b)
      else (h, b)

  unfoldable pub take_status : Header → Buf → Header × Buf
  take_status h b =
      if h.type == response_packet
      then (record h { status_code = peek_uint8 b }, retrieve 1 b)
      else (h, b)

  unfoldable pub take_body_length : Header → Buf → Result (Header × Buf)
  unfolding three_bytes
  take_body_length h b = do
    let fe = peek 3 b
    let b = retrieve 3 b
    (fb, sb, tb) ← three_bytes fe.0 fe.1
    ok (record h { body_length = join24 fb sb tb }, b)

  unfoldable pub take_fields : Header → Buf → Result (Header × Buf)
  unfolding take_cmd_code take_request_id take_timeout take_status take_body_length
  take_fields h b =
      let (h, b) = take_cmd_code h b in
      let (h, b) = take_request_id h b in
      let (h, b) = take_timeout h b in let (h, b) = take_status h b in take_body_length h b

  unfoldable pub unpack_rest : Header → Buf → Result (Header × Buf × Progress)
  unfolding is_unknown_packet remain_len take_fields
  unpack_rest h b =
      if is_unknown_packet h
      then ok (h, b, failed unknown_packet)
      else if ltb (buf_length b) (remain_len h)
      then ok (h, b, waiting)
      else (do (h, b) ← take_fields (record h { is_unpacked = true }) b; ok (h, b, done))

  unfoldable pub unpack : Header → Buf → Result (Header × Buf × Progress)
  unfolding take_first_byte
  unpack h b =
      if buf_length b == 0
      then ok (h, b, waiting)
      else if h.is_unpacked
      then ok (h, b, done)
      else let (h, b) = take_first_byte h b in unpack_rest h b
