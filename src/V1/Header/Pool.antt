-- ===== src/V1/Header/Pool.antt =====
-- go/v1/header.go: `headerPool.Get`, and the header that packet metadata becomes. `pooled` is the
-- header that `sync.Pool` hands out: a new one, or any that was put back.
use openapi_protocol.Base.{ℕ, [], none, ◌≡◌, refl, bit_and, false, ◌==◌, if◌then◌else◌}
use openapi_protocol.Metadata.{PacketType, request, response, push, other, Metadata}
use openapi_protocol.V1.Header.{Header, empty, request_packet, response_packet, push_packet}

unfoldable pub get : Header → Header
get pooled = record pooled {
  type = 0;
  verify = 0;
  gzip = 0;
  reserve = 0;
  cmd_code = 0;
  timeout = 0;
  request_id = 0;
  status_code = 0;
  body_length = 0;
  begin_unpack = false;
  is_unpacked = false;
}

abbrev pub type_number : PacketType → ℕ → ℕ
type_number request t = request_packet
type_number response t = response_packet
type_number push t = push_packet
type_number other t = t

-- `headerFromMetadata`
unfoldable pub header_from_metadata : Header → Metadata → Header
unfolding get
header_from_metadata pooled md =
    let h = get pooled in
    record h {
      gzip = if md.gzip then 1 else h.gzip;
      verify = if md.verify then 1 else h.verify;
      type = type_number md.type h.type;
      request_id = md.request_id;
      cmd_code = bit_and md.cmd_code 0xff;
      timeout = md.timeout;
      status_code = md.status_code;
    }

-- `Header.Metadata`; `codec` is that of the context. The map of values stays nil.
unfoldable pub metadata : Header → ℕ → Metadata
metadata h codec = record {
  nonce = 0;
  request_id = h.request_id;
  cmd_code = h.cmd_code;
  verify = h.verify == 1;
  gzip = h.gzip == 1;
  timeout = h.timeout;
  codec = codec;
  status_code = h.status_code;
  type =
      if h.type == request_packet
      then request
      else if h.type == response_packet
      then response
      else if h.type == push_packet
      then push
      else other;
  signature = [];
  values = none;
}

-- A header from the pool is the zero header, whatever it held when it was put back.
pub get_lem : (pooled : Header) → get pooled ≡ empty
unfolding get
get_lem pooled = refl
