-- ===== src/Examples/Packets.antt =====
-- Version 1 packets and streams on concrete data.
use openapi_protocol.Base.{
  pos, ℕ, ◌-◌, length, take, ◌≡◌, ◌≢◌, refl, arith, List, [], ◌∷◌, ◌++◌, drop, true, false, none,
  flatten,
}
use openapi_protocol.Base.Result.{write_at, ok}
use openapi_protocol.Context.{Context, client_side, begin, new_context}
use openapi_protocol.Decoder.ReadLoop.{out_of_rounds, read_all, read_chunks}
use openapi_protocol.Decoder.Chunks.{read_all-ne-out_of_rounds, read_chunks-read_all}
use openapi_protocol.Examples.Stored.{stored, stored-IsLawful}
use openapi_protocol.Gzip.{compress}
use openapi_protocol.Metadata.{Metadata, request}
use openapi_protocol.Packet.{Packet, complete}
use openapi_protocol.Protocol.Options.{compresses, gzip_size, new_pack_options}
use openapi_protocol.RingBuffer.Queue.{queue}
use openapi_protocol.V1.Header
use openapi_protocol.V1.Header.{
  Header, IsWord, empty, max_body_length, is_unknown_packet, set_first_byte, remain_len,
}
use openapi_protocol.V1.Header.Pool.{header_from_metadata}
use openapi_protocol.V1.Packet.{pack_frame, pack, pack_compressed, fill, frame_header_len}
use openapi_protocol.V1.Packet.Layout.{IsWordMetadata}
use openapi_protocol.V1.Packet.Received.{IsSendable, delivered}
use openapi_protocol.V1.Packet.Delivery.{Sent, nothing, packet, unpack-pack_packet}
use openapi_protocol.RingBuffer.Pair.{queues}
use openapi_protocol.Client.Tcp.Reading.{drained}
use openapi_protocol.Client.Tcp.Reading.Version1.{reading_v1, reading_v1-Sent}
use openapi_protocol.V1.Stream.{unpack}
use openapi_protocol.V1.Stream.Step.{step}
use openapi_protocol.V1.Stream.Decode.{decoder}
use openapi_protocol.V1.Stream.Refines.{Leaves, unpack-step}

abbrev pub md : Metadata
md = record {
  nonce = 7;
  request_id = 258;
  cmd_code = 2;
  verify = true;
  gzip = false;
  timeout = 5;
  codec = 1;
  status_code = 0;
  type = request;
  signature = 0 ∷ 1 ∷ 2 ∷ 3 ∷ 4 ∷ 5 ∷ 6 ∷ 7 ∷ 8 ∷ 9 ∷ 10 ∷ 11 ∷ 12 ∷ 13 ∷ 14 ∷ 15 ∷ [];
  values = none;
}

md-IsWordMetadata : IsWordMetadata md
md-IsWordMetadata = omega arith

pub md-IsSendable : IsSendable md
md-IsSendable = record {
  word = md-IsWordMetadata;
  nonce_u64 = omega arith;
  signature_16 = λ v. refl;
}

abbrev pub ping : Packet
ping = record { metadata = md; body = 104 ∷ 105 ∷ [] }

-- What is sent where bodies of two bytes or more are to be compressed.
abbrev pub zipped_ping : Packet
zipped_ping = record { metadata = record md { gzip = true }; body = 104 ∷ 105 ∷ 2 ∷ 0 ∷ 0 ∷ 0 ∷ [] }

abbrev pub ping_bytes : List ℕ
ping_bytes =
    0x31 ∷ 2 ∷ 0 ∷ 0 ∷ 1 ∷ 2 ∷ 0 ∷ 5 ∷ 0 ∷ 0 ∷ 6 ∷ 104 ∷ 105 ∷ 2 ∷ 0 ∷ 0 ∷ 0 ∷ 0 ∷ 0 ∷ 0 ∷ 0 ∷ 0 ∷ 0
    ∷ 0 ∷ 7 ∷ md.signature

pub ping_packed : pack stored empty ping (gzip_size (pos 2) ∷ []) ≡ (zipped_ping, ok ping_bytes)
unfolding pack pack_compressed pack_frame Header.pack gzip_size compresses new_pack_options compress
    header_from_metadata write_at fill frame_header_len
ping_packed = refl

abbrev context : Context Header ℕ
context = new_context client_side

abbrev pub delivered_ping : Packet
delivered_ping = record { metadata = delivered zipped_ping.metadata 0; body = ping.body }

fresh : context.header ≡ none
unfolding new_context
fresh = refl

fresh_codec : context.codec ≡ 0
unfolding new_context
fresh_codec = refl

unpack-pack_packet_example :
    Leaves stored queue
      (begin context)
      (unpack stored queue empty context (ping_bytes ++ (9 ∷ [])))
      (
        none,
        9 ∷ [],
        complete
            (record { metadata = delivered zipped_ping.metadata context.codec; body = ping.body }),
      )
unpack-pack_packet_example =
    unpack-pack_packet stored stored-IsLawful queue context (ping_bytes ++ (9 ∷ [])) empty empty
      ping zipped_ping (gzip_size (pos 2) ∷ []) ping_bytes (9 ∷ []) md-IsSendable refl (omega arith)
      ping_packed fresh refl

context_codec : context.codec ≡ 0
unfolding new_context
context_codec = refl

two_pings : Sent stored 0 (ping_bytes ++ (ping_bytes ++ [])) (delivered_ping ∷ delivered_ping ∷ [])
two_pings =
    packet empty ping zipped_ping (gzip_size (pos 2) ∷ []) ping_bytes (ping_bytes ++ [])
      (delivered_ping ∷ []) md-IsSendable refl (omega arith) ping_packed
      (packet empty ping zipped_ping (gzip_size (pos 2) ∷ []) ping_bytes [] [] md-IsSendable refl
        (omega arith) ping_packed nothing)

-- Two packets in two chunks, of which the first ends within the second packet.
abbrev chunks : List (List ℕ)
chunks = (ping_bytes ++ (0x31 ∷ 2 ∷ [])) ∷ drop 2 ping_bytes ∷ []

reading_v1-Sent_example :
    (c' : Context Header ℕ) × (b' : List ℕ) × (reading_v1 stored
        (λ c. empty)
        0
        queues
        1
        chunks
        (drained context [] [])
      ≡ drained c' b'
          ([] ++ take (1 - length {A = Packet} []) (delivered_ping ∷ delivered_ping ∷ [])))
    × (b' ≡ [])
reading_v1-Sent_example =
    reading_v1-Sent stored (λ c. empty) 0 stored-IsLawful queues 1 chunks
      (delivered_ping ∷ delivered_ping ∷ []) [] context [] fresh context_codec refl two_pings

read_chunks-read_all_example :
    read_chunks (decoder stored 0) (read_all (decoder stored 0) none []) chunks
    ≡ read_all (decoder stored 0) none ([] ++ flatten chunks)
read_chunks-read_all_example = read_chunks-read_all (decoder stored 0) chunks none []

read_all-ne-out_of_rounds_example :
    (read_all (decoder stored 0) none ping_bytes).ending ≢ out_of_rounds
read_all-ne-out_of_rounds_example = read_all-ne-out_of_rounds (decoder stored 0) none ping_bytes

unpack-step_example :
    Leaves stored queue
      (begin context)
      (unpack stored queue empty context ping_bytes)
      (step stored context.codec context.header ping_bytes)
unpack-step_example = unpack-step stored queue empty context ping_bytes

-- The header of a request with a body of 66051 bytes.
abbrev header : Header
header = record empty {
  type = 1;
  request_id = 16909060;
  timeout = 1029;
  body_length = 66051;
  cmd_code = 6;
}

header-IsWord : IsWord header
header-IsWord = omega arith

header-known : is_unknown_packet header ≡ false
unfolding is_unknown_packet
header-known = refl
