-- ===== src/Examples/PacketsV2.antt =====
-- Version 2 packets and streams on concrete data.
use openapi_protocol.Base.{
  ◌-◌, take, ℕ, ◌+◌, ◌≤◌, ◌≡◌, refl, arith, List, [], ◌∷◌, ◌++◌, length, drop, get_elem?, true,
  false, leb, bytes_eq, if◌then◌else◌, none, some,
}
use openapi_protocol.Base.Result.{write_at, ok}
use openapi_protocol.Context.{Context, client_side, begin, new_context}
use openapi_protocol.Examples.Stored.{stored, stored-IsLawful}
use openapi_protocol.Gzip.{compress, decompress}
use openapi_protocol.Metadata.{request}
use openapi_protocol.Metadata.Values.{marshal_values, marshal_loop}
use openapi_protocol.Metadata.Strings.{marshal_string}
use openapi_protocol.Packet.{Packet, complete}
use openapi_protocol.Protocol.Options.{compresses, gzip_size, new_pack_options}
use openapi_protocol.RingBuffer.Queue.{queue}
use openapi_protocol.V1
use openapi_protocol.V1.Packet.Received.{IsSendable}
use openapi_protocol.V2.Header
use openapi_protocol.V2.Header.{HeaderV2, header_from_metadata}
use openapi_protocol.V2.Header.RoundTrip.{empty_v2}
use openapi_protocol.V2.Packet.{
  pack, pack_frame, pack_compressed, fill, frame_header_len, unpack_bytes,
}
use openapi_protocol.V2.Packet.Layout.{block}
use openapi_protocol.V2.Packet.RoundTrip.{delivered_v2}
use openapi_protocol.V2.Packet.Delivery.{IsSendableV2, unpack-pack_v2}
use openapi_protocol.V2.Packet.Overwritten.{signature-overwritten}
use openapi_protocol.V2.Packet.Frames.{unpack_bytes-pack_v2}
use openapi_protocol.V2.Packet.Sequence.{Sent, nothing, packet}
use openapi_protocol.RingBuffer.Pair.{queues}
use openapi_protocol.Client.Tcp.Reading
use openapi_protocol.Client.Tcp.Reading.Version2.{reading_v2, reading_v2-Sent}
use openapi_protocol.V2.Stream.{unpack}
use openapi_protocol.V2.Stream.{need}
use openapi_protocol.V2.Stream.Step.{decoded, body_step, header_step, step_from, step}
use openapi_protocol.V2.Header.Absorb
use openapi_protocol.V2.Header.Fields
use openapi_protocol.Base.Bytes.{be_uint}
use openapi_protocol.Metadata.Strings.{get_string, long_length, string_at, unmarshal_string_length}
use openapi_protocol.Metadata.Values.{unmarshal_values, unmarshal_loop}
use openapi_protocol.Metadata.{insert}
use openapi_protocol.V1.Stream.Step.{report_of}
use openapi_protocol.V1.Stream.Signature.{sign}
use openapi_protocol.V1.Packet.{decompress_body}
use openapi_protocol.V1.Header.Pool.{metadata}
use openapi_protocol.Gzip.{decompressed_size, le_uint, read_limit}
use openapi_protocol.V2.Stream.Refines.{Leaves, unpack-step_v2}

-- `strings.ToLower` on ASCII letters.
abbrev lower : List ℕ → List ℕ
lower [] = []
lower (b ∷ bytes) = (if leb 65 b then (if leb b 90 then b + 32 else b) else b) ∷ lower bytes

abbrev asked : Packet
asked = record {
  metadata = record {
    nonce = 0;
    request_id = 258;
    cmd_code = 11;
    verify = false;
    gzip = false;
    timeout = 5;
    codec = 1;
    status_code = 0;
    type = request;
    signature = [];
    values = some ((97 ∷ [], 98 ∷ 99 ∷ []) ∷ []);
  };
  body = 104 ∷ 105 ∷ [];
}

abbrev asked_bytes : List ℕ
asked_bytes =
    0x1 ∷ 11 ∷ 0 ∷ 0 ∷ 1 ∷ 2 ∷ 0 ∷ 5 ∷ 0 ∷ 5 ∷ 0 ∷ 0 ∷ 2 ∷ 1 ∷ 97 ∷ 2 ∷ 98 ∷ 99 ∷ 104 ∷ 105 ∷ []

asked_packed : pack stored empty_v2 asked [] ≡ (asked, ok asked_bytes)
unfolding pack pack_compressed pack_frame Header.pack gzip_size compresses new_pack_options compress
    header_from_metadata write_at fill frame_header_len marshal_values marshal_loop marshal_string
    V1.Header.is_unknown_packet V1.Header.Pool.header_from_metadata V1.Header.pack_ids
    V1.Header.first_byte
asked_packed = refl

abbrev context : Context HeaderV2 ℕ
context = new_context client_side

fresh : context.header ≡ none
unfolding new_context
fresh = refl

asked-IsSendableV2 : IsSendableV2 lower asked
asked-IsSendableV2 = record {
  sendable = record { word = omega arith; nonce_u64 = omega arith; signature_16 = λ v. cc };
  plain = λ v. cc;
  lowered = (refl, tt);
  distinct = (tt, tt);
}

unpack-pack_v2_example :
    Leaves lower stored queue
      (begin context)
      (unpack lower stored queue empty_v2 context (asked_bytes ++ (9 ∷ [])))
      (
        none,
        9 ∷ [],
        complete
            (record { metadata = delivered_v2 asked.metadata context.codec; body = asked.body }),
      )
unpack-pack_v2_example =
    unpack-pack_v2 lower stored stored-IsLawful queue context (asked_bytes ++ (9 ∷ [])) empty_v2
      empty_v2 asked asked [] asked_bytes (9 ∷ []) asked-IsSendableV2 refl (omega arith)
      asked_packed fresh refl

unpack_bytes-pack_v2_example :
    (unpack_bytes lower stored empty_v2 context asked_bytes).1
    ≡ ok (record { metadata = delivered_v2 asked.metadata context.codec; body = asked.body })
unpack_bytes-pack_v2_example =
    unpack_bytes-pack_v2 lower stored empty_v2 context stored-IsLawful empty_v2 asked asked []
      asked_bytes fresh asked-IsSendableV2 refl (omega arith) asked_packed

abbrev delivered_asked : Packet
delivered_asked = record { metadata = delivered_v2 asked.metadata 1; body = asked.body }

two_asked :
    Sent lower stored 1
      (asked_bytes ++ (asked_bytes ++ []))
      (delivered_asked ∷ delivered_asked ∷ [])
two_asked =
    packet empty_v2 asked asked [] asked_bytes (asked_bytes ++ []) (delivered_asked ∷ [])
      asked-IsSendableV2 refl (omega arith) asked_packed
      (packet empty_v2 asked asked [] asked_bytes [] [] asked-IsSendableV2 refl (omega arith)
        asked_packed nothing)

-- Two packets in two chunks, of which the first ends within the second packet.
abbrev chunks : List (List ℕ)
chunks = (asked_bytes ++ (0x1 ∷ 11 ∷ [])) ∷ drop 2 asked_bytes ∷ []

-- The context of a connection whose handshake had the codec 1.
abbrev context_v2 : Context HeaderV2 ℕ
context_v2 = record context { codec = 1 }

reading_v2-Sent_example :
    (c' : Context HeaderV2 ℕ) × (b' : List ℕ) × (reading_v2 lower stored
        (λ c. empty_v2)
        1
        queues
        1
        chunks
        (Reading.drained context_v2 [] [])
      ≡ Reading.drained c' b'
          ([] ++ take (1 - length {A = Packet} []) (delivered_asked ∷ delivered_asked ∷ [])))
    × (b' ≡ [])
reading_v2-Sent_example =
    reading_v2-Sent lower stored (λ c. empty_v2) 1 stored-IsLawful queues 1 chunks
      (delivered_asked ∷ delivered_asked ∷ []) [] context_v2 [] fresh refl refl two_asked

unpack-step_v2_example :
    Leaves lower stored queue
      (begin context)
      (unpack lower stored queue empty_v2 context asked_bytes)
      (step lower stored context.codec context.header asked_bytes)
unpack-step_v2_example = unpack-step_v2 lower stored queue empty_v2 context asked_bytes

-- A verified packet with metadata.
abbrev signed : Packet
signed = record {
  metadata = record asked.metadata {
    nonce = 7;
    verify = true;
    signature = 1 ∷ 2 ∷ 3 ∷ 4 ∷ 5 ∷ 6 ∷ 7 ∷ 8 ∷ 9 ∷ 10 ∷ 11 ∷ 12 ∷ 13 ∷ 14 ∷ 15 ∷ 16 ∷ [];
  };
  body = 104 ∷ 105 ∷ [];
}

-- What `Pack` writes for it, where the nonce stands over the end of the metadata and the body.
abbrev signed_bytes : List ℕ
signed_bytes =
    0x11 ∷ 11 ∷ 0 ∷ 0 ∷ 1 ∷ 2 ∷ 0 ∷ 5 ∷ 0 ∷ 5 ∷ 0 ∷ 0 ∷ 2 ∷ 1 ∷ 97 ∷ 0 ∷ 0 ∷ 0 ∷ 0 ∷ 0 ∷ 0 ∷ 0 ∷ 7
    ∷ 1 ∷ 2 ∷ 3 ∷ 4 ∷ 5 ∷ 6 ∷ 7 ∷ 8 ∷ 9 ∷ 10 ∷ 11 ∷ 12 ∷ 13 ∷ 14 ∷ 15 ∷ 16 ∷ 0 ∷ 0 ∷ 0 ∷ 0 ∷ 0 ∷ []

signed_packed : pack_frame empty_v2 signed ≡ ok signed_bytes
unfolding pack_frame Header.pack compress header_from_metadata write_at fill frame_header_len
    marshal_values marshal_loop marshal_string V1.Header.is_unknown_packet
    V1.Header.Pool.header_from_metadata V1.Header.pack_ids V1.Header.first_byte
signed_packed = refl

signed-IsSendable : IsSendable signed.metadata
signed-IsSendable = record { word = omega arith; nonce_u64 = omega arith; signature_16 = λ v. refl }

signed-block : 1 ≤ length (block signed)
unfolding marshal_values marshal_loop marshal_string
signed-block = omega arith

-- The packet that the receiver makes of it.
abbrev arrived : Packet
arrived = record {
  metadata = record signed.metadata {
    nonce = 7700910113797;
    signature = 6 ∷ 7 ∷ 8 ∷ 9 ∷ 10 ∷ 11 ∷ 12 ∷ 13 ∷ 14 ∷ 15 ∷ 16 ∷ 0 ∷ 0 ∷ 0 ∷ 0 ∷ 0 ∷ [];
    values = some ((97 ∷ [], []) ∷ ([], []) ∷ []);
  };
  body = 0 ∷ 0 ∷ [];
}

signed_read : step lower stored 1 none (signed_bytes ++ []) ≡ (none, [], complete arrived)
unfolding step step_from header_step Absorb.absorb Absorb.absorb_rest V1.Header.is_unknown_packet
    V1.Header.set_first_byte Header.remain_len body_step need Fields.fields V1.Header.Fields.body24
    be_uint decoded unmarshal_values unmarshal_loop get_string report_of decompress_body bytes_eq
    decompress decompressed_size le_uint read_limit long_length string_at unmarshal_string_length
    insert metadata sign
signed_read = refl

signature-overwritten_example : get_elem? arrived.metadata.signature 15 ≡ some 0
signature-overwritten_example =
    signature-overwritten lower stored 1 empty_v2 signed arrived signed_bytes [] [] none
      signed-IsSendable refl signed-block signed_packed signed_read
