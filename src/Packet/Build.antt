-- ===== src/Packet/Build.antt =====
-- go/packet.go: the constructors of packets. `V` is the type of the Go values that a body can be
-- other than bytes; their encoders are a parameter.
use openapi_protocol.Base.{
  ℕ, ◌+◌, ◌%◌, ◌^◌, ◌≡◌, refl, sym, ap, ◌∙◌, arith, List, [], ◌∷◌, ◌++◌, true, false, ◌==◌,
  if◌then◌else◌, Option, none, some,
}
use openapi_protocol.Base.Result.{Result, ok, err, marshal_failed, invalid_codec, ◌>>=◌, >>=-eq-ok}
use openapi_protocol.Context.{Context, next_req_id}
use openapi_protocol.Metadata.{Metadata, PacketType, request, response, push}
use openapi_protocol.Packet.{Packet}

-- An option changes the metadata.
abbrev pub PacketOption : Type 0
PacketOption = Metadata → Metadata

unfoldable pub with_verify : ℕ → List ℕ → PacketOption
with_verify nonce sig md = record md { nonce = nonce; signature = sig; verify = true }

unfoldable pub with_request_id : ℕ → PacketOption
with_request_id id md = record md { request_id = id }

unfoldable pub with_status_code : ℕ → PacketOption
with_status_code code md = record md { status_code = code }

unfoldable pub apply_options : List PacketOption → Metadata → Metadata
apply_options [] md = md
apply_options (opt ∷ opts) md = apply_options opts (opt md)

abbrev codec_protobuf : ℕ
codec_protobuf = 1

abbrev codec_json : ℕ
codec_json = 2

-- `proto.Marshal`, `none` on a value that is no message as well, and `json.Marshal`.
pub record Encoders (V : Type 0) : Type 0 where
  pub proto_marshal : V → Option (List ℕ)
  pub json_marshal : V → Option (List ℕ)

-- What the constructors take as the body: nil, bytes, or any other value.
pub data Body (V : Type 0) : Type 0 where
  no_body : Body V
  bytes : List ℕ → Body V
  value : V → Body V

unfoldable pub or_marshal_failed : Option (List ℕ) → Result (List ℕ)
or_marshal_failed none = err marshal_failed
or_marshal_failed (some out) = ok out

-- The metadata before the options.
unfoldable pub new_metadata : ℕ → PacketType → ℕ → Metadata
new_metadata codec t cmd = record {
  nonce = 0;
  request_id = 0;
  cmd_code = cmd;
  verify = false;
  gzip = false;
  timeout = 0;
  codec = codec;
  status_code = 0;
  type = t;
  signature = [];
  values = some [];
}

apply_options-append :
    (opts more : List PacketOption) (md : Metadata)
    → apply_options (opts ++ more) md ≡ apply_options more (apply_options opts md)
unfolding apply_options
apply_options-append [] more md = refl
apply_options-append (opt ∷ opts) more md = apply_options-append opts more (opt md)

module _ {V : Type 0} (encoders : Encoders V) where
  unfoldable pub marshal : ℕ → V → Result (List ℕ)
  unfolding or_marshal_failed
  marshal codec v =
      if codec == codec_protobuf
      then or_marshal_failed (encoders.proto_marshal v)
      else if codec == codec_json
      then or_marshal_failed (encoders.json_marshal v)
      else err invalid_codec

  unfoldable pub body_bytes : ℕ → Body V → Result (List ℕ)
  body_bytes codec no_body = ok []
  body_bytes codec (bytes bs) = ok bs
  body_bytes codec (value v) = marshal codec v

module _ {V H A : Type 0} (encoders : Encoders V) where
  unfoldable pub new_packet :
      Context H A → PacketType → ℕ → Body V → List PacketOption → Result Packet
  new_packet c t cmd body opts = body_bytes encoders c.codec body >>= λ bs.
      ok (record { metadata = apply_options opts (new_metadata c.codec t cmd); body = bs })

  -- The request id is taken even where the body cannot be encoded.
  unfoldable pub new_request :
      Context H A → ℕ → Body V → List PacketOption → Context H A × Result Packet
  new_request c cmd body opts =
      let (c', id) = next_req_id c in
      (c', new_packet c' request cmd body (opts ++ (with_request_id id ∷ [])))

  unfoldable pub new_response : Context H A → ℕ → ℕ → Body V → List PacketOption → Result Packet
  new_response c cmd code body opts =
      new_packet c response cmd body (opts ++ (with_status_code code ∷ []))

  unfoldable pub new_push : Context H A → ℕ → Body V → List PacketOption → Result Packet
  new_push c cmd body opts = new_packet c push cmd body opts

  pub new_packet_lem :
      (c : Context H A) (t : PacketType) (cmd : ℕ) (body : Body V) (opts : List PacketOption)
      (p : Packet)
      → new_packet c t cmd body opts ≡ ok p
      → p.metadata ≡ apply_options opts (new_metadata c.codec t cmd)
  unfolding new_packet
  new_packet_lem c t cmd body opts p e =
      let r = >>=-eq-ok (body_bytes encoders c.codec body) _ e in ground (arith, r.2)

  -- Whatever the options are, a request has the id that its context gave for it, which the context
  -- keeps as the last one given.
  pub new_request_lem :
      (c : Context H A) (cmd : ℕ) (body : Body V) (opts : List PacketOption) (p : Packet)
      → (new_request c cmd body opts).1 ≡ ok p
      → (p.metadata.request_id ≡ (c.last_id + 1) % 2 ^ 32)
        × ((new_request c cmd body opts).0.last_id ≡ p.metadata.request_id)
  unfolding new_request with_request_id next_req_id
  new_request_lem c cmd body opts p e =
      let m = new_packet_lem _ request cmd body _ p e in
      let last = apply_options-append opts _ (new_metadata c.codec request cmd) in
      let id : p.metadata.request_id ≡ (c.last_id + 1) % 2 ^ 32 =
        ap (λ md. md.request_id) (m ∙ last) ∙ (unfold apply_options in refl) in
      (id, sym id)

  -- Whatever the options are, a response has the status code of the call.
  pub new_response_lem :
      (c : Context H A) (cmd code : ℕ) (body : Body V) (opts : List PacketOption) (p : Packet)
      → new_response c cmd code body opts ≡ ok p
      → p.metadata.status_code ≡ code
  unfolding new_response with_status_code
  new_response_lem c cmd code body opts p e =
      let m = new_packet_lem c response cmd body _ p e in
      let last = apply_options-append opts _ (new_metadata c.codec response cmd) in
      ap (λ md. md.status_code) (m ∙ last) ∙ (unfold apply_options in refl)
