-- ===== src/Examples/Calls.antt =====
-- Calls of the client, its lock and the pools of compression on concrete data.
use openapi_protocol.Base.{
  ℕ, zero, suc, ◌+◌, ◌-◌, ◌%◌, ◌^◌, bytes_eq, ◌≡◌, ◌≢◌, refl, arith, List, [], ◌∷◌, ap, length,
  length-take, take, true, false, not, none, some, ℤ, pos, negsuc,
}
use openapi_protocol.Base.Result.{ok}
use openapi_protocol.Examples.Stored.{stored, stored-IsLawful}
use openapi_protocol.Examples.Clients.{packet_of, encoders, decoders, auth_decoders, context}
use openapi_protocol.Gzip.Laws.{IsLawful}
use openapi_protocol.Gzip.Pools.{
  write_failed, written, Package, Compressor, is_level, compress, decompress, take_at, get_writer,
  new_or_panic, write_with, put_writer,
}
use openapi_protocol.Gzip.Pools.Reuse.{IsDocumented, IsReady, library, decompress-compress_pooled}
use openapi_protocol.Metadata.{response}
use openapi_protocol.Packet.{Packet}
use openapi_protocol.Packet.Build
use openapi_protocol.Packet.Build.{no_body}
use openapi_protocol.Packet.Kinds
use openapi_protocol.Packet.Kinds.{packet_err}
use openapi_protocol.Packet.Pairs.{
  get_metadata, set_metadata_pairs, last_value, get_metadata-set_metadata_pairs,
}
use openapi_protocol.Client.Calls
use openapi_protocol.Client.Calls.{crashed, context_of, do_call}
use openapi_protocol.Client.Calls.Answered.{do_call-response, do_call-crashes}
use openapi_protocol.Client.Dial.{Meeting, new_session, is_zero, dial}
use openapi_protocol.Client.Dial.Outcomes.{dial-connected}
use openapi_protocol.Client.Dialers.{get_dialer}
use openapi_protocol.Client.Lock
use openapi_protocol.Client.Lock.{
  Client, Code, finished, r_lock, r_unlock, reconnecting, locking, close_by_server, do_code,
  new_client, update, Steps,
}
use openapi_protocol.Client.Lock.Guard.{reconnects, reconnects-alone}
use openapi_protocol.Client.Lock.Deadlock.{locked_out, close_by_server-locks_out}
use openapi_protocol.Client.Reconnect.{
  open_conn, Attempt, answered, unanswered, has_token, reconnect,
}
use openapi_protocol.Client.Requests.{new_table, find}
use openapi_protocol.Client.Requests.Ids.{register_each, id_after, find-register_each}

find-register_each_example :
    find (id_after 1 context) (register_each 3 context new_table).recvs ≡ some (new_table.made + 1)
find-register_each_example = find-register_each 3 1 context new_table (omega arith) (omega arith)

abbrev lower : List ℕ → List ℕ
lower bytes = bytes

abbrev pairs : List (List ℕ × List ℕ)
pairs = (97 ∷ [], 98 ∷ []) ∷ []

abbrev reply : Packet
reply = packet_of response 5 42 0 []

get_metadata-set_metadata_pairs_example :
    (p : Packet) × (set_metadata_pairs lower pairs reply ≡ ok p)
    × (p.metadata.request_id ≡ reply.metadata.request_id)
    × (get_metadata lower p (97 ∷ [])
        ≡ last_value lower (97 ∷ []) pairs (get_metadata lower reply (97 ∷ [])))
get_metadata-set_metadata_pairs_example =
    get_metadata-set_metadata_pairs lower (97 ∷ []) pairs reply ([], refl)

abbrev attempt : Attempt
attempt = record {
  dials = false;
  now = 0;
  token = has_token;
  auth_answer = unanswered;
  reconnect_answer = unanswered;
}

do_call-crashes_example :
    do_call encoders lower decoders
      (context_of context (reconnect decoders auth_decoders 0 attempt new_session).0.conn)
      5
      no_body
      pairs
      true
      (λ p. answered reply)
    ≡ crashed
do_call-crashes_example =
    do_call-crashes encoders lower decoders auth_decoders 0 attempt new_session context 5 no_body
      pairs true (λ p. answered reply) refl refl

called :
    do_call encoders lower decoders (some context) 5 no_body [] true (λ p. answered reply)
    ≡ Calls.response reply
unfolding do_call Calls.request_of Calls.send Calls.wait Calls.checked packet_err set_metadata_pairs
    Build.new_request Build.new_packet Build.body_bytes Kinds.is_response
called = refl

do_call-response_example :
    (p : Packet) × (answered reply ≡ answered reply)
    × (p.metadata.request_id ≡ (context.last_id + 1) % 2 ^ 32)
    × (get_metadata lower p (97 ∷ []) ≡ last_value lower (97 ∷ []) [] [])
    × (packet_err decoders reply ≡ none)
do_call-response_example =
    do_call-response encoders lower decoders (97 ∷ []) context 5 no_body [] true
      (λ p. answered reply) reply called

abbrev dialers : List (List ℕ × ℕ)
dialers = (116 ∷ [], 7) ∷ []

abbrev meeting : Meeting
meeting = record {
  scheme = some (116 ∷ []);
  dials = true;
  token = has_token;
  auth_answer = unanswered;
}

found : get_dialer (116 ∷ []) dialers ≡ some 7
unfolding get_dialer bytes_eq
found = refl

dial-connected_example :
    let r = dial decoders auth_decoders (pos 5) dialers meeting new_session in
    (r.0.conn ≡ open_conn)
    × (r.1 ≡ not (is_zero (pos 5)))
    × (r.2 ≡ none → meeting.token ≡ has_token → r.0.auth_info ≢ none)
dial-connected_example =
    dial-connected decoders auth_decoders (pos 5) dialers meeting new_session (116 ∷ []) 7 refl
      found refl

-- A goroutine that reconnects.
abbrev guarded : Client
guarded = record new_client {
  do_reconnecting = true;
  code =
      update 0 (Lock.connecting finished)
        (update 0 (locking finished) (update 0 (reconnecting finished) new_client.code));
}

guarded-Steps : Steps new_client guarded
unfolding new_client Lock.goes_on Lock.enter Lock.drop_one update
guarded-Steps =
    Lock.then_step
      (Lock.then_step
        (Lock.then_step Lock.same (Lock.begins 0 (reconnecting finished) refl Lock.check_fails))
        (Lock.asks 0 finished refl))
      (Lock.enters 0 finished refl refl)

guarded-reconnects : reconnects (guarded.code 0) ≡ true
unfolding new_client update reconnects
guarded-reconnects = refl

reconnects-alone_example : ◌≡◌ {A = ℕ} 0 0
reconnects-alone_example = reconnects-alone 0 0 guarded-Steps guarded-reconnects guarded-reconnects

-- One goroutine begins `closeByServer` and another one `Do`.
abbrev closing : Client
closing = record {
  readers = [];
  pending = [];
  do_reconnecting = false;
  conn_closed = false;
  client_closed = false;
  code = λ i. elim i [ zero ↦ close_by_server | suc j ↦ do_code ];
}

close_by_server-locks_out_example :
    Steps closing (locked_out 0 closing)
    × ((locked_out 0 closing).code 0 ≡ locking (r_unlock (reconnecting finished)))
    × ((locked_out 0 closing).code 1 ≡ do_code)
close_by_server-locks_out_example =
    close_by_server-locks_out 0 1 (Lock.waits (r_unlock finished)) {c = closing} refl refl
      (λ e. omega arith) refl refl refl Lock.same

-- A library whose writers store their input, whatever their level.
abbrev storing : Package
storing = record {
  Writer = ℤ;
  Reader = List ℕ;
  new_writer = λ l. some l;
  write =
      λ w bytes. (w, elim (stored.deflate bytes) [ none ↦ write_failed | some out ↦ written out ]);
  new_reader = λ bytes. some bytes;
  reset = λ z bytes. (bytes, false);
  read = λ z n. (z, take n (take (length z - 4) z), false, true);
}

abbrev storing-IsDocumented : IsDocumented storing
storing-IsDocumented = record {
  level_of = λ w. w;
  level_made = λ l w e. cc;
  made = λ l e. (l, refl);
  level_kept = λ w bytes. refl;
  writes_alike = λ w w' bytes e. refl;
  reset_fails = λ z bytes e. cc;
  reset_opens = λ z y bytes e. refl;
  reads_alike =
      λ z y bytes n e. ap {A = List ℕ} (λ x. (take n (take (length x - 4) x), false)) (cc e);
}

storing-IsLawful : (l : ℤ) → is_level l ≡ true → IsLawful (library storing l)
storing-IsLawful l e = record {
  inflate-deflate = λ bytes out n h. ground (arith, stored-IsLawful.inflate-deflate bytes out n h);
  trailer = λ bytes out h. stored-IsLawful.trailer bytes out h;
  limited = λ bytes out n failed h. ground (arith, length-take n (take (length bytes - 4) bytes));
}

-- A writer and a reader are in the pools.
abbrev compressor : Compressor storing
compressor = record { level = negsuc 0; writers = pos 5 ∷ []; readers = (1 ∷ []) ∷ [] }

compressor-IsReady : IsReady storing-IsDocumented compressor
unfolding is_level
compressor-IsReady = record { level = refl; writers = (refl, tt) }

compressed : (compress storing 0 compressor (3 ∷ [])).1 ≡ ok (3 ∷ 1 ∷ 0 ∷ 0 ∷ 0 ∷ [])
unfolding compress take_at get_writer new_or_panic write_with put_writer
compressed = refl

decompress-compress_pooled_example :
    (decompress storing 0 compressor (3 ∷ 1 ∷ 0 ∷ 0 ∷ 0 ∷ [])).1 ≡ ok (3 ∷ [], 1)
decompress-compress_pooled_example =
    decompress-compress_pooled storing-IsDocumented 0 0 compressor compressor (3 ∷ [])
      (3 ∷ 1 ∷ 0 ∷ 0 ∷ 0 ∷ []) compressor-IsReady storing-IsLawful (omega arith) compressed
