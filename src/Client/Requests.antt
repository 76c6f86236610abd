-- ===== src/Client/Requests.antt =====
-- go/client/client.go: the requests that wait for a response. Any number of calls of `recv`, the
-- handler of responses and `reconnect` share the map `recvs` under its lock; a step is what one of
-- them does between two points at which another may come in.
pub mod Answers
pub mod Reconnected
pub mod Ids
use openapi_protocol.Base.{
  ℕ, ◌+◌, ◌≡◌, List, [], ◌∷◌, Bool, true, false, ◌==◌, if◌then◌else◌, Option, none, some,
}
use openapi_protocol.Metadata.{Metadata}
use openapi_protocol.Packet.{Packet}

-- One call of `recv`, with the channel `ch` that it makes: its argument `rid`, the packet in the
-- channel, whether the channel is closed, whether the call is at its `select`, and what it returned.
pub record Call : Type 0 where
  pub request_id : ℕ
  pub reply : Option Packet
  pub closed : Bool
  pub waiting : Bool
  pub answer : Option Packet

-- The calls have numbers from 0; `made` of them have begun. `reconnecting` is `doReconnectting`.
pub record Table : Type 0 where
  pub recvs : List (ℕ × ℕ)
  pub calls : ℕ → Call
  pub made : ℕ
  pub reconnecting : Bool
  pub panicked : Bool

-- A call that has not begun.
abbrev pub no_call : Call
no_call = record { request_id = 0; reply = none; closed = false; waiting = false; answer = none }

-- `New`
unfoldable pub new_table : Table
new_table = record {
  recvs = [];
  calls = λ _. no_call;
  made = 0;
  reconnecting = false;
  panicked = false;
}

-- `recvs[rid]`
unfoldable pub find : ℕ → List (ℕ × ℕ) → Option ℕ
find rid [] = none
find rid ((j, c) ∷ es) = if j == rid then some c else find rid es

-- `delete(recvs, rid)`
unfoldable pub remove : ℕ → List (ℕ × ℕ) → List (ℕ × ℕ)
remove rid [] = []
remove rid ((j, c) ∷ es) = let rest = remove rid es in if j == rid then rest else (j, c) ∷ rest

-- The calls with another state of the call `c`.
unfoldable pub update : ℕ → Call → (ℕ → Call) → ℕ → Call
update c call calls i = if i == c then call else calls i

-- `recv`, up to its `select`.
unfoldable pub register : ℕ → Table → Table
register rid t = record t {
  recvs = (rid, t.made) ∷ remove rid t.recvs;
  calls = update t.made (record no_call { request_id = rid; waiting = true }) t.calls;
  made = t.made + 1;
}

-- `close(ch)` of a closed channel is a panic.
unfoldable pub close_channel : ℕ → Table → Table
close_channel c t =
    if (t.calls c).closed
    then record t { panicked = true }
    else record t { calls = update c (record (t.calls c) { closed = true }) t.calls }

-- `recv`, from the value of its `select` on: the deferred function runs.
unfoldable pub leave : ℕ → Option Packet → Table → Table
leave c answer t =
    let call = t.calls c in
    close_channel c (record t {
      recvs = remove call.request_id t.recvs;
      calls = update c (record call { reply = none; waiting = false; answer = answer }) t.calls;
    })

-- The send of `handleResponse`, under its `default`, to a channel that holds a packet or none.
unfoldable pub fill_channel : ℕ → Packet → Table → Option Packet → Table
fill_channel c p t none = record t {
  calls = update c (record (t.calls c) { reply = some p }) t.calls;
}
fill_channel c p t (some q) = t

unfoldable pub send : ℕ → Packet → Table → Table
send c p t =
    let call = t.calls c in
    let filled = fill_channel c p t call.reply in
    if call.closed then record t { panicked = true } else filled

-- `handleResponse`, after its look into `recvs`.
unfoldable pub respond : Packet → Table → Option ℕ → Table
respond p t none = t
respond p t (some c) = send c p t

unfoldable pub handle_response : Packet → Table → Table
handle_response p t = respond p t (find p.metadata.request_id t.recvs)

unfoldable pub close_each : List (ℕ × ℕ) → Table → Table
close_each [] t = t
close_each ((j, c) ∷ es) t = close_each es (close_channel c t)

-- The part of `reconnect` under the lock of `recvs`.
unfoldable pub drop_receivers : Table → Table
drop_receivers t = record (close_each t.recvs t) { recvs = [] }

-- A `recv` takes the packet in its channel, the nil of a closed channel, or the end of its time. The
-- calls of `Do` that wait hold the client's lock for reading, so `reconnecting` sets and clears its
-- mark only while none waits; between the two it holds no lock, and calls begin.
pub data Step (t : Table) : Table → Type 0 where
  begins : (rid : ℕ) → Step t (register rid t)
  responds : (p : Packet) → Step t (handle_response p t)
  answers :
      (c : ℕ) (p : Packet)
      → (t.calls c).waiting ≡ true
      → (t.calls c).reply ≡ some p
      → Step t (leave c (some p) t)
  finds_closed :
      (c : ℕ)
      → (t.calls c).waiting ≡ true
      → (t.calls c).reply ≡ none
      → (t.calls c).closed ≡ true
      → Step t (leave c none t)
  times_out : (c : ℕ) → (t.calls c).waiting ≡ true → Step t (leave c none t)
  starts_reconnecting :
      ((c : ℕ) → (t.calls c).waiting ≡ false)
      → t.reconnecting ≡ false
      → Step t (record t { reconnecting = true })
  reconnects : t.reconnecting ≡ true → Step t (drop_receivers t)
  ends_reconnecting :
      ((c : ℕ) → (t.calls c).waiting ≡ false)
      → t.reconnecting ≡ true
      → Step t (record t { reconnecting = false })

pub data Reach : Table → Type 0 where
  made_new : Reach new_table
  later : {t t' : Table} → Reach t → Step t t' → Reach t'

-- Steps one after the other.
pub data Steps : Table → Table → Type 0 where
  still : {t : Table} → Steps t t
  step : {t t' t'' : Table} → Step t t' → Steps t' t'' → Steps t t''
