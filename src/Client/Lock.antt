-- ===== src/Client/Lock.antt =====
-- go/client/client.go: the read-write lock of the client, and the guard of `reconnecting`. A goroutine
-- is the code that it has yet to run, as far as the lock, the connection and the guard go. The code
-- between a `Lock` and its `Unlock` is one step, since the lock keeps all others out; a call of `Lock`
-- that waits keeps new readers out, as `sync.RWMutex` documents. There is a connection. In the
-- goroutine that reconnects, `closes_old` is the close of the old connection, whose own call of
-- `reconnecting` finds the guard set and returns, and `dials` is `dial`; that these two wait for the
-- lock is not recorded.
pub mod Guard
pub mod Deadlock
use openapi_protocol.Base.{ℕ, ◌≡◌, List, [], ◌∷◌, ◌++◌, Bool, true, false, ◌==◌, if◌then◌else◌}

-- `reconnecting` is a call of this function; then `locking` waits for its first `Lock`, `connecting`
-- for the goroutine that reconnects, and `ending` for the second `Lock`. `waits` waits for anything
-- else. `close_conn` is `c.conn.Close`, `close_client` is `close(c.closeCh)`.
pub data Code : Type 0 where
  finished : Code
  r_lock r_unlock reconnecting locking connecting ending : Code → Code
  waits close_conn close_client : Code → Code

-- `readers` holds a goroutine once for each read lock that it has, `pending` the goroutines whose call
-- of `Lock` waits, and `do_reconnecting` is the guard.
pub record Client : Type 0 where
  pub readers : List ℕ
  pub pending : List ℕ
  pub do_reconnecting : Bool
  pub conn_closed : Bool
  pub client_closed : Bool
  pub code : ℕ → Code

-- `Do`, which holds the read lock until its response is there or its time is over.
abbrev pub do_code : Code
do_code = r_lock (waits (r_unlock finished))

abbrev pub close_by_server : Code
close_by_server = r_lock (close_conn (r_unlock (reconnecting finished)))

-- `Close`
abbrev pub close_code : Code
close_code = close_client (r_lock (close_conn (r_unlock finished)))

-- `ping` in `keepalive`, and what follows its error.
abbrev pub ping : Code
ping = r_lock (r_unlock finished)

abbrev pub ping_fails : Code
ping_fails = r_lock (r_unlock (reconnecting finished))

-- `Close` of a connection by its reader or its writer.
abbrev pub conn_lost : Code
conn_lost = close_conn finished

-- What a goroutine begins to run.
pub data Begins : Code → Type 0 where
  does : Begins do_code
  server_closes : Begins close_by_server
  closes : Begins close_code
  pings : Begins ping
  misses : Begins ping_fails
  loses : Begins conn_lost
  check_fails : Begins (reconnecting finished)

unfoldable pub new_client : Client
new_client = record {
  readers = [];
  pending = [];
  do_reconnecting = false;
  conn_closed = false;
  client_closed = false;
  code = λ i. finished;
}

unfoldable pub update : ℕ → Code → (ℕ → Code) → ℕ → Code
update i k code j = if j == i then k else code j

-- One occurrence of `i` less.
unfoldable pub drop_one : ℕ → List ℕ → List ℕ
drop_one i [] = []
drop_one i (j ∷ js) = let rest = drop_one i js in if j == i then js else j ∷ rest

unfoldable pub goes_on : ℕ → Code → Client → Client
goes_on i k c = record c { code = update i k c.code }

-- `DispatchClose` of a connection that was open: `onConnClose`.
unfoldable pub on_conn_close : Bool → Code → Code
on_conn_close client_closed k = if client_closed then k else reconnecting k

-- The test of the guard under the lock.
unfoldable pub enter : ℕ → Code → Client → Client
enter i k c =
    if c.do_reconnecting
    then record c { pending = drop_one i c.pending; code = update i k c.code }
    else record c {
      pending = drop_one i c.pending;
      do_reconnecting = true;
      code = update i (connecting k) c.code;
    }

pub data Step (c : Client) : Client → Type 0 where
  begins : (i : ℕ) (k : Code) → c.code i ≡ finished → Begins k → Step c (goes_on i k c)
  r_locks :
      (i : ℕ) (k : Code)
      → c.code i ≡ r_lock k
      → c.pending ≡ []
      → Step c (record c { readers = i ∷ c.readers; code = update i k c.code })
  r_unlocks :
      (i : ℕ) (k : Code)
      → c.code i ≡ r_unlock k
      → Step c (record c { readers = drop_one i c.readers; code = update i k c.code })
  wait_ends : (i : ℕ) (k : Code) → c.code i ≡ waits k → Step c (goes_on i k c)
  client_closes :
      (i : ℕ) (k : Code)
      → c.code i ≡ close_client k
      → Step c (record c { client_closed = true; code = update i k c.code })
  conn_closes :
      (i : ℕ) (k : Code)
      → c.code i ≡ close_conn k
      → c.conn_closed ≡ false
      → Step c (record c {
        conn_closed = true;
        code = update i (on_conn_close c.client_closed k) c.code;
      })
  conn_was_closed :
      (i : ℕ) (k : Code) → c.code i ≡ close_conn k → c.conn_closed ≡ true → Step c (goes_on i k c)
  asks :
      (i : ℕ) (k : Code)
      → c.code i ≡ reconnecting k
      → Step c (record c { pending = c.pending ++ (i ∷ []); code = update i (locking k) c.code })
  enters : (i : ℕ) (k : Code) → c.code i ≡ locking k → c.readers ≡ [] → Step c (enter i k c)
  closes_old :
      (i : ℕ) (k : Code)
      → c.code i ≡ connecting k
      → c.conn_closed ≡ false
      → Step c (record c { conn_closed = true })
  dials :
      (i : ℕ) (k : Code)
      → c.code i ≡ connecting k
      → c.readers ≡ []
      → Step c (record c { conn_closed = false })
  asks_again :
      (i : ℕ) (k : Code)
      → c.code i ≡ connecting k
      → Step c (record c { pending = c.pending ++ (i ∷ []); code = update i (ending k) c.code })
  ends :
      (i : ℕ) (k : Code)
      → c.code i ≡ ending k
      → c.readers ≡ []
      → Step c (record c {
        pending = drop_one i c.pending;
        do_reconnecting = false;
        code = update i k c.code;
      })

pub data Steps (c : Client) : Client → Type 0 where
  same : Steps c c
  then_step : {c' c'' : Client} → Steps c c' → Step c' c'' → Steps c c''
