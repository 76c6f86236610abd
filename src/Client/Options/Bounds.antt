-- ===== src/Client/Options/Bounds.antt =====
-- What every list of the package's own options leaves true of the settings.
use openapi_protocol.Base.{
  ℤ, pos, negsuc, ℕ, zero, suc, ◌*◌, ◌%◌, ◌^◌, ◌≤◌, ◌<◌, ltb, ◌≡◌, refl, arith, List, [], ◌∷◌, true,
  if◌then◌else◌, Bool-cases, inl, inr,
}
use openapi_protocol.Client.Options.{
  is_positive, signed, shift_left_10, DialOptions, PackageOption, made_by_package,
  set_read_buffer_size, set_read_queue_size, set_write_queue_size, set_timeout, set_keepalive,
  set_keepalive_timeout, set_auth_timeout, set_min_gzip_size, set_max_reconnect,
  with_auth_token_getter, default_dial_options, set, set_each, new_dial_options,
}

pub record IsUsable {Getter : Type 0} (o : DialOptions Getter) : Type 0 where
  pub timeouts : (is_positive o.timeout ≡ true) × (is_positive o.auth_timeout ≡ true)
  pub heartbeat : (is_positive o.keepalive ≡ true) × (is_positive o.keepalive_timeout ≡ true)
  pub queues : (is_positive o.write_queue_size ≡ true) × (is_positive o.read_queue_size ≡ true)
  pub buffer : is_positive o.read_buffer_size ≡ true
  pub gzip : is_positive o.min_gzip_size ≡ true

-- A size in KB whose bytes 63 bits can count.
unfoldable pub AreBytesCounted : {Getter : Type 0} → PackageOption Getter → Type 0
AreBytesCounted (set_read_buffer_size i) = (n : ℕ) → i ≡ pos n → n < 2 ^ 53
AreBytesCounted opt = Unit

unfoldable pub AreAllCounted : {Getter : Type 0} → List (PackageOption Getter) → Type 0
AreAllCounted [] = Unit
AreAllCounted (opt ∷ opts) = AreBytesCounted opt × AreAllCounted opts

is_positive-pos : (n : ℕ) → 1 ≤ n → is_positive (pos n) ≡ true
unfolding is_positive
is_positive-pos zero h = absurd (omega arith)
is_positive-pos (suc n) h = refl

shift_left_10_lem :
    (i : ℤ)
    → is_positive i ≡ true
    → ((n : ℕ) → i ≡ pos n → n < 2 ^ 53)
    → is_positive (shift_left_10 i) ≡ true
unfolding is_positive signed shift_left_10
shift_left_10_lem (pos zero) h lt = cc
shift_left_10_lem (pos (suc n)) h lt =
    let small : suc n < 2 ^ 53 = lt (suc n) refl in
    let kept : (suc n * 1024) % (2 ^ 64) ≡ suc n * 1024 = omega (arith, small) in
    let below : ltb (suc n * 1024) (2 ^ 63) ≡ true = ground (arith, small) in
    rw (kept, below) (is_positive-pos (suc n * 1024) (omega arith))
shift_left_10_lem (negsuc n) h lt = cc

-- A guarded setting is usable when both settings are.
guarded :
    {Getter : Type 0} (i : ℤ) {o o' : DialOptions Getter}
    → (is_positive i ≡ true → IsUsable o')
    → IsUsable o
    → IsUsable (if is_positive i then o' else o)
guarded i h v = elim (Bool-cases (is_positive i)) [ inl e ↦ rw e (h e) | inr e ↦ rw e v ]

set-IsUsable :
    {Getter : Type 0} (opt : PackageOption Getter) (o : DialOptions Getter)
    → AreBytesCounted opt
    → IsUsable o
    → IsUsable (set opt o)
unfolding set AreBytesCounted
set-IsUsable (set_read_buffer_size i) o k v =
    guarded i
      (λ h. record {
        timeouts = v.timeouts;
        heartbeat = v.heartbeat;
        queues = v.queues;
        buffer = shift_left_10_lem i h k;
        gzip = v.gzip;
      })
      v
set-IsUsable (set_read_queue_size i) o k v =
    guarded i
      (λ h. record {
        timeouts = v.timeouts;
        heartbeat = v.heartbeat;
        queues = (v.queues.0, h);
        buffer = v.buffer;
        gzip = v.gzip;
      })
      v
set-IsUsable (set_write_queue_size i) o k v =
    guarded i
      (λ h. record {
        timeouts = v.timeouts;
        heartbeat = v.heartbeat;
        queues = (h, v.queues.1);
        buffer = v.buffer;
        gzip = v.gzip;
      })
      v
set-IsUsable (set_timeout i) o k v =
    guarded i
      (λ h. record {
        timeouts = (h, v.timeouts.1);
        heartbeat = v.heartbeat;
        queues = v.queues;
        buffer = v.buffer;
        gzip = v.gzip;
      })
      v
set-IsUsable (set_keepalive i) o k v =
    guarded i
      (λ h. record {
        timeouts = v.timeouts;
        heartbeat = (h, v.heartbeat.1);
        queues = v.queues;
        buffer = v.buffer;
        gzip = v.gzip;
      })
      v
set-IsUsable (set_keepalive_timeout i) o k v =
    guarded i
      (λ h. record {
        timeouts = v.timeouts;
        heartbeat = (v.heartbeat.0, h);
        queues = v.queues;
        buffer = v.buffer;
        gzip = v.gzip;
      })
      v
set-IsUsable (set_auth_timeout i) o k v =
    guarded i
      (λ h. record {
        timeouts = (v.timeouts.0, h);
        heartbeat = v.heartbeat;
        queues = v.queues;
        buffer = v.buffer;
        gzip = v.gzip;
      })
      v
set-IsUsable (set_min_gzip_size i) o k v =
    guarded i
      (λ h. record {
        timeouts = v.timeouts;
        heartbeat = v.heartbeat;
        queues = v.queues;
        buffer = v.buffer;
        gzip = h;
      })
      v
set-IsUsable (set_max_reconnect i) o k v =
    guarded i
      (λ h. record {
        timeouts = v.timeouts;
        heartbeat = v.heartbeat;
        queues = v.queues;
        buffer = v.buffer;
        gzip = v.gzip;
      })
      v
set-IsUsable (with_auth_token_getter f) o k v = record {
  timeouts = v.timeouts;
  heartbeat = v.heartbeat;
  queues = v.queues;
  buffer = v.buffer;
  gzip = v.gzip;
}

set_each-IsUsable :
    {Getter : Type 0} (opts : List (PackageOption Getter)) (o : DialOptions Getter)
    → AreAllCounted opts
    → IsUsable o
    → IsUsable (set_each (made_by_package opts) o)
unfolding set_each AreAllCounted made_by_package
set_each-IsUsable [] o k v = v
set_each-IsUsable (opt ∷ opts) o k v =
    set_each-IsUsable opts (set opt o) k.1 (set-IsUsable opt o k.0 v)

-- Whatever options of this package a connection is dialled with, the time limits, the times between heartbeats and
-- for their answers, the sizes of the queues and of the reading buffer and the size from which bodies
-- are compressed are above zero, when no reading buffer of 2^53 KB or more is asked for.
pub new_dial_options-IsUsable :
    {Getter : Type 0} (opts : List (PackageOption Getter))
    → AreAllCounted opts
    → IsUsable (new_dial_options (made_by_package opts))
unfolding new_dial_options default_dial_options is_positive
new_dial_options-IsUsable opts k = set_each-IsUsable opts default_dial_options k record {
  timeouts = (refl, refl);
  heartbeat = (refl, refl);
  queues = (refl, refl);
  buffer = refl;
  gzip = refl;
}
