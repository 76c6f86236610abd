-- ===== src/Client/Options.antt =====
-- go/client/options.go: the settings of a connection and of a request, and the options that change
-- them. `Getter` is the type of a caller's `AuthTokenGetter`. A Go `int` or `time.Duration` is a
-- `ℤ` of 64 bits; a duration counts nanoseconds.
pub mod Bounds
use openapi_protocol.Base.{
  ℕ, zero, suc, ◌-◌, ◌*◌, ◌%◌, ◌^◌, ltb, List, [], ◌∷◌, Bool, true, false, if◌then◌else◌, Option,
  none, some, ℤ, pos, negsuc,
}

-- `i > 0`.
unfoldable pub is_positive : ℤ → Bool
is_positive (pos zero) = false
is_positive (pos (suc n)) = true
is_positive (negsuc n) = false

-- The number that 64 bits stand for.
unfoldable pub signed : ℕ → ℤ
signed n = if ltb n (2 ^ 63) then pos n else negsuc (2 ^ 64 - 1 - n)

-- `i << 10`, which wraps around.
unfoldable pub shift_left_10 : ℤ → ℤ
shift_left_10 (pos n) = signed ((n * 1024) % (2 ^ 64))
shift_left_10 (negsuc n) = signed ((2 ^ 64 - (suc n * 1024) % (2 ^ 64)) % (2 ^ 64))

abbrev pub second : ℕ
second = 1000000000

module _ (Getter : Type 0) where
  -- Durations are `timeout`, `auth_timeout`, `keepalive` and `keepalive_timeout`.
  pub record DialOptions : Type 0 where
    pub auth_token_getter : Option Getter
    pub auth_timeout : ℤ
    pub timeout : ℤ
    pub keepalive : ℤ
    pub keepalive_timeout : ℤ
    pub write_queue_size : ℤ
    pub read_queue_size : ℤ
    pub read_buffer_size : ℤ
    pub min_gzip_size : ℤ
    pub max_reconnect : ℤ
    pub proxy_for : List ℕ

  -- An option is any function that changes the settings.
  abbrev pub DialOption : Type 0
  DialOption = DialOptions → DialOptions

  -- The options that the package makes.
  pub data PackageOption : Type 0 where
    set_read_buffer_size : ℤ → PackageOption
    set_read_queue_size : ℤ → PackageOption
    set_write_queue_size : ℤ → PackageOption
    set_timeout : ℤ → PackageOption
    set_keepalive : ℤ → PackageOption
    set_keepalive_timeout : ℤ → PackageOption
    set_auth_timeout : ℤ → PackageOption
    set_min_gzip_size : ℤ → PackageOption
    set_max_reconnect : ℤ → PackageOption
    with_auth_token_getter : Option Getter → PackageOption

module _ {Getter : Type 0} where
  unfoldable pub default_dial_options : DialOptions Getter
  default_dial_options = record {
    auth_token_getter = none;
    auth_timeout = pos (10 * second);
    timeout = pos (5 * second);
    keepalive = pos (60 * second);
    keepalive_timeout = pos (2 * (60 * second));
    write_queue_size = pos 16;
    read_queue_size = pos 16;
    read_buffer_size = pos 4096;
    min_gzip_size = pos 1024;
    max_reconnect = pos 0;
    proxy_for = [];
  }

  unfoldable pub set : PackageOption Getter → DialOption Getter
  set (set_read_buffer_size i) o =
      if is_positive i then record o { read_buffer_size = shift_left_10 i } else o
  set (set_read_queue_size i) o = if is_positive i then record o { read_queue_size = i } else o
  set (set_write_queue_size i) o = if is_positive i then record o { write_queue_size = i } else o
  set (set_timeout d) o = if is_positive d then record o { timeout = d } else o
  set (set_keepalive d) o = if is_positive d then record o { keepalive = d } else o
  set (set_keepalive_timeout d) o = if is_positive d then record o { keepalive_timeout = d } else o
  set (set_auth_timeout d) o = if is_positive d then record o { auth_timeout = d } else o
  set (set_min_gzip_size i) o = if is_positive i then record o { min_gzip_size = i } else o
  set (set_max_reconnect i) o = if is_positive i then record o { max_reconnect = i } else o
  set (with_auth_token_getter f) o = record o { auth_token_getter = f }

  unfoldable pub set_each : List (DialOption Getter) → DialOptions Getter → DialOptions Getter
  set_each [] o = o
  set_each (opt ∷ opts) o = set_each opts (opt o)

  unfoldable pub new_dial_options : List (DialOption Getter) → DialOptions Getter
  new_dial_options opts = set_each opts default_dial_options

-- The functions that the package makes, one for each option.
unfoldable pub made_by_package :
    {Getter : Type 0} → List (PackageOption Getter) → List (DialOption Getter)
made_by_package [] = []
made_by_package (opt ∷ opts) = set opt ∷ made_by_package opts

-- `RequestTimeout`, of which `RequestOptions` has the value.
unfoldable pub request_timeout : ℤ → ℤ → ℤ
request_timeout d timeout = if is_positive d then d else timeout

unfoldable pub request_timeouts : List ℤ → ℤ → ℤ
request_timeouts [] timeout = timeout
request_timeouts (d ∷ ds) timeout = request_timeouts ds (request_timeout d timeout)

unfoldable pub new_request_options : List ℤ → ℤ
new_request_options ds = request_timeouts ds (pos (10 * second))
