-- ===== src/RingBuffer.antt =====
-- The ring buffer of `github.com/Allenxuxu/ringbuffer`, which the program only calls: the methods
-- that it uses and what it relies on, over the bytes that a buffer holds, oldest first.
pub mod Queue
pub mod Reads
pub mod Pair
use openapi_protocol.Base.{ℕ, ◌≤◌, ◌≡◌, List, ◌++◌, Option, some, length, take, drop, get_or}
use openapi_protocol.Base.Bytes.{uint}

-- The methods are `Length`, `PeekUint8` to `PeekUint64`, `Peek`, `Retrieve` and `Read`; `read n`
-- is `Read` into a slice of `n` bytes, `none` where it returns an error. Each law is about a
-- buffer that holds the bytes asked for.
pub record RingBuffer : Type 1 where
  pub Buf : Type 0
  pub contents : Buf → List ℕ
  pub buf_length : Buf → ℕ
  pub peek_uint8 : Buf → ℕ
  pub peek_uint16 : Buf → ℕ
  pub peek_uint32 : Buf → ℕ
  pub peek_uint64 : Buf → ℕ
  pub peek : ℕ → Buf → List ℕ × List ℕ
  pub retrieve : ℕ → Buf → Buf
  pub read : ℕ → Buf → Option (List ℕ × Buf)
  pub length_law : (b : Buf) → buf_length b ≡ length (contents b)
  pub peek_uint8_law : (b : Buf) → 1 ≤ length (contents b) → peek_uint8 b ≡ get_or (contents b) 0 0
  pub peek_uint16_law :
      (b : Buf) → 2 ≤ length (contents b) → peek_uint16 b ≡ uint (take 2 (contents b))
  pub peek_uint32_law :
      (b : Buf) → 4 ≤ length (contents b) → peek_uint32 b ≡ uint (take 4 (contents b))
  pub peek_uint64_law :
      (b : Buf) → 8 ≤ length (contents b) → peek_uint64 b ≡ uint (take 8 (contents b))
  pub peek_law :
      (n : ℕ) (b : Buf)
      → n ≤ length (contents b)
      → (peek n b).0 ++ (peek n b).1 ≡ take n (contents b)
  pub retrieve_law :
      (n : ℕ) (b : Buf) → n ≤ length (contents b) → contents (retrieve n b) ≡ drop n (contents b)
  pub read_law :
      (n : ℕ) (b : Buf)
      → n ≤ length (contents b)
      → (b' : Buf) × (read n b ≡ some (take n (contents b), b'))
        × (contents b' ≡ drop n (contents b))
