-- ===== src/RingBuffer/Pair.antt =====
-- The two kinds of ring buffer of a TCP connection (`github.com/Allenxuxu/ringbuffer`): its own buffer,
-- which bytes are written to, and a buffer that `NewWithData` makes of one read and that is only read.
use openapi_protocol.Base.{ℕ, ◌≡◌, refl, List, ◌++◌}
use openapi_protocol.RingBuffer.{RingBuffer}
use openapi_protocol.RingBuffer.Queue.{queue}

-- `write` is `Write`, `new_with_data` is `NewWithData`, and `first` is the first of the two slices of
-- `PeekAll`, which on a buffer that is only read holds all bytes.
pub record Pair : Type 1 where
  pub ring : RingBuffer
  pub flat : RingBuffer
  pub write : List ℕ → ring.Buf → ring.Buf
  pub new_with_data : List ℕ → flat.Buf
  pub first : flat.Buf → List ℕ
  pub write_law : (xs : List ℕ) (b : ring.Buf) → ring.contents (write xs b) ≡ ring.contents b ++ xs
  pub new_with_data_law : (xs : List ℕ) → flat.contents (new_with_data xs) ≡ xs
  pub first_law : (b : flat.Buf) → first b ≡ flat.contents b

-- Lists of bytes meet the laws.
abbrev pub queues : Pair
queues = record {
  ring = queue;
  flat = queue;
  write = λ xs b. b ++ xs;
  new_with_data = λ xs. xs;
  first = λ b. b;
  write_law = λ xs b. refl;
  new_with_data_law = λ xs. refl;
  first_law = λ b. refl;
}
