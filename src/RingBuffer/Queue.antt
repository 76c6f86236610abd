-- ===== src/RingBuffer/Queue.antt =====
-- A list of bytes meets the laws of the ring buffer: a buffer for runs and concrete instances.
use openapi_protocol.Base.{
  ℕ, zero, suc, ◌≤◌, ◌≡◌, refl, arith, List, [], ◌∷◌, append-nil, Option, none, some, length, take,
  drop, get_or,
}
use openapi_protocol.Base.Bytes.{uint}
use openapi_protocol.RingBuffer.{RingBuffer}

-- Asking for no byte succeeds; an empty buffer is an error.
pub read : ℕ → List ℕ → Option (List ℕ × List ℕ)
read zero xs = some ([], xs)
read (suc n) [] = none
read (suc n) (x ∷ xs) = some (take (suc n) (x ∷ xs), drop (suc n) (x ∷ xs))

pub read_lem :
    (n : ℕ) (b : List ℕ)
    → n ≤ length b
    → (b' : List ℕ) × (read n b ≡ some (take n b, b')) × (b' ≡ drop n b)
unfolding read
read_lem zero b h = (b, refl, refl)
read_lem (suc n) [] h = absurd (omega arith)
read_lem (suc n) (x ∷ xs) h = (drop n xs, refl, refl)

abbrev pub queue : RingBuffer
queue = record {
  Buf = List ℕ;
  contents = λ b. b;
  buf_length = λ b. length b;
  peek_uint8 = λ b. get_or b 0 0;
  peek_uint16 = λ b. uint (take 2 b);
  peek_uint32 = λ b. uint (take 4 b);
  peek_uint64 = λ b. uint (take 8 b);
  peek = λ n b. (take n b, []);
  retrieve = λ n b. drop n b;
  read = read;
  length_law = λ b. refl;
  peek_uint8_law = λ b h. refl;
  peek_uint16_law = λ b h. refl;
  peek_uint32_law = λ b h. refl;
  peek_uint64_law = λ b h. refl;
  peek_law = λ n b h. append-nil (take n b);
  retrieve_law = λ n b h. refl;
  read_law = read_lem;
}
