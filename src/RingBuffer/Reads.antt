-- ===== src/RingBuffer/Reads.antt =====
-- Reading from a ring buffer whose first bytes are known: the values, and what is left.
use openapi_protocol.Base.{
  ℕ, ◌≤◌, ◌≡◌, ◌∙◌, ap, arith, List, [], ◌∷◌, ◌++◌, length, take, drop, some,
}
use openapi_protocol.Base.Bytes.{uint}
use openapi_protocol.RingBuffer.{RingBuffer}

module _ (rb : RingBuffer) where
  open rb use {
    Buf, contents, peek_uint8, peek_uint16, peek_uint32, peek_uint64, peek, retrieve, read,
    peek_uint8_law, peek_uint16_law, peek_uint32_law, peek_uint64_law, peek_law, retrieve_law,
    read_law,
  }

  pub read_uint8 :
      (b : Buf) (x : ℕ) (xs : List ℕ)
      → contents b ≡ x ∷ xs
      → (peek_uint8 b ≡ x) × (contents (retrieve 1 b) ≡ xs)
  read_uint8 b x xs e = (
    rw e at (peek_uint8_law b (rw e (omega arith))),
    rw e at (retrieve_law 1 b (rw e (omega arith))),
  )

  pub read_uint16 :
      (b : Buf) (x y : ℕ) (xs : List ℕ)
      → contents b ≡ x ∷ y ∷ xs
      → (peek_uint16 b ≡ uint (x ∷ y ∷ [])) × (contents (retrieve 2 b) ≡ xs)
  read_uint16 b x y xs e = (
    rw e at (peek_uint16_law b (rw e (omega arith))),
    rw e at (retrieve_law 2 b (rw e (omega arith))),
  )

  pub read_uint32 :
      (b : Buf) (x y z w : ℕ) (xs : List ℕ)
      → contents b ≡ x ∷ y ∷ z ∷ w ∷ xs
      → (peek_uint32 b ≡ uint (x ∷ y ∷ z ∷ w ∷ [])) × (contents (retrieve 4 b) ≡ xs)
  read_uint32 b x y z w xs e = (
    rw e at (peek_uint32_law b (rw e (omega arith))),
    rw e at (retrieve_law 4 b (rw e (omega arith))),
  )

  pub read_three :
      (b : Buf) (x y z : ℕ) (xs : List ℕ)
      → contents b ≡ x ∷ y ∷ z ∷ xs
      → ((peek 3 b).0 ++ (peek 3 b).1 ≡ x ∷ y ∷ z ∷ []) × (contents (retrieve 3 b) ≡ xs)
  read_three b x y z xs e =
      (rw e at (peek_law 3 b (rw e (omega arith))), rw e at (retrieve_law 3 b (rw e (omega arith))))

  pub read_slice :
      (n : ℕ) (b : Buf) (bytes : List ℕ)
      → contents b ≡ bytes
      → n ≤ length bytes
      → (b' : Buf) × (read n b ≡ some (take n bytes, b')) × (contents b' ≡ drop n bytes)
  read_slice n b bytes held enough =
      let r = read_law n b (rw held enough) in
      (
        r.0,
        r.1 ∙ ap (λ (xs : List ℕ). some (take n xs, r.0)) held,
        r.2 ∙ ap (λ (xs : List ℕ). drop n xs) held,
      )
