-- ===== src/Codec/Uvarint.antt =====
-- The length of a frame and the number of its request, of internal/proto/codec.go, are read back.
use livegit.Prelude.{
  ℕ, zero, suc, ◌+◌, ◌*◌, ◌/◌, ◌%◌, ◌^◌, ◌<◌, true, false, ◌≡◌, ap, inl, inr, arith, some, ◌++◌,
  Bytes, ltb, leb, Bool-cases,
}
use livegit.Codec.{put_uvarint, add_low, read_uvarint, put_uint64, big_endian}

-- What fits in so many bytes and one whose value is at most 1.
abbrev pub capacity : ℕ → ℕ
capacity zero = 2
capacity (suc n) = 128 * capacity n

pub read-put_uvarint :
    (room n : ℕ) (rest : Bytes)
    → n < capacity room
    → read_uvarint (suc room) (put_uvarint (suc room) n ++ rest) ≡ some (n, rest)
unfolding read_uvarint put_uvarint add_low
read-put_uvarint zero n rest h =
    let small : ltb n 128 ≡ true = ground arith in
    let one : ltb 1 n ≡ false = ground arith in rw (small, small, one)
read-put_uvarint (suc room) n rest h = elim (Bool-cases (ltb n 128)) [
  | inl small ↦ let left : leb (suc room) 0 ≡ false = ground arith in rw (small, small, left)
  | inr large ↦
      let high : ltb (n % 128 + 128) 128 ≡ false = ground arith in
      let low : (n % 128 + 128) % 128 ≡ n % 128 = omega arith in
      let next : n / 128 < capacity room = omega (arith, h) in
      rw (large, high, low, read-put_uvarint room (n / 128) rest next)
        (ap (λ (k : ℕ). some (k, rest)) (omega arith))
]

pub big_endian-put_uint64 : (n : ℕ) → n < 2 ^ 64 → big_endian 0 (put_uint64 n) ≡ n
unfolding big_endian put_uint64
big_endian-put_uint64 n h = omega arith
