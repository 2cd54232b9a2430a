-- ===== src/Ike/Bytes/Laws.antt =====
-- The cursor of message/bytes.rs on what its appends wrote.
use openfortivpn_rs.Prelude.{
  ℕ, ◌^◌, ◌<◌, ◌≡◌, ◌∷◌, ◌++◌, Bytes, be16, be32, be64, from_be16-be16, from_be32-be32,
  from_be64-be64, length, take-append, drop-append, length-append, length-take, take-append-drop,
  arith,
}
use openfortivpn_rs.Ike.Result.{ok}
use openfortivpn_rs.Ike.Bytes.{len8, take, u8, u16, u32, u64, skip, len16}

pub take_exact : (xs ys : Bytes) → take (length xs) (xs ++ ys) ≡ ok (xs, ys)
unfolding take
take_exact xs ys = simp (take-append, drop-append) (ground (arith, length-append xs ys))

pub take_of_length : (n : ℕ) (xs ys : Bytes) → n ≡ length xs → take n (xs ++ ys) ≡ ok (xs, ys)
take_of_length n xs ys e = rw e (take_exact xs ys)

pub take-eq-ok :
    (n : ℕ) (r : Bytes) {xs ys : Bytes} → take n r ≡ ok (xs, ys) → (r ≡ xs ++ ys) × (length xs ≡ n)
unfolding take
take-eq-ok n r h = ground (arith, take-append-drop n r, length-take n r)

pub u8_put : (b : ℕ) (r : Bytes) → u8 (b ∷ r) ≡ ok (b, r)
unfolding u8
u8_put b r = ground arith

pub u16_put : (n : ℕ) (r : Bytes) → n < 2 ^ 16 → u16 (be16 n ++ r) ≡ ok (n, r)
unfolding u16
u16_put n r h = ground (arith, from_be16-be16 n)

pub u32_put : (n : ℕ) (r : Bytes) → n < 2 ^ 32 → u32 (be32 n ++ r) ≡ ok (n, r)
unfolding u32
u32_put n r h = ground (arith, from_be32-be32 n)

pub u64_put : (n : ℕ) (r : Bytes) → n < 2 ^ 64 → u64 (be64 n ++ r) ≡ ok (n, r)
unfolding u64
u64_put n r h = ground (arith, from_be64-be64 n)

pub skip_one : (b : ℕ) (r : Bytes) → skip 1 (b ∷ r) ≡ ok (tt, r)
unfolding skip
skip_one b r = ground arith

pub skip_two : (a b : ℕ) (r : Bytes) → skip 2 (a ∷ b ∷ r) ≡ ok (tt, r)
unfolding skip
skip_two a b r = ground arith

pub skip_three : (a b c : ℕ) (r : Bytes) → skip 3 (a ∷ b ∷ c ∷ r) ≡ ok (tt, r)
unfolding skip
skip_three a b c r = ground arith

pub len16_fits : (n : ℕ) → n < 2 ^ 16 → len16 n ≡ ok n
unfolding len16
len16_fits n h = ground arith

pub len8_fits : (n : ℕ) → n < 2 ^ 8 → len8 n ≡ ok n
unfolding len8
len8_fits n h = ground arith
