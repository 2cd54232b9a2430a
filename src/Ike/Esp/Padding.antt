-- ===== src/Ike/Esp/Padding.antt =====
-- The padding of ESP packets of child.rs, put on and taken off.
use openfortivpn_rs.Ike.Result.{ok}
use openfortivpn_rs.Prelude.{
  ◌<◌, length, ◌-◌, some, take-append, ◌+◌, ◌%◌, ◌++◌, Bytes, append_assoc, refl, arith, zero, ◌≡◌,
  ℕ, ◌∷◌, ap, length-append, suc, [], some, refl, suc, zero, ◌∷◌, [],
}
use openfortivpn_rs.Ike.Cipher.{Cipher, aes_cbc, aes_gcm16, chacha20_poly1305, block_len}
use openfortivpn_rs.Ike.Esp.{ChildSa, padding, pad_len, padded, split_last, unpad}

pub split_last-append : (xs : Bytes) (b : ℕ) → split_last (xs ++ b ∷ []) ≡ some (b, xs)
split_last-append [] b = refl
split_last-append (x ∷ []) b = refl
split_last-append (x ∷ y ∷ xs) b = rw (split_last-append (y ∷ xs) b) refl

length-padding : (first n : ℕ) → length (padding first n) ≡ n
length-padding first zero = refl
length-padding first (suc n) = ap suc (length-padding (first + 1) n)

-- What takes the padding off takes off what was put on.
pub unpad-padded :
    (sa : ChildSa) (cipher : Cipher) (packet : Bytes)
    → (unpad sa (split_last (padded cipher packet))).1 ≡ ok (some packet)
unfolding padded
unpad-padded sa cipher packet =
    let count = pad_len cipher packet in
    let body = packet ++ padding 1 count in
    let size = length-append packet (padding 1 count) in
    let pads = length-padding 1 count in
    let shape : packet ++ (padding 1 count ++ count ∷ 4 ∷ []) ≡ (body ++ count ∷ []) ++ 4 ∷ [] =
      simp append_assoc in
    let left : length body - count ≡ length packet = omega arith in
    rw (shape, split_last-append (body ++ count ∷ []) 4, split_last-append body count)
      (rw (left, take-append packet (padding 1 count)) (ground arith))

pub length-padded :
    (cipher : Cipher) (packet : Bytes)
    → length (padded cipher packet) ≡ length packet + pad_len cipher packet + 2
unfolding padded
length-padded cipher packet =
    let count = pad_len cipher packet in
    omega (
      arith,
      length-append (padding 1 count) (count ∷ 4 ∷ []),
      length-padding 1 count,
      length-append packet (padding 1 count ++ count ∷ 4 ∷ []),
    )

pub padded_aligned :
    (cipher : Cipher) (packet : Bytes) → length (padded cipher packet) % block_len cipher ≡ 0
padded_aligned (aes_cbc bits) packet =
    unfold pad_len in omega (arith, length-padded (aes_cbc bits) packet)
padded_aligned (aes_gcm16 bits) packet = omega arith
padded_aligned chacha20_poly1305 packet = omega arith

pub pad_len_small : (cipher : Cipher) (packet : Bytes) → pad_len cipher packet < 16
unfolding pad_len
pad_len_small (aes_cbc bits) packet = omega arith
pad_len_small (aes_gcm16 bits) packet = omega arith
pad_len_small chacha20_poly1305 packet = omega arith
