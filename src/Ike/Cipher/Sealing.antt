-- ===== src/Ike/Cipher/Sealing.antt =====
-- What child.rs and message/mod.rs do alike: a plaintext is encrypted behind a head and an IV, which
-- an AEAD authenticates with it, and which else are covered by a checksum at the end.
use openfortivpn_rs.Ike.Cipher.Laws.{
  verify-mac, length-mac, encrypt-Sealed, Sealed, IsCipher, CipherLaws,
}
use openfortivpn_rs.Ike.Cipher.{
  verify, mac, block_len, decrypt, encrypt, icv_len, key_len, is_aead, no_integrity, iv_len,
  mac_len, Integrity, Cipher, Primitives,
}
use openfortivpn_rs.Ike.Result.{◌and_then◌, Result, crypto, Error, err, ok}
use openfortivpn_rs.Prelude.{
  take, if◌then◌else◌, length, arith, Bytes, drop, sym, length-append, append_assoc, ◌^◌, ◌≡◌, ap,
  ◌<◌, inr, [], false, true, take-append, ◌-◌, ◌∙◌, ◌%◌, drop-append, ◌+◌, inl, ℕ, Bool-cases, not,
  ◌++◌, false, true, inr, inl, [],
}

-- The checksum that does not agree.
abbrev pub bad_icv : Error
bad_icv = crypto 6

module _ (lib : Primitives) (cipher : Cipher) (integrity : Integrity) (key mac_key : Bytes) where
  unfoldable pub seal_behind : Bytes → Bytes → Bytes → Result Bytes
  seal_behind head iv plaintext =
      let out = head ++ iv in
      if is_aead cipher
      then (encrypt lib cipher key iv head plaintext and_then λ sealed. ok (out ++ sealed))
      else (encrypt lib cipher key iv [] plaintext and_then λ sealed.
          ok ((out ++ sealed) ++ mac lib integrity mac_key (out ++ sealed)))

  -- The IV is at `iv_at`, and the checksum in the last `tag_len` bytes.
  unfoldable pub open_behind : ℕ → ℕ → Bytes → Result Bytes
  open_behind iv_at tag_len bytes =
      let body_at = iv_at + iv_len cipher in
      let body_end = length bytes - tag_len in
      let iv = take (iv_len cipher) (drop iv_at bytes) in
      if is_aead cipher
      then decrypt lib cipher key iv (take iv_at bytes) (drop body_at bytes)
      else if not (verify lib integrity mac_key (take body_end bytes) (drop body_end bytes))
      then err bad_icv
      else decrypt lib cipher key iv [] (take (body_end - body_at) (drop body_at bytes))

  -- What is sealed behind a head is opened again, and what it adds to the plaintext is known.
  abbrev pub Opens : Bytes → Bytes → Bytes → ℕ → Type 0
  Opens head iv m tag_len =
      (body : Bytes) × (seal_behind head iv m ≡ ok (head ++ body))
      × (open_behind (length head) tag_len (head ++ body) ≡ ok m)
      × (length (head ++ body)
          ≡ length head + (iv_len cipher + (length m + (icv_len cipher + mac_len integrity))))

pub front_split :
    (n : ℕ) (xs ys : Bytes) → length xs ≡ n → (take n (xs ++ ys) ≡ xs) × (drop n (xs ++ ys) ≡ ys)
front_split n xs ys e = (rw (sym e) (take-append xs ys), rw (sym e) (drop-append xs ys))

-- The parts of a packet behind its head.
drop_iv :
    (n : ℕ) (head iv rest : Bytes)
    → length iv ≡ n
    → drop (length head + n) (head ++ (iv ++ rest)) ≡ rest
drop_iv n head iv rest v =
    ap (drop (length head + n)) (sym (append_assoc head iv rest))
    ∙ (front_split (length head + n) (head ++ iv) rest (omega (arith, length-append head iv))).1

take_iv :
    (n : ℕ) (head iv rest : Bytes)
    → length iv ≡ n
    → take n (drop (length head) (head ++ (iv ++ rest))) ≡ iv
take_iv n head iv rest v = ap (take n) (drop-append head (iv ++ rest)) ∙ (front_split n iv rest v).0

length-three : (a b c : Bytes) → length (a ++ (b ++ c)) ≡ length a + (length b + length c)
length-three a b c = omega (arith, length-append a (b ++ c), length-append b c)

module _ (lib : Primitives) (laws : CipherLaws lib) (cipher : Cipher) (integrity : Integrity)
    (key mac_key : Bytes) where
  seal-Opens_aead :
      (head iv m : Bytes) (tag_len : ℕ)
      → integrity ≡ no_integrity
      → length iv ≡ iv_len cipher
      → is_aead cipher ≡ true
      → Sealed lib cipher key iv head m
      → Opens lib cipher integrity key mac_key head iv m tag_len
  unfolding seal_behind open_behind
  seal-Opens_aead head iv m tag_len alone v aead s =
      let sealed = s.0 in
      let no_mac : mac_len integrity ≡ 0 = ap mac_len alone in
      let eight : length iv ≡ 8 = ground (arith, v, aead) in
      let front = take-append head (iv ++ sealed) in
      (
        iv ++ sealed,
        rw (aead, s.1) (ap ok (append_assoc head iv sealed)),
        rw (aead, take_iv 8 head iv sealed eight, front, drop_iv 8 head iv sealed eight) s.3,
        omega (arith, s.2, length-three head iv sealed),
      )

  seal-Opens_cbc :
      (head iv m : Bytes) (tag_len : ℕ)
      → tag_len ≡ mac_len integrity
      → length iv ≡ iv_len cipher
      → is_aead cipher ≡ false
      → Sealed lib cipher key iv [] m
      → Opens lib cipher integrity key mac_key head iv m tag_len
  unfolding seal_behind open_behind
  seal-Opens_cbc head iv m tag_len t v cbc s =
      let sealed = s.0 in
      let sixteen : length iv ≡ 16 = ground (arith, v, cbc) in
      let out = (head ++ iv) ++ sealed in
      let tag = mac lib integrity mac_key out in
      let bytes = head ++ (iv ++ (sealed ++ tag)) in
      let whole : bytes ≡ out ++ tag = simp append_assoc in
      let tagged = length-mac lib laws integrity mac_key out in
      let outer : length out ≡ length head + iv_len cipher + length sealed =
        omega (arith, length-append (head ++ iv) sealed, length-append head iv, v) in
      let size : length bytes ≡ length out + mac_len integrity =
        ap length whole ∙ omega (arith, length-append out tag, tagged) in
      let inner : length out - (length head + 16) ≡ length sealed =
        omega (arith, outer, v, sixteen) in
      let body : length bytes - tag_len ≡ length out = omega (arith, size, t) in
      let before : take (length out) bytes ≡ out =
        ap (take (length out)) whole ∙ take-append out tag in
      let after : drop (length out) bytes ≡ tag =
        ap (drop (length out)) whole ∙ drop-append out tag in
      let part : take (length sealed) (drop (length head + 16) bytes) ≡ sealed =
        ap (take (length sealed)) (drop_iv 16 head iv (sealed ++ tag) sixteen)
        ∙ take-append sealed tag in
      (
        iv ++ (sealed ++ tag),
        rw (cbc, s.1) (ap ok (sym whole)),
        rw
            (
              cbc,
              body,
              before,
              after,
              verify-mac lib integrity mac_key out,
              take_iv 16 head iv (sealed ++ tag) sixteen,
              inner,
              part,
            )
            s.3,
        omega (arith, size, outer, s.2),
      )

  -- With ciphers that behave as documented, a key of the right size, and no integrity algorithm
  -- beside an AEAD.
  pub seal-Opens :
      (head iv m : Bytes) (tag_len : ℕ)
      → IsCipher cipher
      → length key ≡ key_len cipher
      → (is_aead cipher ≡ true → integrity ≡ no_integrity)
      → (is_aead cipher ≡ false → tag_len ≡ mac_len integrity)
      → length iv ≡ iv_len cipher
      → length m % block_len cipher ≡ 0
      → length m < 2 ^ 32
      → Opens lib cipher integrity key mac_key head iv m tag_len
  seal-Opens head iv m tag_len known fits alone tag v aligned short =
      let sealed =
        λ (aad : Bytes). encrypt-Sealed lib laws cipher key iv aad m known fits v aligned short in
      elim (Bool-cases (is_aead cipher)) [
        | inl aead ↦ seal-Opens_aead head iv m tag_len (alone aead) v aead (sealed head)
        | inr cbc ↦ seal-Opens_cbc head iv m tag_len (tag cbc) v cbc (sealed [])
      ]
