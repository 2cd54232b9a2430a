-- ===== src/Ike/Esp/Keying.antt =====
-- The two ends that `ChildSa::new` of child.rs makes of the same keying material.
use openfortivpn_rs.Ike.Selector.{TrafficSelector}
use openfortivpn_rs.Ike.Result.{ok}
use openfortivpn_rs.Prelude.{
  take, [], take-append-drop, ◌∙◌, ◌++◌, suc, ◌++◌, ◌∷◌, zero, ap, sym, ◌∷◌, suc, zero, ◌∷◌, [],
  refl, refl, length, length-drop, List, drop, ℕ, ◌+◌, ◌≡◌, ◌==◌, Bytes, ◌≤◌, true, false, ◌*◌,
  arith, length-take, false, true,
}
use openfortivpn_rs.Ike.Cipher.{key_len, integrity_key_len}
use openfortivpn_rs.Ike.Esp.{
  piece, EspAlgorithms, EspKeys, ChildSa, child_of, keymat_len, keys_at, new_child,
}
use openfortivpn_rs.Ike.Esp.RoundTrip.{Paired}

abbrev pub HasSizes : EspAlgorithms → EspKeys → Type 0
HasSizes algorithms keys =
    (length keys.encryption ≡ key_len algorithms.cipher)
    × (length keys.integrity ≡ integrity_key_len algorithms.integrity)

keys_at-HasSizes :
    (algorithms : EspAlgorithms) (keymat : Bytes) (cursor : ℕ)
    → cursor + (key_len algorithms.cipher + integrity_key_len algorithms.integrity) ≤ length keymat
    → HasSizes algorithms (keys_at algorithms keymat cursor)
keys_at-HasSizes algorithms keymat cursor h =
    let e = key_len algorithms.cipher in
    let i = integrity_key_len algorithms.integrity in
    (
      omega (arith, length-take e (drop cursor keymat), length-drop cursor keymat),
      omega (arith, length-take i (drop (cursor + e) keymat), length-drop (cursor + e) keymat),
    )

drop-empty : (n : ℕ) → drop {A = ℕ} n [] ≡ []
drop-empty zero = refl
drop-empty (suc n) = refl

drop-drop : (c a : ℕ) (m : Bytes) → drop (c + a) m ≡ drop a (drop c m)
drop-drop zero a m = let none_more : 0 + a ≡ a = omega arith in ap (λ k. drop k m) none_more
drop-drop (suc c) a [] =
    let next : suc c + a ≡ suc (c + a) = omega arith in rw next (sym (drop-empty a))
drop-drop (suc c) a (b ∷ m) =
    let next : suc c + a ≡ suc (c + a) = omega arith in rw next (drop-drop c a m)

-- Pieces end to end from a cursor on, the last of them beside.
abbrev pub pieces : Bytes → ℕ → List ℕ → ℕ → Bytes
pieces m c [] last = piece m c last
pieces m c (size ∷ sizes) last = piece m c size ++ pieces m (c + size) sizes last

abbrev pub sum : List ℕ → ℕ
sum [] = 0
sum (size ∷ sizes) = size + sum sizes

take_all : (n : ℕ) (m : Bytes) → length m ≡ n → take n m ≡ m
take_all zero [] h = refl
take_all zero (b ∷ m) h = ground (arith, h)
take_all (suc n) [] h = refl
take_all (suc n) (b ∷ m) h = ap (◌∷◌ b) (take_all n m (omega (arith, h)))

pub pieces_whole :
    (m : Bytes) (c : ℕ) (sizes : List ℕ) (last : ℕ)
    → length m ≡ c + (sum sizes + last)
    → pieces m c sizes last ≡ drop c m
pieces_whole m c [] last h = take_all last (drop c m) (omega (arith, length-drop c m, h))
pieces_whole m c (size ∷ sizes) last h =
    ap (◌++◌ (piece m c size)) (pieces_whole m (c + size) sizes last (omega (arith, h)))
    ∙ ap (◌++◌ (piece m c size)) (drop-drop c size m)
    ∙ take-append-drop size (drop c m)

pub length-piece : (m : Bytes) (c size : ℕ) → c + size ≤ length m → length (piece m c size) ≡ size
length-piece m c size h = omega (arith, length-take size (drop c m), length-drop c m)

-- The keys of an SA in the order of RFC 7296, section 2.17, for the end that initiated.
abbrev pub keys_in_order : ChildSa → Bytes
keys_in_order sa =
    sa.outbound.encryption
    ++ (sa.outbound.integrity ++ (sa.inbound.encryption ++ sa.inbound.integrity))

-- From keying material of the right size, the end that initiated and the end that did not are both
-- made with no error; what each sends the other receives, the keys have the sizes that the
-- algorithms take, no sequence number was used, and the initiator's keys end to end are the material.
pub new_child-Paired :
    (algorithms : EspAlgorithms) (x y : ℕ) (keymat : Bytes)
    (ts ts' : List TrafficSelector × List TrafficSelector) (now now' : ℕ)
    → length keymat ≡ keymat_len algorithms
    → (i r : ChildSa) × (new_child algorithms (x, y) keymat true ts now ≡ ok i)
      × (new_child algorithms (y, x) keymat false ts' now' ≡ ok r)
      × Paired i r
      × Paired r i
      × HasSizes algorithms i.outbound
      × HasSizes algorithms r.outbound
      × (i.seq_out ≡ 0)
      × (r.seq_out ≡ 0)
      × (keys_in_order i ≡ keymat)
unfolding new_child keymat_len
new_child-Paired algorithms x y keymat ts ts' now now' h =
    let size = key_len algorithms.cipher + integrity_key_len algorithms.integrity in
    let right : (length keymat == 2 * size) ≡ true = ground (arith, h) in
    let start : 0 + key_len algorithms.cipher ≡ key_len algorithms.cipher = omega arith in
    let first = keys_at-HasSizes algorithms keymat 0 (omega (arith, h)) in
    let second = keys_at-HasSizes algorithms keymat size (omega (arith, h)) in
    (
      child_of algorithms (x, y) keymat true ts now,
      child_of algorithms (y, x) keymat false ts' now',
      rw right refl,
      rw right refl,
      record { same_algorithms = refl; same_keys = refl; same_spi = refl },
      record { same_algorithms = refl; same_keys = refl; same_spi = refl },
      first,
      second,
      refl,
      refl,
      rw start (
          ap (◌++◌ (take (key_len algorithms.cipher) keymat)) (
            pieces_whole keymat (key_len algorithms.cipher)
              (integrity_key_len algorithms.integrity ∷ key_len algorithms.cipher ∷ [])
              (integrity_key_len algorithms.integrity) (omega (arith, h)))
          ∙ take-append-drop (key_len algorithms.cipher) keymat),
    )
