-- ===== src/Vici/Client/Framing.antt =====
-- Packets read from a stream that arrives in pieces.
use openfortivpn_rs.Vici.Result.{Result}
use openfortivpn_rs.Vici.Client.{
  broken, Left, chunk, expected, Read, read_packet, parse_with, parse_buffered, prefix_of,
}
use openfortivpn_rs.Vici.Codec.{message_size_max}
use openfortivpn_rs.Vici.Packet.{decode_packet, Packet}
use openfortivpn_rs.Prelude.{
  true, true, length-append, inl, append_assoc, if_elim, inr, ltb, Option, is_empty, false, All,
  List, Bool-cases, false, inr, inl, drop-append, take-append, ◌+◌, ◌<◌, some, none, length-drop,
  sym, some, none, take, length, [], be32, ◌∙◌, ◌++◌, ap, zero, ◌≤◌, done, arith, drop, ℕ, suc,
  refl, from_be32-be32, ◌∷◌, ◌∷◌, Bytes, ◌≡◌, refl, suc, zero, ◌∷◌, [],
}

take-front : (n : ℕ) (xs ys : Bytes) → n ≤ length xs → take n (xs ++ ys) ≡ take n xs
take-front zero xs ys h = refl
take-front (suc n) [] ys h = ground (arith, h)
take-front (suc n) (x ∷ xs) ys h = ap (◌∷◌ x) (take-front n xs ys (omega (arith, h)))

drop-front : (n : ℕ) (xs ys : Bytes) → n ≤ length xs → drop n (xs ++ ys) ≡ drop n xs ++ ys
drop-front zero xs ys h = refl
drop-front (suc n) [] ys h = ground (arith, h)
drop-front (suc n) (x ∷ xs) ys h = drop-front n xs ys (omega (arith, h))

-- A body that can be framed: not empty, within the limit, and a packet.
pub record IsBody (body : Bytes) (packet : Packet) : Type 0 where
  pub nonempty : 1 ≤ length body
  pub within : length body ≤ message_size_max
  pub decoded : decode_packet body ≡ done packet

abbrev pub frame : Bytes → Bytes
frame body = be32 (length body) ++ body

-- The buffer holds a part of a frame and what follows it.
prefix_of-frame :
    (buf more body tail : Bytes)
    → buf ++ more ≡ frame body ++ tail
    → 4 ≤ length buf
    → length body ≤ message_size_max
    → (prefix_of buf ≡ length body) × (drop 4 buf ++ more ≡ body ++ tail)
prefix_of-frame [] more body tail e h l = ground (arith, h)
prefix_of-frame (a ∷ []) more body tail e h l = ground (arith, h)
prefix_of-frame (a ∷ b ∷ []) more body tail e h l = ground (arith, h)
prefix_of-frame (a ∷ b ∷ c ∷ []) more body tail e h l = ground (arith, h)
prefix_of-frame (a ∷ b ∷ c ∷ d ∷ buf) more body tail e h l = (
  ap (λ bytes. prefix_of bytes) e ∙ from_be32-be32 (length body) (omega (arith, l)),
  ap (drop 4) e,
)

drop-nil : (n : ℕ) → drop {A = ℕ} n [] ≡ []
drop-nil zero = refl
drop-nil (suc n) = refl

drop-plus : (n m : ℕ) (xs : Bytes) → drop (n + m) xs ≡ drop m (drop n xs)
drop-plus zero m xs = let e : zero + m ≡ m = omega arith in ap (λ k. drop k xs) e
drop-plus (suc n) m [] = drop-nil (suc n + m) ∙ sym (drop-nil m)
drop-plus (suc n) m (x ∷ xs) =
    let e : suc n + m ≡ suc (n + m) = omega arith in ap (λ k. drop k (x ∷ xs)) e ∙ drop-plus n m xs

parse_with_part :
    (buf : Bytes) (len : ℕ)
    → 1 ≤ len
    → len ≤ message_size_max
    → length buf < 4 + len
    → parse_with buf len ≡ done none
unfolding parse_with
parse_with_part buf len n w short = ground arith

parse_with_whole :
    (buf : Bytes) (len : ℕ) (packet : Packet)
    → 1 ≤ len
    → len ≤ message_size_max
    → 4 + len ≤ length buf
    → decode_packet (take len (drop 4 buf)) ≡ done packet
    → parse_with buf len ≡ done (some (packet, drop (4 + len) buf))
unfolding parse_with
parse_with_whole buf len packet n w long d = ground (arith, d)

-- A buffer that holds the first bytes of a frame and what follows it.
module _ (buf more body tail : Bytes) (packet : Packet) (good : IsBody body packet)
    (e : buf ++ more ≡ frame body ++ tail) where
  parse_part : length buf < 4 + length body → parse_buffered buf ≡ done none
  unfolding parse_buffered
  parse_part short =
      if_elim {A = Result (Option (Packet × Bytes))} (λ r. r ≡ done none) (ltb (length buf) 4) _ _
        (λ _. refl)
        (λ four.
          let s = prefix_of-frame buf more body tail e (ground (arith, four)) good.within in
          ap (parse_with buf) s.0
          ∙ parse_with_part buf (length body) good.nonempty good.within short)

  parse_whole :
      4 + length body ≤ length buf
      → (rest : Bytes) × (parse_buffered buf ≡ done (some (packet, rest))) × (rest ++ more ≡ tail)
  unfolding parse_buffered
  parse_whole long =
      let s = prefix_of-frame buf more body tail e (omega (arith, long)) good.within in
      let n = length body in
      let fits : n ≤ length (drop 4 buf) = omega (arith, long, length-drop 4 buf) in
      let taken : take n (drop 4 buf) ≡ body =
        sym (take-front n (drop 4 buf) more fits) ∙ ap (take n) s.1 ∙ take-append body tail in
      let left : drop (4 + n) buf ++ more ≡ tail =
        ap (λ rest. rest ++ more) (drop-plus 4 n buf)
        ∙ sym (drop-front n (drop 4 buf) more fits)
        ∙ ap (drop n) s.1
        ∙ drop-append body tail in
      let four : ltb (length buf) 4 ≡ false = ground (arith, long) in
      let parsed =
        parse_with_whole buf n packet good.nonempty good.within long
          (ap decode_packet taken ∙ good.decoded) in
      (drop (4 + n) buf, rw four (ap (parse_with buf) s.0 ∙ parsed), left)

-- Every read gives bytes.
abbrev pub IsChunk : Read → Type 0
IsChunk (chunk bytes) = 1 ≤ length bytes
IsChunk broken = true ≡ false

is_empty_not : (bytes : Bytes) → 1 ≤ length bytes → is_empty bytes ≡ false
is_empty_not [] h = ground (arith, h)
is_empty_not (b ∷ bytes) h = refl

-- A frame that is still to come, in whatever pieces, is read, and what follows it stays.
pub read_packet-frame :
    (reads : List Read) (buf body tail : Bytes) (packet : Packet)
    → All IsChunk reads
    → IsBody body packet
    → buf ++ expected reads ≡ frame body ++ tail
    → (left : Left) × (read_packet reads buf ≡ (left, done packet))
      × (left.0 ++ expected left.1 ≡ tail)
      × All IsChunk left.1
unfolding read_packet
read_packet-frame [] buf body tail packet c good e =
    let size = length-append (frame body) tail in
    let all = length-append buf [] in
    let sizes = ap length e in
    let p = parse_whole buf [] body tail packet good e (omega (arith, size, all, sizes)) in
    ((p.0, []), rw p.1 refl, p.2, tt)
read_packet-frame (broken ∷ reads) buf body tail packet c good e = ground (arith, c.0)
read_packet-frame (chunk bytes ∷ reads) buf body tail packet c good e =
    elim (Bool-cases (ltb (length buf) (4 + length body)))
      as (λ _.
        (left : Left) × (read_packet (chunk bytes ∷ reads) buf ≡ (left, done packet))
        × (left.0 ++ expected left.1 ≡ tail)
        × All IsChunk left.1) [
          | inl short ↦
              let p =
                parse_part buf (bytes ++ expected reads) body tail packet good e
                  (ground (arith, short)) in
              let later =
                read_packet-frame reads (buf ++ bytes) body tail packet c.1 good
                  (append_assoc buf bytes (expected reads) ∙ e) in
              let some_bytes : is_empty bytes ≡ false = is_empty_not bytes c.0 in
              (later.0, rw (p, some_bytes) later.1, later.2, later.3)
          | inr long ↦
              let p =
                parse_whole buf (bytes ++ expected reads) body tail packet good e
                  (ground (arith, long)) in
              ((p.0, chunk bytes ∷ reads), rw p.1 refl, p.2, c)
        ]
