-- ===== src/Ike/Encrypted/Chunks.antt =====
-- The chunks of a chain, and the fragments that are sealed from them.
use openfortivpn_rs.Ike.Cipher.Laws.{CipherLaws}
use openfortivpn_rs.Ike.Encrypted.Datagram.{seal_message-Carries, HasIds, AreKeys, Carries}
use openfortivpn_rs.Ike.Encrypted.{seal_fragments, Keys, chunks_from}
use openfortivpn_rs.Ike.Packet.{Message}
use openfortivpn_rs.Ike.Payload.{none_kind}
use openfortivpn_rs.Ike.Reassembler.Numbering.{joined}
use openfortivpn_rs.Ike.Cipher.{Primitives}
use openfortivpn_rs.Ike.Result.{ok}
use openfortivpn_rs.Prelude.{
  subst, take, if◌then◌else◌, length, sym, ◌∷◌, ◌∙◌, append_assoc, refl, ◌-◌, ◌+◌, arith, ℕ, ◌≤◌,
  ◌^◌, get_or, List, zero, get_or-append, ◌≡◌, length-take, length-append, take-append-drop,
  length-drop, ◌<◌, [], Bytes, suc, ◌==◌, some, ◌++◌, ap, drop, All, some, refl, suc, zero, ◌∷◌, [],
}

abbrev pub concat : List Bytes → Bytes
concat [] = []
concat (piece ∷ pieces) = piece ++ concat pieces

abbrev pub IsPiece : ℕ → Bytes → Type 0
IsPiece len piece = length piece ≤ len

-- The chunks are the chain again, and none is longer than was asked for.
pub concat-chunks_from :
    (fuel len : ℕ) (chain : Bytes)
    → 0 < len
    → length chain ≤ fuel
    → (concat (chunks_from fuel len chain) ≡ chain) × All (IsPiece len) (chunks_from fuel len chain)
concat-chunks_from zero len [] p h = (refl, tt)
concat-chunks_from zero len (b ∷ chain) p h = absurd (omega (arith, h))
concat-chunks_from (suc fuel) len [] p h = (refl, tt)
concat-chunks_from (suc fuel) len (b ∷ chain) p h =
    let left = length-drop len (b ∷ chain) in
    let rest = concat-chunks_from fuel len (drop len (b ∷ chain)) p (omega (arith, left, h, p)) in
    (
      ap (λ others. take len (b ∷ chain) ++ others) rest.0 ∙ take-append-drop len (b ∷ chain),
      (omega (arith, length-take len (b ∷ chain)), rest.1),
    )

-- A piece by its number, which starts at one.
abbrev pub piece_at : List Bytes → ℕ → Bytes
piece_at pieces number = get_or pieces (number - 1) []

joined-pieces :
    (before pieces : List Bytes) (low : ℕ)
    → low ≡ length before + 1
    → joined (piece_at (before ++ pieces)) low (length pieces) ≡ concat pieces
joined-pieces before [] low e = refl
joined-pieces before (piece ∷ pieces) low e =
    let here : low - 1 ≡ length before = omega (arith, e) in
    let at : piece_at (before ++ piece ∷ pieces) low ≡ piece =
      ap (λ i. get_or (before ++ piece ∷ pieces) i []) here
      ∙ get_or-append before piece pieces [] in
    let shape : before ++ piece ∷ pieces ≡ (before ++ piece ∷ []) ++ pieces =
      sym (append_assoc before (piece ∷ []) pieces) in
    let rest =
      joined-pieces (before ++ piece ∷ []) pieces (low + 1)
        (omega (arith, e, length-append before (piece ∷ []))) in
    ap (λ bytes. bytes ++ joined (piece_at (before ++ piece ∷ pieces)) (low + 1) (length pieces)) at
    ∙ ap (λ all. piece ++ joined (piece_at all) (low + 1) (length pieces)) shape
    ∙ ap (λ bytes. piece ++ bytes) rest

pub joined-concat :
    (pieces : List Bytes) → joined (piece_at pieces) 1 (length pieces) ≡ concat pieces
joined-concat pieces = joined-pieces [] pieces 1 (omega arith)

-- The payload type that a fragment says: that of the first payload, in the first fragment.
abbrev pub next_of : ℕ → ℕ → ℕ
next_of first number = if number == 1 then first else none_kind

module _ (lib : Primitives) (randoms : ℕ → Bytes) (self : Message) (keys : Keys)
    (first total : ℕ) where
  abbrev pub CarriesPiece : ℕ → Bytes → Bytes → Type 0
  CarriesPiece number piece bytes =
      Carries lib (randoms number) self keys (next_of first number) piece (some (number, total))
        bytes

  -- Each datagram carries its piece, from a number on.
  abbrev pub AreCarried : ℕ → List Bytes → List Bytes → Type 0
  AreCarried number [] [] = Unit
  AreCarried number [] (d ∷ ds) = ⊥
  AreCarried number (p ∷ ps) [] = ⊥
  AreCarried number (p ∷ ps) (d ∷ ds) = CarriesPiece number p d × AreCarried (number + 1) ps ds

  pub seal_fragments-AreCarried :
      CipherLaws lib
      → AreKeys keys
      → HasIds self
      → ((number : ℕ) → length (randoms number) ≡ 16)
      → total < 2 ^ 16
      → (len number : ℕ) (pieces : List Bytes) → len + 100 < 2 ^ 16
      → number + length pieces ≤ total + 1
      → All (IsPiece len) pieces
      → (datagrams : List Bytes) × (seal_fragments lib randoms self keys first number total pieces
          ≡ ok datagrams)
        × AreCarried number pieces datagrams
        × (length datagrams ≡ length pieces)
  unfolding seal_fragments
  seal_fragments-AreCarried laws k ids r t len number [] l h a = ([], refl, tt, refl)
  seal_fragments-AreCarried laws k ids r t len number (p ∷ ps) l h a =
      let one =
        seal_message-Carries lib laws self keys (randoms number) (next_of first number) p
          (some (number, total)) k ids (r number) (omega (arith, h, t), t)
          (omega (arith, l, a.0)) in
      let rest =
        seal_fragments-AreCarried laws k ids r t len (number + 1) ps l (omega (arith, h)) a.1 in
      (one.0 ∷ rest.0, rw (one.1.0, rest.1) refl, (one.1, rest.2), ap suc rest.3)

  pub carried_at :
      (low i : ℕ) (pieces datagrams : List Bytes)
      → AreCarried low pieces datagrams
      → i < length pieces
      → CarriesPiece (low + i) (get_or pieces i []) (get_or datagrams i [])
  carried_at low i [] ds c h = absurd (omega (arith, h))
  carried_at low i (p ∷ ps) [] c h = elim c [ ]
  carried_at low zero (p ∷ ps) (d ∷ ds) c h =
      let e : low ≡ low + zero = omega arith in subst (λ number. CarriesPiece number p d) e c.0
  carried_at low (suc i) (p ∷ ps) (d ∷ ds) c h =
      let e : low + 1 + i ≡ low + suc i = omega arith in
      subst (λ number. CarriesPiece number (get_or ps i []) (get_or ds i [])) e
        (carried_at (low + 1) i ps ds c.1 (omega (arith, h)))
