-- ===== src/Ike/Selector/Networks.antt =====
-- The CIDR blocks of `TrafficSelector::networks` of message/payload.rs.
use openfortivpn_rs.Ike.Result.{ok}
use openfortivpn_rs.Prelude.{
  ◌⊎◌, ◌↔◌, pow_two_positive, ◌%◌, inr, lt→ltb, ◌∷◌, ltb, leb, ◌≤◌, suc, [], Bool-cases, ◌≡◌, ◌<◌,
  leb→le, arith, not, ◌+◌, ◌≢◌, ◌^◌, if_elim, ◌∙◌, append_assoc, ◌++◌, zero, ℕ, ap, ◌-◌, ◌==◌,
  append-nil, ◌||◌, refl, List, inl, inr, inl, refl, suc, zero, ◌∷◌, [],
}
use openfortivpn_rs.Ike.Selector.{TrafficSelector, block_prefix, blocks_loop, networks}

-- The block of a prefix is aligned on `start` and does not go past `end`.
abbrev pub Fits : ℕ → ℕ → ℕ → Type 0
Fits start end prefix = (start % 2 ^ (32 - prefix) ≡ 0) × (start + 2 ^ (32 - prefix) ≤ end + 1)

-- The largest block at `start`: it fits, and the block of the next shorter prefix does not.
pub record IsLargest (start end prefix : ℕ) : Type 0 where
  pub in_range : prefix ≤ 32
  pub fits : Fits start end prefix
  pub no_larger : prefix ≢ 0 → ¬ Fits start end (prefix - 1)

block_prefix-IsLargest :
    (start end p : ℕ) → p ≤ 32 → Fits start end p → IsLargest start end (block_prefix start end p)
unfolding block_prefix
block_prefix-IsLargest start end zero h f = record {
  in_range = omega arith;
  fits = f;
  no_larger = λ n. absurd (n refl);
}
block_prefix-IsLargest start end (suc p) h f =
    let same : 33 - suc p ≡ 32 - p = omega arith in
    let pos : 0 < 2 ^ (32 - p) = pow_two_positive (32 - p) in
    rw same (
      if_elim (IsLargest start end)
        (not (start % 2 ^ (32 - p) == 0) || ltb end (start + 2 ^ (32 - p) - 1)) (suc p) _
        (λ e. record { in_range = h; fits = f; no_larger = λ _ g. ground arith })
        (λ e. block_prefix-IsLargest start end p (omega arith) (ground arith)))

-- The blocks lie end to end from `start` to `end`, each the largest there.
abbrev pub Tiles : ℕ → List (ℕ × ℕ) → ℕ → Type 0
Tiles start [] end = start ≡ end + 1
Tiles start (block ∷ blocks) end =
    (block.0 ≡ start) × IsLargest start end block.1 × Tiles (start + 2 ^ (32 - block.1)) blocks end

abbrev pub InSome : List (ℕ × ℕ) → ℕ → Type 0
InSome [] address = ⊥
InSome (block ∷ blocks) address =
    ((block.0 ≤ address) × (address < block.0 + 2 ^ (32 - block.1))) ⊎ InSome blocks address

Tiles-InSome :
    (start : ℕ) (blocks : List (ℕ × ℕ)) (end address : ℕ)
    → Tiles start blocks end
    → start ≤ address
    → address ≤ end
    → InSome blocks address
Tiles-InSome start [] end address t h k = absurd (omega arith)
Tiles-InSome start (block ∷ blocks) end address t h k =
    elim (Bool-cases (ltb address (block.0 + 2 ^ (32 - block.1)))) [
      | inl below ↦ inl (ground arith)
      | inr above ↦
          inr (Tiles-InSome (start + 2 ^ (32 - block.1)) blocks end address t.2 (ground arith) k)
    ]

InSome-bounds :
    (start : ℕ) (blocks : List (ℕ × ℕ)) (end address : ℕ)
    → Tiles start blocks end
    → start ≤ end + 1
    → InSome blocks address
    → (start ≤ address) × (address ≤ end)
InSome-bounds start [] end address t h i = absurd i
InSome-bounds start (block ∷ blocks) end address t h (inl i) =
    let f = t.1.fits.1 in (omega arith, omega arith)
InSome-bounds start (block ∷ blocks) end address t h (inr i) =
    let f = t.1.fits.1 in
    let rest = InSome-bounds (start + 2 ^ (32 - block.1)) blocks end address t.2 (omega arith) i in
    (omega arith, omega arith)

blocks_loop-Tiles :
    (fuel start end : ℕ) (found : List (ℕ × ℕ))
    → start ≤ end + 1
    → end < 2 ^ 32
    → end + 1 - start ≤ fuel
    → (blocks : List (ℕ × ℕ)) × (blocks_loop fuel start end found ≡ ok (found ++ blocks))
      × Tiles start blocks end
unfolding blocks_loop
blocks_loop-Tiles zero start end found h e f = ([], rw append-nil (ground arith), omega arith)
blocks_loop-Tiles (suc fuel) start end found h e f = elim (Bool-cases (leb start end)) [
  | inr over ↦ ([], rw (over, append-nil) refl, ground arith)
  | inl under ↦
      let inside : start ≤ end = leb→le start end under in
      let largest = block_prefix-IsLargest start end 32 (omega arith) (omega arith, omega arith) in
      let prefix = block_prefix start end 32 in
      let pos : 0 < 2 ^ (32 - prefix) = pow_two_positive (32 - prefix) in
      let next =
        blocks_loop-Tiles fuel (start + 2 ^ (32 - prefix)) end (found ++ (start, prefix) ∷ [])
          (omega (arith, largest.fits.1)) e (omega arith) in
      (
        (start, prefix) ∷ next.0,
        rw (under, lt→ltb start (2 ^ 32) (omega arith))
            (next.1 ∙ ap ok (append_assoc found ((start, prefix) ∷ []) next.0)),
        (refl, largest, next.2),
      )
]

-- For a range of 32-bit addresses that is not empty, the loops of `networks` end with no panic, and the blocks lie end to
-- end from the first address of the range to its last, each of them the largest aligned CIDR block
-- that starts there and stays in the range.
pub networks-Tiles :
    (s : TrafficSelector)
    → s.start ≤ s.end
    → s.end < 2 ^ 32
    → (blocks : List (ℕ × ℕ)) × (networks s ≡ ok blocks) × Tiles s.start blocks s.end
unfolding networks
networks-Tiles s h e =
    blocks_loop-Tiles (s.end + 1 - s.start) s.start s.end [] (omega arith) e (omega arith)

-- The blocks that `networks` gives for a range of 32-bit addresses that is not empty hold the addresses of the range and
-- no other address.
pub networks-InSome :
    (s : TrafficSelector)
    → s.start ≤ s.end
    → s.end < 2 ^ 32
    → (blocks : List (ℕ × ℕ)) × (networks s ≡ ok blocks)
      × ((address : ℕ) → InSome blocks address ↔ ((s.start ≤ address) × (address ≤ s.end)))
networks-InSome s h e =
    let tiled = networks-Tiles s h e in
    (
      tiled.0,
      tiled.1,
      λ address. (
        InSome-bounds s.start tiled.0 s.end address tiled.2 (omega arith),
        λ inside. Tiles-InSome s.start tiled.0 s.end address tiled.2 inside.0 inside.1,
      ),
    )
