-- ===== src/Ike/Replay.antt =====
-- crates/ikev2/src/child.rs: `Replay`, the anti-replay window of ESP. The window, a u64, is the list
-- of its 64 bits, bit 0 first.
pub mod Bits
pub mod Window
pub mod Once
pub mod Again
mod Tests
use openfortivpn_rs.Prelude.{
  take, length, if◌then◌else◌, suc, false, true, ◌++◌, ◌-◌, ltb, ◌==◌, get_or, [], List, ℕ, Bool,
  leb, ◌∷◌, zero, false, true, suc, zero, ◌∷◌, [],
}

abbrev pub replay_window : ℕ
replay_window = 64

-- A word of `n` bits, all of them clear.
abbrev pub clear_bits : ℕ → List Bool
clear_bits zero = []
clear_bits (suc n) = false ∷ clear_bits n

abbrev pub bit : List Bool → ℕ → Bool
bit window n = get_or window n false

-- `window << shift`: what goes past the last bit is lost.
unfoldable pub shift_left : List Bool → ℕ → List Bool
shift_left window shift = take (length window) (clear_bits shift ++ window)

-- `window |= 1 << n`
unfoldable pub set_bit : List Bool → ℕ → List Bool
set_bit [] n = []
set_bit (b ∷ window) zero = true ∷ window
set_bit (b ∷ window) (suc n) = b ∷ set_bit window n

pub record Replay : Type 0 where
  pub highest : ℕ
  pub window : List Bool

-- `Replay::default()`
abbrev pub fresh : Replay
fresh = record { highest = 0; window = clear_bits 64 }

-- `Replay::accept`
unfoldable pub accept : Replay → ℕ → Replay × Bool
unfolding shift_left set_bit
accept self seq =
    if seq == 0
    then (self, false)
    else if ltb self.highest seq
    then (let shift = seq - self.highest in
        let moved =
          if leb replay_window shift then clear_bits 64 else shift_left self.window shift in
        (record { highest = seq; window = set_bit moved 0 }, true))
    else (let behind = self.highest - seq in
        if leb replay_window behind
        then (self, false)
        else if bit self.window behind
        then (self, false)
        else (record self { window = set_bit self.window behind }, true))
