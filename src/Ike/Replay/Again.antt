-- ===== src/Ike/Replay/Again.antt =====
-- The window of child.rs asked for a number that it just let through.
use openfortivpn_rs.Prelude.{
  if◌then◌else◌, length, ◌-◌, ◌<◌, ◌≡◌, arith, ◌≤◌, if_elim, true, ℕ, ◌==◌, leb, Bool, ltb, false,
  false, true,
}
use openfortivpn_rs.Ike.Replay.{Replay, replay_window, clear_bits, bit, shift_left, accept}
use openfortivpn_rs.Ike.Replay.Bits.{length-shift_left, bit-set_bit}

-- The number is in the window, and its bit is set.
abbrev IsMarked : Replay → ℕ → Type 0
IsMarked r seq =
    (seq ≤ r.highest) × (r.highest - seq < replay_window) × (bit r.window (r.highest - seq) ≡ true)

IsMarked-refused : (r : Replay) (seq : ℕ) → IsMarked r seq → (accept r seq).1 ≡ false
unfolding accept
IsMarked-refused r seq m = ground (arith, m.0, m.1, m.2)

accept-IsMarked :
    (r : Replay) (seq : ℕ)
    → length r.window ≡ replay_window
    → (accept r seq).1 ≡ true
    → IsMarked (accept r seq).0 seq
unfolding accept
accept-IsMarked r seq size =
    let P = λ (s : Replay × Bool). (s.1 ≡ true → IsMarked s.0 seq) in
    let shift = seq - r.highest in
    let moved = if leb replay_window shift then clear_bits 64 else shift_left r.window shift in
    let long : 0 < length moved = ground (arith, length-shift_left r.window shift) in
    let behind = r.highest - seq in
    if_elim P (seq == 0) _ _ (λ _ e. cc e)
      λ _.
        if_elim P (ltb r.highest seq) _ _
          (λ ahead e.
            (omega arith, omega arith, ground (arith, bit-set_bit moved 0 (seq - seq) long)))
          (λ not_ahead.
            if_elim P (leb replay_window behind) _ _ (λ _ e. cc e)
              λ near.
                if_elim P (bit r.window behind) _ _ (λ _ e. cc e)
                  λ _ e. (
                    ground arith,
                    ground arith,
                    ground (arith, bit-set_bit r.window behind behind),
                  ))

pub accept_again :
    (r : Replay) (seq : ℕ)
    → length r.window ≡ replay_window
    → (accept r seq).1 ≡ true
    → (accept (accept r seq).0 seq).1 ≡ false
accept_again r seq size e = IsMarked-refused (accept r seq).0 seq (accept-IsMarked r seq size e)
