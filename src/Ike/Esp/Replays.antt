-- ===== src/Ike/Esp/Replays.antt =====
-- An ESP packet of child.rs that comes twice.
use openfortivpn_rs.Ike.Result.{err, replayed, fail, Result, ok}
use openfortivpn_rs.Prelude.{
  ◌==◌, inr, Bool-cases, ◌+◌, ◌∙◌, sym, ap, inl, inr, inl, length, false, some, Bytes, if_elim,
  refl, ltb, true, ◌≡◌, ℕ, none, Option, false, true, some, none, refl,
}
use openfortivpn_rs.Ike.Replay.{replay_window, accept}
use openfortivpn_rs.Ike.Replay.Again.{accept_again}
use openfortivpn_rs.Ike.Esp.{
  ChildSa, opened_with, unpad, unpad_with, split_last, word_at, open_esp, decapsulate,
}
use openfortivpn_rs.Ike.Cipher.{iv_len, icv_len, mac_len, Primitives}

-- What decapsulation leaves as it is, and the window it leaves.
record Keeps (b : ChildSa) (seq : ℕ) (b' : ChildSa) : Type 0 where
  same_algorithms : b'.algorithms ≡ b.algorithms
  same_keys : b'.inbound ≡ b.inbound
  same_spi : b'.spi_in ≡ b.spi_in
  window_is : b'.replay ≡ (accept b.replay seq).0

Keeps-unpad_with :
    (b kept : ChildSa) (seq next : ℕ) (found : Option (ℕ × Bytes))
    → Keeps b seq kept
    → Keeps b seq (unpad_with kept next found).0
Keeps-unpad_with b kept seq next none h = h
Keeps-unpad_with b kept seq next (some (count, rest)) h =
    if_elim {A = ChildSa × Result (Option Bytes)} (λ s. Keeps b seq s.0) (ltb (length rest) count) _
      _ (λ _. h)
      (λ _. record {
        same_algorithms = h.same_algorithms;
        same_keys = h.same_keys;
        same_spi = h.same_spi;
        window_is = h.window_is;
      })

Keeps-unpad :
    (b kept : ChildSa) (seq : ℕ) (found : Option (ℕ × Bytes))
    → Keeps b seq kept
    → Keeps b seq (unpad kept found).0
Keeps-unpad b kept seq none h = h
Keeps-unpad b kept seq (some (next, rest)) h = Keeps-unpad_with b kept seq next (split_last rest) h

opened_with-Keeps : (b : ChildSa) (seq : ℕ) (m : Bytes) → Keeps b seq (opened_with b seq (ok m)).0
opened_with-Keeps b seq m =
    let kept = record b { replay = (accept b.replay seq).0 } in
    let same : Keeps b seq kept = record {
      same_algorithms = refl;
      same_keys = refl;
      same_spi = refl;
      window_is = refl;
    } in
    if_elim {A = ChildSa × Result (Option Bytes)} (λ s. Keeps b seq s.0) (accept b.replay seq).1 _ _
      (λ _. Keeps-unpad b kept seq (split_last m) same) (λ _. same)

opened_with_refused :
    (b : ChildSa) (seq : ℕ) (m : Bytes)
    → (accept b.replay seq).1 ≡ false
    → (opened_with b seq (ok m)).1 ≡ fail (replayed seq)
opened_with_refused b seq m h = rw h refl

opened_with-accepts :
    (b : ChildSa) (seq : ℕ) (m : Bytes) {out : Option Bytes}
    → (opened_with b seq (ok m)).1 ≡ ok out
    → (accept b.replay seq).1 ≡ true
opened_with-accepts b seq m h = elim (Bool-cases (accept b.replay seq).1) [
  | inl taken ↦ taken
  | inr refused ↦ cc (sym (opened_with_refused b seq m refused) ∙ h)
]

-- What decapsulation found before it asked the window.
record Reaches (lib : Primitives) (b : ChildSa) (esp m : Bytes) : Type 0 where
  long :
      ltb (length esp) (
        8
        + iv_len b.algorithms.cipher
        + (icv_len b.algorithms.cipher + mac_len b.algorithms.integrity))
      ≡ false
  ours : (word_at esp 0 == b.spi_in) ≡ true
  opened : open_esp lib b.algorithms b.inbound esp ≡ ok m

decapsulate-Reaches :
    (lib : Primitives) (b : ChildSa) (esp : Bytes) {out : Option Bytes}
    → (decapsulate lib b esp).1 ≡ ok out
    → (m : Bytes) × Reaches lib b esp m
unfolding decapsulate
decapsulate-Reaches lib b esp {out = out} h =
    let long = ltb (length esp) (
      8
      + iv_len b.algorithms.cipher
      + (icv_len b.algorithms.cipher + mac_len b.algorithms.integrity)) in
    elim (Bool-cases long) [
      | inl short ↦ cc (rw short at h)
      | inr enough ↦ elim (Bool-cases (word_at esp 0 == b.spi_in)) [
        | inr other ↦ cc (rw (enough, other) at h)
        | inl ours ↦
            reached (open_esp lib b.algorithms b.inbound esp) refl enough ours
              (rw (enough, ours) at h)
      ]
    ]
  where
    reached :
        (x : Result Bytes)
        → open_esp lib b.algorithms b.inbound esp ≡ x
        → ltb (length esp) (
            8
            + iv_len b.algorithms.cipher
            + (icv_len b.algorithms.cipher + mac_len b.algorithms.integrity))
          ≡ false
        → (word_at esp 0 == b.spi_in) ≡ true
        → (opened_with b (word_at esp 4) x).1 ≡ ok out
        → (m : Bytes) × Reaches lib b esp m
    reached (ok m) e l o h' = (m, record { long = l; ours = o; opened = e })
    reached (err e') e l o h' = cc h'

decapsulate-opened_with :
    (lib : Primitives) (b : ChildSa) (esp m : Bytes)
    → Reaches lib b esp m
    → decapsulate lib b esp ≡ opened_with b (word_at esp 4) (ok m)
unfolding decapsulate
decapsulate-opened_with lib b esp m r = rw (r.long, r.ours, r.opened) refl

-- With a window of 64 bits, a packet that decapsulation took is refused as a replay when it comes
-- again right after, whatever the ciphers are.
pub decapsulate_again :
    (lib : Primitives) (b : ChildSa) (esp : Bytes) {out : Option Bytes}
    → length b.replay.window ≡ replay_window
    → (decapsulate lib b esp).1 ≡ ok out
    → (decapsulate lib (decapsulate lib b esp).0 esp).1 ≡ fail (replayed (word_at esp 4))
decapsulate_again lib b esp size h =
    let (m, r) = decapsulate-Reaches lib b esp h in
    let seq = word_at esp 4 in
    let first = decapsulate-opened_with lib b esp m r in
    let taken = opened_with-accepts b seq m (ap (λ s. s.1) (sym first) ∙ h) in
    let b' = (opened_with b seq (ok m)).0 in
    let k = opened_with-Keeps b seq m in
    let again : Reaches lib b' esp m = record {
      long = rw k.same_algorithms r.long;
      ours = rw k.same_spi r.ours;
      opened = rw (k.same_algorithms, k.same_keys) r.opened;
    } in
    let refused : (accept b'.replay seq).1 ≡ false =
      rw k.window_is (accept_again b.replay seq size taken) in
    rw (first, decapsulate-opened_with lib b' esp m again) (opened_with_refused b' seq m refused)
