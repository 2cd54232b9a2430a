-- ===== src/Ike/Reassembler/Order.antt =====
-- Fragments of one message handed to the `Reassembler` of message/mod.rs one after the other.
use openfortivpn_rs.Ike.Result.{Result, ok}
use openfortivpn_rs.Prelude.{
  ap, zero, refl, length, Bytes, List, ◌≤◌, All, [], ◌<◌, ◌≡◌, ◌+◌, ℕ, arith, ◌-◌, ◌∷◌, ◌≢◌, ◌++◌,
  some, Option, suc, none, some, none, refl, suc, zero, ◌∷◌, [],
}
use openfortivpn_rs.Ike.Reassembler.{
  Decrypted, Reassembler, default, max_fragments, restart, store, complete, add_fragment, add,
}
use openfortivpn_rs.Ike.Reassembler.Numbering.{
  length-Ordered, Ordered, Missing, joined, lowest, insert-Ordered, values-Ordered, length-insert,
  insert-Missing, lowest-insert,
}

abbrev pub Distinct : List ℕ → Type 0
Distinct [] = Unit
Distinct (n ∷ ns) = All (λ m. n ≢ m) ns × Distinct ns

abbrev pub waits : ℕ → List (Result (Option Decrypted))
waits zero = []
waits (suc n) = ok none ∷ waits n

-- A message of `total` fragments, its identifier, and what each fragment says and carries.
module _ (id total : ℕ) (nexts : ℕ → ℕ) (chunk : ℕ → Bytes) where
  abbrev pub fragment : ℕ → Decrypted
  fragment n = record { next_payload = nexts n; inner = chunk n; fragment = some (n, total) }

  abbrev pub whole : Decrypted
  whole = record { next_payload = nexts 1; inner = joined chunk 1 total; fragment = none }

  -- The fragments of the given numbers, one after the other, and the answers to them.
  abbrev pub feed : Reassembler → List ℕ → Reassembler × List (Result (Option Decrypted))
  feed r [] = (r, [])
  feed r (n ∷ ns) =
      let (r', answer) = add r id (fragment n) in
      let (r'', answers) = feed r' ns in (r'', answer ∷ answers)

  -- The reassembler holds fragments of this message alone.
  record Holds (r : Reassembler) : Type 0 where
    same_message : r.message_id ≡ some id
    same_total : r.total ≡ total
    ordered : Ordered chunk total 1 r.fragments
    next_known : lowest r.fragments ≡ 1 → r.next_payload ≡ nexts 1

  abbrev InRange : ℕ → Type 0
  InRange n = (1 ≤ n) × (n ≤ total)

  module _ (few : total ≤ max_fragments) where
    add-complete :
        (r : Reassembler) (n : ℕ)
        → InRange n
        → add r id (fragment n) ≡ complete (store (restart r id total) n (fragment n)) total
    unfolding add add_fragment
    add-complete r n h = ground arith

    restart-Holds : (r : Reassembler) → Holds r → restart r id total ≡ r
    unfolding restart
    restart-Holds r h = rw (h.same_message, h.same_total) (ground arith)

    store-Holds : (r : Reassembler) (n : ℕ) → InRange n → Holds r → Holds (store r n (fragment n))
    unfolding store
    store-Holds r n i h = record {
      same_message = h.same_message;
      same_total = h.same_total;
      ordered = insert-Ordered chunk total 1 n r.fragments i.0 i.1 h.ordered;
      next_known = λ e. ground (arith, lowest-insert n (chunk n) r.fragments, h.next_known);
    }

    length-store :
        (r : Reassembler) (n : ℕ)
        → Missing n r.fragments
        → length (store r n (fragment n)).fragments ≡ length r.fragments + 1
    unfolding store
    length-store r n m = length-insert n (chunk n) r.fragments m

    complete_waits :
        (r : Reassembler) → length r.fragments < total → complete r total ≡ (r, ok none)
    unfolding complete
    complete_waits r h = ground arith

    lowest-Ordered :
        (fs : List (ℕ × Bytes))
        → 0 < length fs
        → length fs ≡ total
        → Ordered chunk total 1 fs
        → lowest fs ≡ 1
    lowest-Ordered [] h e o = absurd (omega arith)
    lowest-Ordered (f ∷ fs) h e o =
        omega (arith, length-Ordered chunk total (f.0 + 1) fs (omega (arith, o.1)) o.3, o.0)

    complete-whole :
        (r : Reassembler)
        → Holds r
        → 0 < total
        → length r.fragments ≡ total
        → complete r total ≡ (default, ok (some whole))
    unfolding complete
    complete-whole r h p e =
        let all = values-Ordered chunk total 1 r.fragments (omega arith) h.ordered in
        let next = h.next_known (lowest-Ordered r.fragments (omega arith) e h.ordered) in
        rw (e, all, next) (rw e (ground arith))

    store-Missing :
        (r : Reassembler) (n : ℕ) (ns : List ℕ)
        → All (λ m. n ≢ m) ns
        → All (λ m. Missing m r.fragments) ns
        → All (λ m. Missing m (store r n (fragment n)).fragments) ns
    store-Missing r n [] d h = tt
    store-Missing r n (m ∷ ns) d h = (
      unfold store in insert-Missing m n (chunk n) r.fragments d.0 h.0,
      store-Missing r n ns d.1 h.1,
    )

    -- What is left of the fragments, handed over in any order.
    feed-Holds :
        (r started : Reassembler) (n : ℕ) (ns : List ℕ)
        → restart r id total ≡ started
        → Holds started
        → Distinct (n ∷ ns)
        → All InRange (n ∷ ns)
        → All (λ m. Missing m started.fragments) (n ∷ ns)
        → length started.fragments + length ns + 1 ≡ total
        → feed r (n ∷ ns) ≡ (default, waits (length ns) ++ ok (some whole) ∷ [])
    feed-Holds r started n [] q h d i m e =
        let s = store started n (fragment n) in
        let held = store-Holds started n i.0 h in
        let count = length-store started n m.0 in
        rw (add-complete r n i.0, q, complete-whole s held (omega arith) (omega arith)) refl
    feed-Holds r started n (k ∷ ns) q h d i m e =
        let s = store started n (fragment n) in
        let held = store-Holds started n i.0 h in
        let count = length-store started n m.0 in
        let missing = store-Missing started n (k ∷ ns) d.0 m.1 in
        let rest = feed-Holds s s k ns (restart-Holds s held) held d.1 i.1 missing (omega arith) in
        rw (add-complete r n i.0, q, complete_waits s (omega arith))
          (ap (λ x. (x.0, ok none ∷ x.1)) rest)

    All-Missing : (ns : List ℕ) → All (λ m. Missing m []) ns
    All-Missing [] = tt
    All-Missing (n ∷ ns) = (tt, All-Missing ns)

    restart_fresh :
        (r : Reassembler)
        → r.message_id ≢ some id
        → restart r id total ≡ record r { message_id = some id; total = total; fragments = [] }
    unfolding restart
    restart_fresh r new = ground arith

    -- The fragments of a message, at most 64 of them, each once and in any order, handed to a
    -- reassembler that is not at that message: every one but the last is answered by nothing, and the
    -- last one by the whole, the chunks in the order of their numbers with the payload type that the
    -- first of them says; then the reassembler is as new.
    pub feed_any_order :
        (r : Reassembler) (order : List ℕ)
        → r.message_id ≢ some id
        → Distinct order
        → All InRange order
        → length order ≡ total
        → 0 < total
        → feed r order ≡ (default, waits (total - 1) ++ ok (some whole) ∷ [])
    feed_any_order r [] new d i e p = absurd (omega arith)
    feed_any_order r (n ∷ ns) new d i e p =
        let count : total - 1 ≡ length ns = omega arith in
        let empty : Holds (record r { message_id = some id; total = total; fragments = [] }) =
          record {
            same_message = refl;
            same_total = refl;
            ordered = tt;
            next_known = λ h. absurd (omega arith);
          } in
        rw count
          (feed-Holds r _ n ns (restart_fresh r new) empty d i (All-Missing (n ∷ ns)) (omega arith))
