-- ===== src/Ike/Reassembler/Bounds.antt =====
-- What the `Reassembler` of message/mod.rs keeps, whatever fragments come.
use openfortivpn_rs.Ike.Result.{Result}
use openfortivpn_rs.Ike.Reassembler.{
  is_bad, is_message, max_fragments, add_fragment, restart, Reassembler, insert, complete,
  Decrypted, default, add, store,
}
use openfortivpn_rs.Prelude.{
  length, refl, ◌∷◌, ◌≤◌, Option, ◌==◌, Bytes, if_elim, some, List, ltb, [], ◌∙◌, ℕ, arith, ◌||◌,
  none, All, not, subst, ◌-◌, ◌≡◌, some, none, refl, ◌∷◌, [],
}

abbrev IsNumber : ℕ → ℕ × Bytes → Type 0
IsNumber total f = (1 ≤ f.0) × (f.0 ≤ total)

-- Fewer fragments than the message has are kept, each under one of the message's numbers, and the
-- message has at most as many as the limit.
pub record IsBounded (r : Reassembler) : Type 0 where
  pub fewer : length r.fragments ≤ r.total - 1
  pub numbered : All (IsNumber r.total) r.fragments
  pub limited : r.total ≤ max_fragments

default-IsBounded : IsBounded default
default-IsBounded = record { fewer = omega arith; numbered = tt; limited = omega arith }

insert-IsNumber :
    (total n : ℕ) (v : Bytes) (fs : List (ℕ × Bytes))
    → IsNumber total (n, v)
    → All (IsNumber total) fs
    → All (IsNumber total) (insert n v fs)
unfolding insert
insert-IsNumber total n v [] i h = (i, tt)
insert-IsNumber total n v (f ∷ fs) i h = ground (arith, insert-IsNumber total n v fs i h.1)

restart-IsNumber :
    (r : Reassembler) (id total : ℕ)
    → IsBounded r
    → All (IsNumber total) (restart r id total).fragments
unfolding restart
restart-IsNumber r id total h =
    if_elim {A = Reassembler} (λ s. All (IsNumber total) s.fragments)
      (not (is_message r.message_id id) || not (r.total == total)) _ _ (λ _. tt)
      (λ e.
        let same : r.total ≡ total = ground (arith, e) in
        subst (λ t. All (IsNumber t) r.fragments) same h.numbered)

total-restart : (r : Reassembler) (id total : ℕ) → (restart r id total).total ≡ total
unfolding restart
total-restart r id total = ground arith

complete-IsBounded :
    (r : Reassembler) (total : ℕ)
    → r.total ≡ total
    → total ≤ max_fragments
    → All (IsNumber total) r.fragments
    → IsBounded (complete r total).0
unfolding complete
complete-IsBounded r total e h numbers =
    if_elim {A = Reassembler × Result (Option Decrypted)} (λ s. IsBounded s.0)
      (ltb (length r.fragments) total) _ _
      (λ short. record {
        fewer = ground (arith, short, e);
        numbered = rw e numbers;
        limited = omega (arith, e, h);
      })
      (λ _. default-IsBounded)

store-IsNumber :
    (r : Reassembler) (total n : ℕ) (d : Decrypted)
    → (1 ≤ n) × (n ≤ total)
    → All (IsNumber total) r.fragments
    → All (IsNumber total) (store r n d).fragments
unfolding store
store-IsNumber r total n d i h = insert-IsNumber total n d.inner r.fragments i h

total-store : (r : Reassembler) (n : ℕ) (d : Decrypted) → (store r n d).total ≡ r.total
unfolding store
total-store r n d = refl

add_fragment-IsBounded :
    (r : Reassembler) (id : ℕ) (d : Decrypted) (f : Option (ℕ × ℕ))
    → IsBounded r
    → IsBounded (add_fragment r id d f).0
unfolding add_fragment
add_fragment-IsBounded r id d none h = h
add_fragment-IsBounded r id d (some (number, total)) h =
    let started = restart r id total in
    if_elim {A = Reassembler × Result (Option Decrypted)} (λ s. IsBounded s.0) (is_bad number total)
      _ _ (λ _. h)
      (λ e.
        complete-IsBounded (store started number d) total
          (total-store started number d ∙ total-restart r id total) (ground (arith, e))
          (store-IsNumber started total number d (ground (arith, e))
            (restart-IsNumber r id total h)))

add-IsBounded : (r : Reassembler) (id : ℕ) (d : Decrypted) → IsBounded r → IsBounded (add r id d).0
unfolding add
add-IsBounded r id d h = add_fragment-IsBounded r id d d.fragment h

-- The reassembler behind decrypted messages, each with its identifier.
abbrev pub behind : Reassembler → List (ℕ × Decrypted) → Reassembler
behind r [] = r
behind r (one ∷ others) = behind (add r one.0 one.1).0 others

behind_from :
    (r : Reassembler) (all : List (ℕ × Decrypted)) → IsBounded r → IsBounded (behind r all)
behind_from r [] h = h
behind_from r (one ∷ others) h =
    behind_from (add r one.0 one.1).0 others (add-IsBounded r one.0 one.1 h)

-- From a new reassembler on, whatever comes, of any messages and with any numbering: it keeps fewer
-- fragments than the message it is at has, each under one of that message's numbers, and that
-- message has at most 64. So what one message leaves behind never counts for a shorter one.
pub behind-IsBounded : (all : List (ℕ × Decrypted)) → IsBounded (behind default all)
behind-IsBounded all = behind_from default all default-IsBounded
