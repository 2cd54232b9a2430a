-- ===== src/Ike/Reassembler/Tests.antt =====
-- Fragments of one message, out of order, in the `Reassembler` of message/mod.rs.
use openfortivpn_rs.Ike.Result.{ok}
use openfortivpn_rs.Prelude.{
  if◌then◌else◌, refl, Bytes, ◌≡◌, ◌++◌, ◌==◌, List, some, [], ℕ, ◌∷◌, arith, some, refl, ◌∷◌, [],
}
use openfortivpn_rs.Ike.Reassembler.{Decrypted, default}
use openfortivpn_rs.Ike.Reassembler.Order.{feed, fragment, whole, waits, feed_any_order}
use openfortivpn_rs.Ike.Reassembler.Bounds.{
  behind-IsBounded, behind, IsBounded, behind, behind-IsBounded,
}

abbrev nexts : ℕ → ℕ
nexts n = if n == 1 then 40 else 0

abbrev chunk : ℕ → Bytes
chunk n = n ∷ 100 ∷ []

abbrev shuffled : List ℕ
shuffled = 3 ∷ 1 ∷ 2 ∷ []

feed_any_order_example :
    feed 5 3 nexts chunk default shuffled
    ≡ (default, waits 2 ++ ok (some (whole 5 3 nexts chunk)) ∷ [])
feed_any_order_example =
    feed_any_order 5 3 nexts chunk (omega arith) default shuffled (λ e. cc e)
      (
        ((λ e. absurd (omega arith)), ((λ e. absurd (omega arith)), tt)),
        ((((λ e. absurd (omega arith)), tt)), (tt, tt)),
      )
      (omega arith) refl (omega arith)

-- Two fragments of a message of three, then one of a message of two.
abbrev mixed : List (ℕ × Decrypted)
mixed =
    (5, fragment 5 3 nexts chunk 3)
    ∷ (5, fragment 5 3 nexts chunk 1)
    ∷ (6, fragment 6 2 nexts chunk 2)
    ∷ []

behind-IsBounded_example : IsBounded (behind default mixed)
behind-IsBounded_example = behind-IsBounded mixed
