-- ===== src/Ike/KeySchedule/Stream.antt =====
-- `Prf::prf_plus` of crates/ikev2/src/crypto/prf.rs against the key stream of RFC 7296, section 2.13.
use openfortivpn_rs.Ike.KeySchedule.{prf_plus, next_block, blocks_on, prf_hash, prf_of, prf_key_len}
use openfortivpn_rs.Ike.Choice.{Prf}
use openfortivpn_rs.Ike.Cipher.Laws.{CipherLaws}
use openfortivpn_rs.Ike.Cipher.{Primitives}
use openfortivpn_rs.Ike.Result.{panicked, Result, err, ok}
use openfortivpn_rs.Prelude.{
  ◌⊎◌, leb, Bool-cases, inl, inr, inr, inl, false, sym, true, false, true, if◌then◌else◌, ltb, ◌∙◌,
  take, length, Bytes, ap, suc, ◌∷◌, ◌≡◌, ◌++◌, ◌*◌, List, ℕ, length-append, refl, ◌<◌, ◌≤◌, zero,
  ◌+◌, ◌-◌, ◌^◌, [], ◌∷◌, arith, refl, suc, zero, ◌∷◌, [],
}

-- T1 | T2 | .., each of the block before, the seed and its number.
abbrev pub block_of : Primitives → Prf → Bytes → Bytes → ℕ → Bytes
block_of lib p key seed zero = []
block_of lib p key seed (suc n) =
    prf_of lib p key ((block_of lib p key seed n ++ seed) ++ suc n ∷ [])

unfoldable pub key_stream : Primitives → Prf → Bytes → Bytes → ℕ → Bytes
key_stream lib p key seed zero = []
key_stream lib p key seed (suc n) = key_stream lib p key seed n ++ block_of lib p key seed (suc n)

mul_grows : (more n k : ℕ) → n * k ≤ (more + n) * k
mul_grows zero n k = omega arith
mul_grows (suc more) n k =
    let next : suc more + n ≡ suc (more + n) = omega arith in
    let grown : n * k ≤ suc (more + n) * k = omega (arith, mul_grows more n k) in rw next grown

enough_or_not : (len reached : ℕ) → (len ≤ reached) ⊎ (reached < len)
enough_or_not len reached = elim (Bool-cases (ltb reached len)) [
  | inl yes_ ↦ inr (ground (arith, yes_))
  | inr no_ ↦ inl (ground (arith, no_))
]

-- A length that so many blocks do not reach, fewer do not reach.
below : (more n k limit len : ℕ) → more + n ≡ limit → limit * k < len → n * k < len
below more n k limit len e h =
    let whole : (more + n) * k < len = rw e h in omega (arith, mul_grows more n k)

take_of_append :
    {A : Type 0} (n : ℕ) (xs ys : List A) → n ≤ length xs → take n (xs ++ ys) ≡ take n xs
take_of_append zero xs ys h = refl
take_of_append (suc n) [] ys h = ground (arith, h)
take_of_append (suc n) (x ∷ xs) ys h = ap (◌∷◌ x) (take_of_append n xs ys (omega (arith, h)))

module _ (lib : Primitives) (laws : CipherLaws lib) (p : Prf) (key seed : Bytes) where
  abbrev stream : ℕ → Bytes
  stream = key_stream lib p key seed

  pub length-stream : (n : ℕ) → length (stream n) ≡ n * prf_key_len p
  unfolding key_stream prf_key_len prf_of
  length-stream zero = omega arith
  length-stream (suc n) = omega (
    arith,
    length-stream n,
    length-append (stream n) (block_of lib p key seed (suc n)),
    laws.hmac_size (prf_hash p) key ((block_of lib p key seed n ++ seed) ++ suc n ∷ []),
  )

  -- Blocks behind the length do not matter.
  stream_beyond :
      (len n more : ℕ)
      → len ≤ n * prf_key_len p
      → take len (stream (more + n)) ≡ take len (stream n)
  unfolding key_stream
  stream_beyond len n zero h =
      let none_more : 0 + n ≡ n = omega arith in ap (λ k. take len (stream k)) none_more
  stream_beyond len n (suc more) h =
      let next : suc more + n ≡ suc (more + n) = omega arith in
      ap (λ k. take len (stream k)) next
      ∙ take_of_append len (stream (more + n)) (block_of lib p key seed (suc (more + n)))
          (omega (arith, h, length-stream (more + n), mul_grows more n (prf_key_len p)))
      ∙ stream_beyond len n more h

  abbrev after : ℕ → ℕ → ℕ → Result Bytes
  after fuel len n =
      blocks_on lib fuel p key seed len (stream n) (block_of lib p key seed n) (suc n)

  after_done :
      (fuel len n : ℕ) → len ≤ n * prf_key_len p → after (suc fuel) len n ≡ ok (take len (stream n))
  unfolding blocks_on
  after_done fuel len n h = ground (arith, h, length-stream n)

  after_turn :
      (fuel len n : ℕ)
      → n * prf_key_len p < len
      → n < 2 ^ 8 - 2
      → after (suc fuel) len n ≡ after fuel len (suc n)
  unfolding blocks_on key_stream next_block
  after_turn fuel len n h b =
      let next : suc n + 1 ≡ suc (suc n) = omega arith in
      let short : ltb (length (stream n)) len ≡ true = ground (arith, h, length-stream n) in
      let fits : ltb (suc n + 1) (2 ^ 8) ≡ true = ground (arith, b) in rw (short, fits, next)

  after_last :
      (fuel len n : ℕ)
      → n * prf_key_len p < len
      → n ≡ 2 ^ 8 - 2
      → after (suc fuel) len n ≡ err panicked
  unfolding blocks_on
  after_last fuel len n h b =
      let short : ltb (length (stream n)) len ≡ true = ground (arith, h, length-stream n) in
      let fits : ltb (suc n + 1) (2 ^ 8) ≡ false = ground (arith, b) in rw (short, fits)

  -- The rest of the loop behind `n` blocks, when `more` blocks will do.
  after-stream :
      (len fuel n more : ℕ)
      → more < fuel
      → n + more < 2 ^ 8 - 1
      → len ≤ (more + n) * prf_key_len p
      → after fuel len n ≡ ok (take len (stream (more + n)))
  after-stream len zero n more f b h = ground (arith, f)
  after-stream len (suc fuel) n zero f b h =
      let none_more : 0 + n ≡ n = omega arith in
      after_done fuel len n (rw none_more at h) ∙ ap (λ k. ok (take len (stream k))) (sym none_more)
  after-stream len (suc fuel) n (suc more) f b h =
      let next : suc more + n ≡ more + suc n = omega arith in
      let turned : len ≤ (more + suc n) * prf_key_len p = rw (← next) h in
      elim (enough_or_not len (n * prf_key_len p)) [
        | inl long ↦ after_done fuel len n long ∙ ap ok (sym (stream_beyond len n (suc more) long))
        | inr short ↦
            after_turn fuel len n short (omega (arith, b))
            ∙ after-stream len fuel (suc n) more (omega (arith, f)) (omega (arith, b)) turned
            ∙ ap (λ k. ok (take len (stream k))) (sym next)
      ]

  after_panics :
      (len fuel n more : ℕ)
      → more < fuel
      → n + more ≡ 2 ^ 8 - 2
      → (2 ^ 8 - 2) * prf_key_len p < len
      → after fuel len n ≡ err panicked
  after_panics len zero n more f b h = ground (arith, f)
  after_panics len (suc fuel) n zero f b h =
      after_last fuel len n (below 0 n (prf_key_len p) (2 ^ 8 - 2) len (omega (arith, b)) h)
        (omega (arith, b))
  after_panics len (suc fuel) n (suc more) f b h =
      after_turn fuel len n
        (below (suc more) n (prf_key_len p) (2 ^ 8 - 2) len (omega (arith, b)) h) (omega (arith, b))
      ∙ after_panics len fuel (suc n) more (omega (arith, f)) (omega (arith, b)) h

  -- With an HMAC that has the sizes of its hash, prf+ gives the first bytes of the key stream of RFC
  -- 7296, T1 | T2 | .. with the block before, the seed and the block's number under each. It panics
  -- exactly if more than 254 blocks are asked for, and never runs on.
  pub prf_plus-key_stream :
      (len : ℕ)
      → prf_plus lib p key seed len ≡ (
          if leb len (254 * prf_key_len p)
          then ok (take len (key_stream lib p key seed 254))
          else err panicked)
  unfolding prf_plus key_stream
  prf_plus-key_stream len = elim (enough_or_not len (254 * prf_key_len p)) [
    | inl long ↦
        let fits : leb len (254 * prf_key_len p) ≡ true = ground (arith, long) in
        let got : after (2 ^ 8) len 0 ≡ ok (take len (stream (254 + 0))) =
          after-stream len (2 ^ 8) 0 254 (omega arith) (omega arith) long in
        rw fits got
    | inr short ↦
        let over : leb len (254 * prf_key_len p) ≡ false = ground (arith, short) in
        rw over (after_panics len (2 ^ 8) 0 254 (omega arith) (omega arith) short)
  ]
