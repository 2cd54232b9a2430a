-- ===== src/Ike/Bytes/Orderly.antt =====
-- Results of message/bytes.rs and its users that are a value or an error that the source returns.
use openfortivpn_rs.Prelude.{
  length-drop, length, ◌≤◌, ◌+◌, ℕ, arith, Bytes, false, true, refl, ◌≡◌, Bool, false, true, refl,
}
use openfortivpn_rs.Ike.Result.{
  reject, Reason, ◌and_then◌, out_of_fuel, err, ok, Error, Result, panicked,
}
use openfortivpn_rs.Ike.Bytes.{Parse, u8, resume, take, skip, u16, u32, u64, with_rest}

abbrev pub IsReturned : Error → Type 0
IsReturned panicked = ⊥
IsReturned out_of_fuel = ⊥
IsReturned _ = Unit

-- No panic and no fuel spent.
abbrev pub IsOrderly {ℓ} : {A : Type ℓ} → Result A → Type 0
IsOrderly (ok a) = Unit
IsOrderly (err e) = IsReturned e

-- A read that gives a value leaves at least `k` bytes fewer, and one that fails returns an error.
abbrev pub Reads {ℓ} : {A : Type ℓ} → ℕ → Bytes → Result (A × Bytes) → Type 0
Reads k r (ok (a, r')) = length r' + k ≤ length r
Reads k r (err e) = IsReturned e

pub Reads-take : (n : ℕ) (r : Bytes) → Reads n r (take n r)
unfolding take
Reads-take n r = ground (arith, length-drop n r)

pub Reads-u8 : (r : Bytes) → Reads 1 r (u8 r)
unfolding u8
Reads-u8 r = ground (arith, length-drop 1 r)

pub Reads-u16 : (r : Bytes) → Reads 2 r (u16 r)
unfolding u16
Reads-u16 r = ground (arith, length-drop 2 r)

pub Reads-u32 : (r : Bytes) → Reads 4 r (u32 r)
unfolding u32
Reads-u32 r = ground (arith, length-drop 4 r)

pub Reads-u64 : (r : Bytes) → Reads 8 r (u64 r)
unfolding u64
Reads-u64 r = ground (arith, length-drop 8 r)

pub Reads-skip : (n : ℕ) (r : Bytes) → Reads n r (skip n r)
unfolding skip
Reads-skip n r = ground (arith, length-drop n r)

pub Reads-with_rest {ℓ} :
    {A : Type ℓ} (m : Result A) (r : Bytes) → IsOrderly m → Reads 0 r (with_rest r m)
Reads-with_rest (ok a) r h = omega arith
Reads-with_rest (err e) r h = h

module _ {ℓ κ} {A : Type ℓ} {B : Type κ} where
  pub Reads-resume :
      (j k : ℕ) (r : Bytes) (m : Result (A × Bytes)) (f : A → Parse B)
      → Reads j r m
      → ((a : A) (r' : Bytes) → length r' + j ≤ length r → Reads k r' (f a r'))
      → Reads (j + k) r (resume f m)
  Reads-resume j k r (err e) f h next = h
  Reads-resume j k r (ok (a, r')) f h next = go (f a r') (next a r' h)
    where
      go : (x : Result (B × Bytes)) → Reads k r' x → Reads (j + k) r x
      go (ok (b, s)) p = omega arith
      go (err e) p = p

  -- A predicate that the errors of the source satisfy, of what goes on behind a read.
  pub resume_elim :
      (P : Result B → Type 0) (k : ℕ) (r : Bytes) (m : Result (A × Bytes))
      (f : A → Bytes → Result B)
      → ((e : Error) → IsReturned e → P (err e))
      → Reads k r m
      → ((a : A) (r' : Bytes) → length r' + k ≤ length r → P (f a r'))
      → P (resume f m)
  resume_elim P k r (ok (a, r')) f errors c h = h a r' c
  resume_elim P k r (err e) f errors c h = errors e c

pub reject-IsOrderly : (b : Bool) (why : Reason) → IsOrderly (reject b why)
reject-IsOrderly true why = tt
reject-IsOrderly false why = tt

-- What goes on behind a read, on fewer bytes.
pub resume-IsOrderly {ℓ κ} :
    {A : Type ℓ} {C : Type κ} (k : ℕ) (r : Bytes) (m : Result (A × Bytes))
    (f : A → Bytes → Result C)
    → Reads k r m
    → ((a : A) (r' : Bytes) → length r' + k ≤ length r → IsOrderly (f a r'))
    → IsOrderly (resume f m)
resume-IsOrderly k r (ok (a, r')) f c h = h a r' c
resume-IsOrderly k r (err e) f c h = c

pub and_then-IsOrderly {ℓ κ} :
    {A : Type ℓ} {B : Type κ} (m : Result A) (f : A → Result B)
    → IsOrderly m
    → ((a : A) → m ≡ ok a → IsOrderly (f a))
    → IsOrderly (m and_then f)
and_then-IsOrderly (ok a) f o h = h a refl
and_then-IsOrderly (err e) f o h = o
