-- ===== src/Ike/Bytes/Progress.antt =====
-- How many bytes the reads of message/bytes.rs take, for the loops over a reader.
use openfortivpn_rs.Ike.Result.{reject, Reason, ok, out_of_fuel, err, Result}
use openfortivpn_rs.Prelude.{
  if◌then◌else◌, Bool, false, true, ◌≤◌, ap, length, length-drop, arith, ◌≢◌, ◌+◌, ℕ, Bytes,
}
use openfortivpn_rs.Ike.Bytes.{u32, u64, u8, Parse, resume, take, skip, u16, with_rest}

-- A read that succeeds leaves at least `k` bytes fewer; a read that fails has an error of the source.
abbrev pub Consumes {ℓ} : {A : Type ℓ} → ℕ → Bytes → Result (A × Bytes) → Type 0
Consumes k r (ok (a, r')) = length r' + k ≤ length r
Consumes k r (err e) = e ≢ out_of_fuel

module _ {ℓ} {A : Type ℓ} where
  pub Consumes-with_rest :
      (m : Result A) (r : Bytes) → m ≢ err out_of_fuel → Consumes 0 r (with_rest r m)
  Consumes-with_rest (ok a) r h = omega arith
  Consumes-with_rest (err e) r h = λ p. h (ap err p)

module _ {ℓ κ} {A : Type ℓ} {B : Type κ} where
  pub Consumes-resume :
      (j k : ℕ) (r : Bytes) (m : Result (A × Bytes)) (f : A → Parse B)
      → Consumes j r m
      → ((a : A) (r' : Bytes) → Consumes k r' (f a r'))
      → Consumes (j + k) r (resume f m)
  Consumes-resume j k r (err e) f h next = h
  Consumes-resume j k r (ok (a, r')) f h next = go (f a r') (next a r')
    where
      go : (x : Result (B × Bytes)) → Consumes k r' x → Consumes (j + k) r x
      go (ok (b, s)) p = omega arith
      go (err e) p = p

pub Consumes-take : (n : ℕ) (r : Bytes) → Consumes n r (take n r)
unfolding take
Consumes-take n r = ground (arith, length-drop n r)

pub Consumes-u8 : (r : Bytes) → Consumes 1 r (u8 r)
unfolding u8
Consumes-u8 r = ground (arith, length-drop 1 r)

pub Consumes-u16 : (r : Bytes) → Consumes 2 r (u16 r)
unfolding u16
Consumes-u16 r = ground (arith, length-drop 2 r)

pub Consumes-skip : (n : ℕ) (r : Bytes) → Consumes n r (skip n r)
unfolding skip
Consumes-skip n r = ground (arith, length-drop n r)

module _ {ℓ} {A : Type ℓ} where
  pub Consumes-if :
      (k : ℕ) (r : Bytes) (b : Bool) (m n : Parse A)
      → Consumes k r (m r)
      → Consumes k r (n r)
      → Consumes k r ((if b then m else n) r)
  Consumes-if k r true m n hm hn = hm
  Consumes-if k r false m n hm hn = hn

  pub Consumes-pure : (a : A) (r : Bytes) → Consumes 0 r (ok (a, r))
  Consumes-pure a r = omega arith

  pub Consumes-mono :
      (j k : ℕ) (r : Bytes) (m : Result (A × Bytes)) → j ≤ k → Consumes k r m → Consumes j r m
  Consumes-mono j k r (ok (a, s)) h c = omega arith
  Consumes-mono j k r (err e) h c = c

-- What goes on behind a read, on fewer bytes, spends no fuel if it spends none on fewer bytes.
pub resume-ne-out_of_fuel {ℓ κ} :
    {A : Type ℓ} {C : Type κ} (k : ℕ) (r : Bytes) (m : Result (A × Bytes))
    (f : A → Bytes → Result C)
    → Consumes k r m
    → ((a : A) (r' : Bytes) → length r' + k ≤ length r → f a r' ≢ err out_of_fuel)
    → resume f m ≢ err out_of_fuel
resume-ne-out_of_fuel k r (ok (a, r')) f c h = h a r' c
resume-ne-out_of_fuel k r (err e) f c h = λ p. c (cc p)

pub reject-ne-out_of_fuel : (b : Bool) (why : Reason) → reject b why ≢ err out_of_fuel
reject-ne-out_of_fuel b why = ground arith

-- A check inside a block that reads.
pub Consumes-reject {ℓ} :
    {B : Type ℓ} (k : ℕ) (r : Bytes) (b : Bool) (why : Reason) (f : Unit {0} → Parse B)
    → Consumes k r (f tt r)
    → Consumes k r (resume f (with_rest r (reject b why)))
Consumes-reject k r true why f h = λ p. cc p
Consumes-reject k r false why f h = h

-- The same where what the first read takes is not counted.
pub Consumes-resume_any {ℓ κ} :
    {A : Type ℓ} {B : Type κ} (j k : ℕ) (r : Bytes) (m : Result (A × Bytes)) (f : A → Parse B)
    → Consumes j r m
    → ((a : A) (r' : Bytes) → Consumes k r' (f a r'))
    → Consumes k r (resume f m)
Consumes-resume_any j k r m f h next =
    Consumes-mono k (j + k) r _ (omega arith) (Consumes-resume j k r m f h next)

pub Consumes-u32 : (r : Bytes) → Consumes 4 r (u32 r)
unfolding u32
Consumes-u32 r = ground (arith, length-drop 4 r)

pub Consumes-u64 : (r : Bytes) → Consumes 8 r (u64 r)
unfolding u64
Consumes-u64 r = ground (arith, length-drop 8 r)
