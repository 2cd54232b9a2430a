-- ===== src/Ike/Bytes.antt =====
-- crates/ikev2/src/message/bytes.rs: the cursor over received bytes and the big-endian appends.
-- A reader is the bytes that are left; a method that moves it is an action of `Parse`.
pub mod Laws
pub mod Progress
pub mod Orderly
use openfortivpn_rs.Prelude.{
  ℕ, ◌+◌, ◌*◌, ◌^◌, Bool, [], ◌∷◌, ◌++◌, Bytes, be16, be32, be64, from_be16, from_be32, length,
  get_or, take as take_list, drop, is_empty, ltb, if◌then◌else◌,
}
use openfortivpn_rs.Ike.Result.{expect, bytes_expected, does_not_fit, Result, ok, err, fail, reject}

abbrev pub Parse {ℓ} : Type ℓ → Type ℓ
Parse A = Bytes → Result (A × Bytes)

-- What follows a step goes on with the bytes that the step left.
abbrev pub resume {ℓ κ} :
    {A : Type ℓ} {B : Type κ} → (A → Bytes → Result B) → Result (A × Bytes) → Result B
resume f (ok (a, r)) = f a r
resume f (err e) = err e

infixl 5 ◌>>=◌ ◌>>◌
abbrev pub ◌>>=◌ {κ ℓ} : {T : Type κ} {U : Type ℓ} → Parse T → (T → Parse U) → Parse U
◌>>=◌ read next r = resume next (read r)

abbrev pub ◌>>◌ {ℓ} : {U : Type ℓ} → Parse (Unit {0}) → Parse U → Parse U
check >> next = check >>= λ _. next

abbrev pub pure {ℓ} : {A : Type ℓ} → A → Parse A
pure a r = ok (a, r)

-- A test or a nested result inside a block that reads.
abbrev pub with_rest {ℓ} : {A : Type ℓ} → Bytes → Result A → Result (A × Bytes)
with_rest r (ok a) = ok (a, r)
with_rest r (err e) = err e

abbrev pub lift {ℓ} : {A : Type ℓ} → Result A → Parse A
lift m r = with_rest r m

-- `self.rest()`: what is left, which ends the reader.
abbrev pub rest : Parse Bytes
rest r = ok (r, [])

unfoldable pub take : ℕ → Parse Bytes
take len r =
    if ltb (length r) len
    then fail (bytes_expected len (length r))
    else ok (take_list len r, drop len r)

unfoldable pub u8 : Parse ℕ
unfolding take
u8 = do taken ← take 1; pure (get_or taken 0 0)

unfoldable pub u16 : Parse ℕ
unfolding take
u16 = do bytes ← take 2; pure (from_be16 (get_or bytes 0 0) (get_or bytes 1 0))

abbrev word : Bytes → ℕ → ℕ
word bytes i =
    from_be32 (get_or bytes i 0) (get_or bytes (i + 1) 0) (get_or bytes (i + 2) 0)
      (get_or bytes (i + 3) 0)

unfoldable pub u32 : Parse ℕ
unfolding take
u32 = do bytes ← take 4; pure (word bytes 0)

unfoldable pub u64 : Parse ℕ
unfolding take
u64 = do bytes ← take 8; pure (word bytes 0 * 2 ^ 32 + word bytes 4)

unfoldable pub skip : ℕ → Parse (Unit {0})
unfolding take
skip len = do _ ← take len; pure tt

-- The appends of `Writer`, on the buffer as it stands.
abbrev pub put_u8 : ℕ → Bytes → Bytes
put_u8 value out = out ++ value ∷ []

abbrev pub put_u16 : ℕ → Bytes → Bytes
put_u16 value out = out ++ be16 value

abbrev pub put_u32 : ℕ → Bytes → Bytes
put_u32 value out = out ++ be32 value

abbrev pub put_u64 : ℕ → Bytes → Bytes
put_u64 value out = out ++ be64 value

unfoldable pub len16 : ℕ → Result ℕ
len16 len = if ltb len (2 ^ 16) then ok len else fail (does_not_fit len)

-- A length put in one byte: `u8::try_from(len).expect(..)`
unfoldable pub len8 : ℕ → Result ℕ
len8 len = expect (ltb len (2 ^ 8)) len

-- What a reader has left is dropped with it.
abbrev pub value_of {ℓ} : {A : Type ℓ} → Result (A × Bytes) → Result A
value_of (ok (a, r)) = ok a
value_of (err e) = err e
