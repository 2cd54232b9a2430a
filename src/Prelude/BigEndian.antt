-- ===== src/Prelude/BigEndian.antt =====
-- Big-endian numbers: `to_be_bytes` and `from_be_bytes` of Rust's u16, u32 and u64.
use Prim.Native.Nat.{zero, suc, ℕ, ◌+◌, ◌*◌, ◌/◌, ◌%◌, ◌^◌, ◌<◌}
use mathlib.Core.Path.{◌≡◌, refl, ap}
use mathlib.Core.List.{List, [], ◌∷◌, ◌++◌}
use native.Mathlib.Omega.{arith}
use openfortivpn_rs.Prelude.Lists.{All, length}

abbrev pub Bytes : Type 0
Bytes = List ℕ

-- The byte of weight 256 ^ k is `n / 2 ^ (8 * k) % 256`.
abbrev pub be16 : ℕ → Bytes
be16 n = n / 2 ^ 8 % 2 ^ 8 ∷ n % 2 ^ 8 ∷ []

abbrev pub be32 : ℕ → Bytes
be32 n = n / 2 ^ 24 % 2 ^ 8 ∷ n / 2 ^ 16 % 2 ^ 8 ∷ n / 2 ^ 8 % 2 ^ 8 ∷ n % 2 ^ 8 ∷ []

abbrev pub be64 : ℕ → Bytes
be64 n = be32 (n / 2 ^ 32) ++ be32 n

abbrev pub from_be16 : ℕ → ℕ → ℕ
from_be16 a b = a * 2 ^ 8 + b

abbrev pub from_be32 : ℕ → ℕ → ℕ → ℕ → ℕ
from_be32 a b c d = a * 2 ^ 24 + b * 2 ^ 16 + c * 2 ^ 8 + d

pub from_be16-be16 : (n : ℕ) → n < 2 ^ 16 → from_be16 (n / 2 ^ 8 % 2 ^ 8) (n % 2 ^ 8) ≡ n
from_be16-be16 n h = omega arith

pub from_be32-be32 :
    (n : ℕ)
    → n < 2 ^ 32
    → from_be32 (n / 2 ^ 24 % 2 ^ 8) (n / 2 ^ 16 % 2 ^ 8) (n / 2 ^ 8 % 2 ^ 8) (n % 2 ^ 8) ≡ n
from_be32-be32 n h = omega arith

-- A number of 64 bits is its two halves.
pub from_be64-be64 :
    (n : ℕ)
    → n < 2 ^ 64
    → from_be32
            (n / 2 ^ 32 / 2 ^ 24 % 2 ^ 8)
            (n / 2 ^ 32 / 2 ^ 16 % 2 ^ 8)
            (n / 2 ^ 32 / 2 ^ 8 % 2 ^ 8)
            (n / 2 ^ 32 % 2 ^ 8)
          * 2 ^ 32
        + from_be32 (n / 2 ^ 24 % 2 ^ 8) (n / 2 ^ 16 % 2 ^ 8) (n / 2 ^ 8 % 2 ^ 8) (n % 2 ^ 8)
      ≡ n
from_be64-be64 n h = omega arith

abbrev pub zeros : ℕ → Bytes
zeros zero = []
zeros (suc n) = 0 ∷ zeros n

pub length-zeros : (n : ℕ) → length (zeros n) ≡ n
length-zeros zero = refl
length-zeros (suc n) = ap suc (length-zeros n)

abbrev pub IsByte : ℕ → Type 0
IsByte b = b < 2 ^ 8

-- Every element is a byte.
abbrev pub IsBytes : Bytes → Type 0
IsBytes = All IsByte

pub be16-IsBytes : (n : ℕ) → IsBytes (be16 n)
be16-IsBytes n = omega arith

pub be32-IsBytes : (n : ℕ) → IsBytes (be32 n)
be32-IsBytes n = omega arith

pub pow_two_positive : (n : ℕ) → 0 < 2 ^ n
pow_two_positive zero = omega arith
pow_two_positive (suc n) = omega (arith, pow_two_positive n)
