-- ===== src/Ike/KeySchedule.antt =====
-- crates/ikev2/src/sa.rs: the keys of an IKE SA, the keying material of a CHILD SA and the octets of
-- the AUTH payload; `Prf::prf` and `Prf::prf_plus` of crates/ikev2/src/crypto/prf.rs.
pub mod Stream
pub mod Sizes
mod Tests
use openfortivpn_rs.Ike.Esp.{piece}
use openfortivpn_rs.Ike.Encrypted.{Keys}
use openfortivpn_rs.Ike.Payload.{Identity, encode_identity}
use openfortivpn_rs.Ike.Cipher.{
  sha512, sha384, sha256, sha1, md5, key_len, integrity_key_len, output_len, Hash, Primitives,
}
use openfortivpn_rs.Ike.Choice.{
  prf_sha512, prf_sha384, prf_sha256, prf_sha1, prf_md5, IkeAlgorithms, Prf,
}
use openfortivpn_rs.Ike.Result.{panicked, ◌and_then◌, out_of_fuel, Result, err, ok}
use openfortivpn_rs.Prelude.{
  take, length, if◌then◌else◌, suc, ltb, [], Option, be64, none, some, ◌++◌, ◌+◌, Bytes, ◌*◌, ℕ,
  ◌^◌, zero, ◌∷◌, some, none, suc, zero, ◌∷◌, [],
}

unfoldable pub prf_hash : Prf → Hash
prf_hash prf_md5 = md5
prf_hash prf_sha1 = sha1
prf_hash prf_sha256 = sha256
prf_hash prf_sha384 = sha384
prf_hash prf_sha512 = sha512

-- `Prf::key_len`
unfoldable pub prf_key_len : Prf → ℕ
unfolding prf_hash
prf_key_len p = output_len (prf_hash p)

module _ (lib : Primitives) where
  -- `Prf::prf`
  unfoldable pub prf_of : Prf → Bytes → Bytes → Bytes
  unfolding prf_hash
  prf_of p key data_ = lib.hmac (prf_hash p) key data_

  -- A block of `prf+`: what is hashed is the block before, the seed and the counter.
  unfoldable pub next_block : Prf → Bytes → Bytes → Bytes → ℕ → Bytes
  unfolding prf_of
  next_block p key seed previous counter = prf_of p key ((previous ++ seed) ++ counter ∷ [])

  -- The loop of `Prf::prf_plus`. The counter is a byte, and `checked_add` fails at 255.
  unfoldable pub blocks_on : ℕ → Prf → Bytes → Bytes → ℕ → Bytes → Bytes → ℕ → Result Bytes
  unfolding next_block
  blocks_on zero p key seed len output previous counter = err out_of_fuel
  blocks_on (suc fuel) p key seed len output previous counter =
      let block = next_block p key seed previous counter in
      let later = blocks_on fuel p key seed len (output ++ block) block (counter + 1) in
      if ltb (length output) len
      then (if ltb (counter + 1) (2 ^ 8) then later else err panicked)
      else ok (take len output)

  -- The counter ends the loop, so this is enough fuel.
  unfoldable pub prf_plus : Prf → Bytes → Bytes → ℕ → Result Bytes
  unfolding blocks_on
  prf_plus p key seed len = blocks_on (2 ^ 8) p key seed len [] [] 1

pub record IkeKeys : Type 0 where
  pub algorithms : IkeAlgorithms
  pub sk_d : Bytes
  pub outbound : Keys
  pub inbound : Keys
  pub sk_pi : Bytes
  pub sk_pr : Bytes

-- The length that `IkeKeys::derive` asks for.
unfoldable pub material_len : IkeAlgorithms → ℕ
unfolding prf_key_len
material_len set =
    prf_key_len set.prf_with
    + 2 * integrity_key_len set.integrity_with
    + 2 * key_len set.cipher
    + 2 * prf_key_len set.prf_with

-- The pieces in their order, SK_d | SK_ai | SK_ar | SK_ei | SK_er | SK_pi | SK_pr. They are in
-- bounds, since the material has their length.
unfoldable pub cut : IkeAlgorithms → Bytes → IkeKeys
unfolding prf_key_len
cut set material =
    let d = prf_key_len set.prf_with in
    let a = integrity_key_len set.integrity_with in
    let e = key_len set.cipher in
    record {
      algorithms = set;
      sk_d = piece material 0 d;
      outbound = record {
        cipher = set.cipher;
        integrity = set.integrity_with;
        encryption = piece material (d + a + a) e;
        integrity_key = piece material d a;
      };
      inbound = record {
        cipher = set.cipher;
        integrity = set.integrity_with;
        encryption = piece material (d + a + a + e) e;
        integrity_key = piece material (d + a) a;
      };
      sk_pi = piece material (d + a + a + e + e) d;
      sk_pr = piece material (d + a + a + e + e + d) d;
    }

-- `b"Key Pad for IKEv2"`
abbrev pub key_pad : Bytes
key_pad =
    75 ∷ 101 ∷ 121 ∷ 32 ∷ 80 ∷ 97 ∷ 100 ∷ 32 ∷ 102 ∷ 111 ∷ 114 ∷ 32 ∷ 73 ∷ 75 ∷ 69 ∷ 118 ∷ 50 ∷ []

module _ (lib : Primitives) where
  unfoldable pub skeyseed : Prf → Bytes → Bytes → Option Bytes → Bytes
  unfolding prf_of
  skeyseed p nonces shared none = prf_of lib p nonces shared
  skeyseed p nonces shared (some old) = prf_of lib p old (shared ++ nonces)

  abbrev pub seed_of : Bytes → ℕ → ℕ → Bytes
  seed_of nonces spi_i spi_r = (nonces ++ be64 spi_i) ++ be64 spi_r

  -- `IkeKeys::derive`
  unfoldable pub derive :
      IkeAlgorithms → ℕ → ℕ → Bytes → Bytes → Bytes → Option Bytes → Result IkeKeys
  unfolding skeyseed material_len cut prf_plus
  derive set spi_i spi_r nonce_i nonce_r shared old =
      let nonces = nonce_i ++ nonce_r in
      prf_plus lib set.prf_with (skeyseed set.prf_with nonces shared old)
        (seed_of nonces spi_i spi_r) (material_len set)
      and_then λ material. ok (cut set material)

  -- `shared.map(<[u8]>::to_vec).unwrap_or_default()`
  abbrev pub or_empty : Option Bytes → Bytes
  or_empty none = []
  or_empty (some bytes) = bytes

  -- `IkeKeys::child_keymat`
  unfoldable pub child_keymat : IkeKeys → Option Bytes → Bytes → Bytes → ℕ → Result Bytes
  unfolding prf_plus
  child_keymat self shared nonce_i nonce_r len =
      prf_plus lib self.algorithms.prf_with self.sk_d ((or_empty shared ++ nonce_i) ++ nonce_r) len

  -- `IkeKeys::signed_octets`
  unfoldable pub signed_octets : IkeKeys → Bytes → Bytes → Bytes → Identity → Bytes
  unfolding prf_of encode_identity
  signed_octets self message peer_nonce sk_p identity =
      (message ++ peer_nonce) ++ prf_of lib self.algorithms.prf_with sk_p (encode_identity identity)

  -- `IkeKeys::shared_secret_auth`
  unfoldable pub shared_secret_auth : IkeKeys → Bytes → Bytes → Bytes
  unfolding prf_of
  shared_secret_auth self secret octets =
      prf_of lib self.algorithms.prf_with (prf_of lib self.algorithms.prf_with secret key_pad)
        octets
