-- ===== src/Ike/Esp.antt =====
-- crates/ikev2/src/child.rs: `ChildSa`, which wraps packets in ESP and unwraps them.
pub mod Padding
pub mod RoundTrip
pub mod Keying
pub mod Replays
mod Tests
use openfortivpn_rs.Ike.Cipher.Sealing.{open_behind, seal_behind}
use openfortivpn_rs.Ike.Result.{
  bad_esp_padding, unknown_spi, esp_too_short, empty_esp, replayed, fail, crypto, ◌and_then◌,
  Result, Error, err, ok,
}
use openfortivpn_rs.Prelude.{
  if◌then◌else◌, length, [], get_or, not, ◌∷◌, zero, max, be64, false, be32, ◌*◌, drop, ℕ, ◌-◌,
  Bytes, ◌%◌, Bool, ◌==◌, suc, ◌++◌, none, some, ◌+◌, from_be32, List, Option, ltb, ◌^◌, false,
  some, none, suc, zero, ◌∷◌, [], take,
}
use openfortivpn_rs.Ike.Selector.{TrafficSelector}
use openfortivpn_rs.Ike.Replay.{Replay, fresh, accept}
use openfortivpn_rs.Ike.Cipher.{
  Cipher, Integrity, Primitives, is_aead, key_len, iv_len, block_len, icv_len, mac_len, ensure,
  integrity_key_len, encrypt, decrypt, mac, verify,
}

-- crates/ikev2/src/proposals.rs: `EspAlgorithms`; a group is its number.
pub record EspAlgorithms : Type 0 where
  pub cipher : Cipher
  pub integrity : Integrity
  pub group : Option ℕ

pub record EspKeys : Type 0 where
  pub encryption : Bytes
  pub integrity : Bytes

pub record ChildSa : Type 0 where
  pub spi_in : ℕ
  pub spi_out : ℕ
  pub algorithms : EspAlgorithms
  pub ts_i : List TrafficSelector
  pub ts_r : List TrafficSelector
  pub replaced : Bool
  pub outbound : EspKeys
  pub inbound : EspKeys
  pub seq_out : ℕ
  pub replay : Replay
  pub created : ℕ
  pub bytes_out : ℕ
  pub bytes_in : ℕ

-- The errors of crypto: keying material of the wrong size, and sequence numbers at their end.
abbrev pub wrong_keymat : Error
wrong_keymat = crypto 4

abbrev pub exhausted : Error
exhausted = crypto 5

unfoldable pub keymat_len : EspAlgorithms → ℕ
keymat_len algorithms = 2 * (key_len algorithms.cipher + integrity_key_len algorithms.integrity)

-- `keymat[cursor..cursor + len]`, in bounds since the length of the material was tested.
abbrev pub piece : Bytes → ℕ → ℕ → Bytes
piece keymat cursor len = take len (drop cursor keymat)

-- The keys at the cursor: of encryption, then of integrity.
abbrev pub keys_at : EspAlgorithms → Bytes → ℕ → EspKeys
keys_at algorithms keymat cursor =
    let e_len = key_len algorithms.cipher in
    record {
      encryption = piece keymat cursor e_len;
      integrity = piece keymat (cursor + e_len) (integrity_key_len algorithms.integrity);
    }

-- The SA that `ChildSa::new` makes of the pieces.
abbrev pub child_of :
    EspAlgorithms → ℕ × ℕ → Bytes → Bool → List TrafficSelector × List TrafficSelector → ℕ → ChildSa
child_of algorithms spis keymat initiated ts now =
    let first = keys_at algorithms keymat 0 in
    let second =
      keys_at algorithms keymat
        (key_len algorithms.cipher + integrity_key_len algorithms.integrity) in
    record {
      spi_in = spis.0;
      spi_out = spis.1;
      algorithms = algorithms;
      ts_i = ts.0;
      ts_r = ts.1;
      replaced = false;
      outbound = if initiated then first else second;
      inbound = if initiated then second else first;
      seq_out = 0;
      replay = fresh;
      created = now;
      bytes_out = 0;
      bytes_in = 0;
    }

-- `ChildSa::new`; `now` is `Instant::now()`.
unfoldable pub new_child :
    EspAlgorithms
    → ℕ × ℕ
    → Bytes
    → Bool
    → List TrafficSelector × List TrafficSelector
    → ℕ
    → Result ChildSa
unfolding keymat_len
new_child algorithms spis keymat initiated ts now =
    ensure (length keymat == keymat_len algorithms) wrong_keymat and_then λ _.
    ok (child_of algorithms spis keymat initiated ts now)

abbrev pub next_header_ipv4 : ℕ
next_header_ipv4 = 4

-- `(1..=pad_len)`
abbrev pub padding : ℕ → ℕ → Bytes
padding first zero = []
padding first (suc n) = first ∷ padding (first + 1) n

unfoldable pub pad_len : Cipher → Bytes → ℕ
pad_len cipher packet =
    let align = max (block_len cipher) 4 in (align - (length packet + 2) % align) % align

unfoldable pub padded : Cipher → Bytes → Bytes
unfolding pad_len
padded cipher packet =
    let count = pad_len cipher packet in
    packet ++ (padding 1 count ++ count ∷ next_header_ipv4 ∷ [])

-- The packet behind its head, sealed, with its checksum.
unfoldable pub seal : Primitives → EspAlgorithms → EspKeys → Bytes → Bytes → Bytes → Result Bytes
unfolding seal_behind
seal lib algorithms keys head iv plaintext =
    seal_behind lib algorithms.cipher algorithms.integrity keys.encryption keys.integrity head iv
      plaintext

abbrev pub sent : ChildSa → Bytes → Result Bytes → ChildSa × Result Bytes
sent self packet (ok out) =
    (record self { bytes_out = (self.bytes_out + length packet) % 2 ^ 64 }, ok out)
sent self packet (err e) = (self, err e)

-- `ChildSa::encapsulate`; `random` is the IV that `OsRng` fills for AES-CBC.
unfoldable pub encapsulate : Primitives → Bytes → ChildSa → Bytes → ChildSa × Result Bytes
unfolding padded seal
encapsulate lib random self packet =
    let seq = self.seq_out + 1 in
    let counted = record self { seq_out = seq } in
    let cipher = self.algorithms.cipher in
    let iv = if is_aead cipher then be64 seq else random in
    if self.seq_out == 2 ^ 32 - 1
    then (self, err exhausted)
    else sent counted packet (
        seal lib self.algorithms self.outbound (be32 self.spi_out ++ be32 seq) iv
          (padded cipher packet))

-- `split_last`
abbrev pub split_last : Bytes → Option (ℕ × Bytes)
split_last [] = none
split_last (b ∷ []) = some (b, [])
split_last (b ∷ c ∷ bytes) = elim (split_last (c ∷ bytes)) [
  | none ↦ none
  | some found ↦ some (found.0, b ∷ found.1)
]

abbrev pub unpad_with : ChildSa → ℕ → Option (ℕ × Bytes) → ChildSa × Result (Option Bytes)
unpad_with self next_header none = (self, fail empty_esp)
unpad_with self next_header (some (count, rest)) =
    let packet = take (length rest - count) rest in
    if ltb (length rest) count then (self, fail bad_esp_padding) else (
      record self { bytes_in = (self.bytes_in + length packet) % 2 ^ 64 },
      ok (if next_header == next_header_ipv4 then some packet else none),
    )

abbrev pub unpad : ChildSa → Option (ℕ × Bytes) → ChildSa × Result (Option Bytes)
unpad self none = (self, fail empty_esp)
unpad self (some (next_header, rest)) = unpad_with self next_header (split_last rest)

-- Behind decryption: the window is asked, then the padding is taken off.
abbrev pub opened_with : ChildSa → ℕ → Result Bytes → ChildSa × Result (Option Bytes)
opened_with self seq (err e) = (self, err e)
opened_with self seq (ok plaintext) =
    let (replay, answer) = accept self.replay seq in
    let kept = record self { replay = replay } in
    if answer then unpad kept (split_last plaintext) else (kept, fail (replayed seq))

-- The IV and the sealed rest of a packet, checked and decrypted.
unfoldable pub open_esp : Primitives → EspAlgorithms → EspKeys → Bytes → Result Bytes
unfolding open_behind
open_esp lib algorithms keys esp =
    let tag_len = icv_len algorithms.cipher + mac_len algorithms.integrity in
    open_behind lib algorithms.cipher algorithms.integrity keys.encryption keys.integrity 8 tag_len
      esp

abbrev pub word_at : Bytes → ℕ → ℕ
word_at bytes at =
    from_be32 (get_or bytes at 0) (get_or bytes (at + 1) 0) (get_or bytes (at + 2) 0)
      (get_or bytes (at + 3) 0)

-- `ChildSa::decapsulate`
unfoldable pub decapsulate : Primitives → ChildSa → Bytes → ChildSa × Result (Option Bytes)
unfolding open_esp
decapsulate lib self esp =
    let cipher = self.algorithms.cipher in
    let tag_len = icv_len cipher + mac_len self.algorithms.integrity in
    if ltb (length esp) (8 + iv_len cipher + tag_len)
    then (self, fail esp_too_short)
    else if not (word_at esp 0 == self.spi_in)
    then (self, fail (unknown_spi (word_at esp 0)))
    else opened_with self (word_at esp 4) (open_esp lib self.algorithms self.inbound esp)
