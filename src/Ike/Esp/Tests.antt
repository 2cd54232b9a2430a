-- ===== src/Ike/Esp/Tests.antt =====
-- ESP of child.rs with ciphers that are simple enough to compute.
use openfortivpn_rs.Ike.Cipher.Plain.{plain-laws, plain}
use openfortivpn_rs.Ike.Replay.{accept, fresh}
use openfortivpn_rs.Ike.Result.{ok}
use openfortivpn_rs.Prelude.{
  zeros, Bytes, refl, ◌≡◌, inr, false, some, ℕ, ◌++◌, [], true, ◌∷◌, arith, none, false, true, some,
  none, inr, refl, ◌∷◌, [],
}
use openfortivpn_rs.Ike.Cipher.{verify, decrypt, aes_cbc, hmac_sha256_128}
use openfortivpn_rs.Ike.Esp.{
  open_esp, accept, EspAlgorithms, ChildSa, EspKeys, encapsulate, decapsulate,
}
use openfortivpn_rs.Ike.Esp.Replays.{decapsulate_again}
use openfortivpn_rs.Ike.Result.{replayed, fail}
use openfortivpn_rs.Ike.Esp.RoundTrip.{decapsulate-encapsulate}

abbrev algorithms : EspAlgorithms
algorithms = record { cipher = aes_cbc 256; integrity = hmac_sha256_128; group = none }

abbrev keys : ℕ → EspKeys
keys b = record { encryption = b ∷ zeros 31; integrity = b ∷ zeros 31 }

abbrev side : ℕ → ℕ → EspKeys → EspKeys → ChildSa
side spi_in spi_out outbound inbound = record {
  spi_in = spi_in;
  spi_out = spi_out;
  algorithms = algorithms;
  ts_i = [];
  ts_r = [];
  replaced = false;
  outbound = outbound;
  inbound = inbound;
  seq_out = 0;
  replay = fresh;
  created = 0;
  bytes_out = 0;
  bytes_in = 0;
}

abbrev ours : ChildSa
ours = side 1 2 (keys 7) (keys 9)

abbrev theirs : ChildSa
theirs = side 2 1 (keys 9) (keys 7)

first_accepted : (accept fresh 1).1 ≡ true
unfolding accept
first_accepted = refl

decapsulate-encapsulate_example :
    (esp : Bytes) × ((encapsulate plain (zeros 16) ours (69 ∷ 0 ∷ [])).1 ≡ ok esp)
    × ((decapsulate plain theirs esp).1 ≡ ok (some (69 ∷ 0 ∷ [])))
decapsulate-encapsulate_example =
    decapsulate-encapsulate plain plain-laws (zeros 16) ours theirs (69 ∷ 0 ∷ [])
      (record { same_algorithms = refl; same_keys = refl; same_spi = refl })
      (record { cipher_known = inr (inr refl); key_fits = refl; alone = λ e. cc e }) refl
      (omega arith) (omega arith) (omega arith) first_accepted

abbrev keymat : Bytes
keymat = zeros 128

-- One packet of ours, by the ciphers of this test: its head, an IV, three blocks, and a checksum.
abbrev one_esp : Bytes
one_esp = 0 ∷ 0 ∷ 0 ∷ 2 ∷ 0 ∷ 0 ∷ 0 ∷ 1 ∷ (zeros 16 ++ ((69 ∷ 0 ∷ zeros 12) ++ (12 ∷ 4 ∷ zeros 16)))

one_esp_taken : (decapsulate plain theirs one_esp).1 ≡ ok (some (69 ∷ 0 ∷ []))
unfolding decapsulate decrypt open_esp accept verify
one_esp_taken = refl

decapsulate_again_example :
    (decapsulate plain (decapsulate plain theirs one_esp).0 one_esp).1 ≡ fail (replayed 1)
decapsulate_again_example = decapsulate_again plain theirs one_esp refl one_esp_taken
