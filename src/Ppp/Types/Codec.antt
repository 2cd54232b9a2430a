-- ===== src/Ppp/Types/Codec.antt =====
-- The option codec of ppp.rs, both ways.
use openfortivpn_rs.Prelude.{
  All-take, refl, drop-append, ◌^◌, lt→ltb, take-append, ◌++◌, take, ◌∙◌, All, ◌+◌, length-append,
  Option, ◌<◌, none, length-take, take-append-drop, length-drop, IsByte, All-drop, ◌-◌, drop,
  IsBytes, [], ◌∷◌, arith, ◌≡◌, ◌≤◌, length, List, Bytes, ℕ, some, suc, zero,
}
use openfortivpn_rs.Ppp.Types.{Opt, parse_loop, parse_all, encode_all}

abbrev of_parts : ℕ → Bytes → Opt
of_parts kind value = record { kind = kind; value = value }

-- A successful turn of the loop: the length is in range, and the rest parses.
record Turn (fuel kind len : ℕ) (r : Bytes) (os : List Opt) : Type 0 where
  tail : List Opt
  at_least_two : 2 ≤ len
  in_range : len ≤ length r + 2
  parsed : parse_loop fuel (drop (len - 2) r) ≡ some tail
  found : os ≡ of_parts kind (take (len - 2) r) ∷ tail

turn_of :
    (fuel kind len : ℕ) (r : Bytes) (later : Option (List Opt)) {os : List Opt}
    → parse_loop fuel (drop (len - 2) r) ≡ later
    → parse_loop (suc fuel) (kind ∷ len ∷ r) ≡ some os
    → Turn fuel kind len r os
unfolding parse_loop
turn_of fuel kind len r none e h = absurd (ground arith)
turn_of fuel kind len r (some tail) e h = record {
  tail = tail;
  at_least_two = ground arith;
  in_range = ground arith;
  parsed = e;
  found = ground arith;
}

encode_all-cons :
    (kind len : ℕ) (r later : Bytes) (os : List Opt)
    → len < 2 ^ 8
    → 2 ≤ len
    → len ≤ length r + 2
    → encode_all os ≡ some later
    → encode_all (of_parts kind (take (len - 2) r) ∷ os)
      ≡ some (kind ∷ len ∷ (take (len - 2) r ++ later))
unfolding encode_all
encode_all-cons kind len r later os b two range e =
    let e' : length (take (len - 2) r) + 2 ≡ len = omega (arith, length-take (len - 2) r) in
    rw (e, e') (rw (lt→ltb len (2 ^ 8) b))

encode_all-parse_loop :
    (fuel : ℕ) (r : Bytes) {os : List Opt}
    → IsBytes r
    → length r ≤ fuel
    → parse_loop fuel r ≡ some os
    → encode_all os ≡ some r
encode_all-parse_loop fuel [] b f h = unfold parse_loop encode_all in ground arith
encode_all-parse_loop fuel (kind ∷ []) b f h = unfold parse_loop in cc h
encode_all-parse_loop zero (kind ∷ len ∷ r) b f h = absurd (omega arith)
encode_all-parse_loop (suc fuel) (kind ∷ len ∷ r) b f h =
    let t = turn_of fuel kind len r _ refl h in
    let later =
      encode_all-parse_loop fuel (drop (len - 2) r) (All-drop IsByte (len - 2) r b.1.1)
        (omega (arith, length-drop (len - 2) r)) t.parsed in
    rw t.found (
      encode_all-cons kind len r _ t.tail b.1.0 t.at_least_two t.in_range later
      ∙ rw (take-append-drop (len - 2) r))

-- What an option list has to satisfy for `encode_all` not to panic.
abbrev pub IsShort : Opt → Type 0
IsShort o = length o.value + 2 < 2 ^ 8

-- Options parsed from bytes are encoded, with no panic, to the very bytes that they were read from.
pub encode_all-parse_all :
    (bytes : Bytes) {os : List Opt}
    → IsBytes bytes
    → parse_all bytes ≡ some os
    → encode_all os ≡ some bytes
unfolding parse_all
encode_all-parse_all bytes b h = encode_all-parse_loop (length bytes) bytes b (omega arith) h

abbrev pub opts_bytes : List Opt → Bytes
opts_bytes [] = []
opts_bytes (o ∷ os) = o.kind ∷ (length o.value + 2) ∷ (o.value ++ opts_bytes os)

pub encode_all-opts_bytes : (os : List Opt) → All IsShort os → encode_all os ≡ some (opts_bytes os)
unfolding encode_all
encode_all-opts_bytes [] h = refl
encode_all-opts_bytes (o ∷ os) h =
    rw (encode_all-opts_bytes os h.1) (rw (lt→ltb (length o.value + 2) (2 ^ 8) h.0))

parse_loop-opts_bytes :
    (fuel : ℕ) (os : List Opt) → length os ≤ fuel → parse_loop fuel (opts_bytes os) ≡ some os
unfolding parse_loop
parse_loop-opts_bytes fuel [] h = refl
parse_loop-opts_bytes zero (o ∷ os) h = absurd (omega arith)
parse_loop-opts_bytes (suc fuel) (o ∷ os) h =
    let e : length o.value + 2 - 2 ≡ length o.value = omega arith in
    rw e (
      rw (take-append o.value (opts_bytes os), drop-append o.value (opts_bytes os))
        (rw (parse_loop-opts_bytes fuel os (omega arith))
          (ground (arith, length-append o.value (opts_bytes os)))))

length-opts_bytes : (os : List Opt) → length os ≤ length (opts_bytes os)
length-opts_bytes [] = omega arith
length-opts_bytes (o ∷ os) =
    omega (arith, length-opts_bytes os, length-append o.value (opts_bytes os))

-- Options short enough for their length byte are encoded with no panic, and parsing gives them back.
pub parse_all-encode_all :
    (os : List Opt)
    → All IsShort os
    → (bytes : Bytes) × (encode_all os ≡ some bytes) × (parse_all bytes ≡ some os)
unfolding parse_all
parse_all-encode_all os h = (
  opts_bytes os,
  encode_all-opts_bytes os h,
  parse_loop-opts_bytes (length (opts_bytes os)) os (length-opts_bytes os),
)

-- The option's data are bytes and fit its length byte.
pub record IsOpt (o : Opt) : Type 0 where
  pub short : IsShort o
  pub bytes : IsBytes o.value

parse_loop-IsOpt :
    (fuel : ℕ) (r : Bytes) {os : List Opt}
    → IsBytes r
    → length r ≤ fuel
    → parse_loop fuel r ≡ some os
    → All IsOpt os
parse_loop-IsOpt fuel [] {os = []} b f h = tt
parse_loop-IsOpt fuel [] {os = o ∷ os} b f h = absurd (unfold parse_loop in ground arith)
parse_loop-IsOpt fuel (kind ∷ []) b f h = absurd (unfold parse_loop in ground arith)
parse_loop-IsOpt zero (kind ∷ len ∷ r) b f h = absurd (omega arith)
parse_loop-IsOpt (suc fuel) (kind ∷ len ∷ r) b f h =
    let t = turn_of fuel kind len r _ refl h in
    let later =
      parse_loop-IsOpt fuel (drop (len - 2) r) (All-drop IsByte (len - 2) r b.1.1)
        (omega (arith, length-drop (len - 2) r)) t.parsed in
    rw t.found (
      record {
        short = omega (arith, length-take (len - 2) r, t.in_range, b.1.0, t.at_least_two);
        bytes = All-take IsByte (len - 2) r b.1.1;
      },
      later,
    )

-- Every option parsed from bytes has bytes for its data, and is short enough to be encoded.
pub parse_all-IsOpt :
    (bytes : Bytes) {os : List Opt} → IsBytes bytes → parse_all bytes ≡ some os → All IsOpt os
unfolding parse_all
parse_all-IsOpt bytes b h = parse_loop-IsOpt (length bytes) bytes b (omega arith) h

pub IsOpt-IsShort : (os : List Opt) → All IsOpt os → All IsShort os
IsOpt-IsShort [] h = tt
IsOpt-IsShort (o ∷ os) h = (h.0.short, IsOpt-IsShort os h.1)

pub opts_bytes-parse_all :
    (bytes : Bytes) {os : List Opt}
    → IsBytes bytes
    → parse_all bytes ≡ some os
    → opts_bytes os ≡ bytes
opts_bytes-parse_all bytes {os} b h = cc (
  encode_all-opts_bytes os (IsOpt-IsShort os (parse_all-IsOpt bytes b h)),
  encode_all-parse_all bytes b h,
)
