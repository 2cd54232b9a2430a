-- ===== src/Text.antt =====
-- Text as its UTF-8 bytes: `from_utf8` and `from_utf8_lossy` of Rust's standard library, which
-- replaces each ill-formed piece, the longest prefix of a character or one byte, by U+FFFD.
use openfortivpn_rs.Prelude.{
  false, false, if_elim, arith, not, ◌-◌, ℕ, Bool, true, Bytes, leb, ◌&&◌, ◌==◌, if◌then◌else◌, [],
  ◌∷◌, ◌++◌, ◌≡◌, refl, append_assoc, ap, ◌∙◌,
}

abbrev pub same_text : Bytes → Bytes → Bool
same_text [] [] = true
same_text [] (b ∷ bytes) = false
same_text (a ∷ bytes) [] = false
same_text (a ∷ first) (b ∷ second) = (a == b) && same_text first second

-- What a character that has begun still needs: how many bytes, and the range of the next.
pub record Wanted : Type 0 where
  pub count : ℕ
  pub lowest : ℕ
  pub highest : ℕ

abbrev wanted : ℕ → ℕ → ℕ → Wanted
wanted count lowest highest = record { count = count; lowest = lowest; highest = highest }

-- What a leading byte announces: `zero` bytes for ASCII; a count of 4 marks no leading byte.
unfoldable pub lead : ℕ → Wanted
lead b =
    if leb b 127
    then wanted 0 0 0
    else if leb b 193
    then wanted 4 0 0
    else if leb b 223
    then wanted 1 128 191
    else if b == 224
    then wanted 2 160 191
    else if b == 237
    then wanted 2 128 159
    else if leb b 239
    then wanted 2 128 191
    else if b == 240
    then wanted 3 144 191
    else if leb b 243
    then wanted 3 128 191
    else if b == 244
    then wanted 3 128 143
    else wanted 4 0 0

abbrev pub fits : Wanted → ℕ → Bool
fits w b = leb w.lowest b && leb b w.highest

abbrev pub replacement : Bytes
replacement = 239 ∷ 191 ∷ 189 ∷ []

-- What is needed after a byte that is taken.
unfoldable pub after_byte : Wanted → ℕ → Wanted
unfolding lead
after_byte w b = if w.count == 0 then lead b else wanted (w.count - 1) 128 191

unfoldable pub is_taken : Wanted → ℕ → Bool
unfolding lead
is_taken w b = if w.count == 0 then not ((lead b).count == 4) else fits w b

-- `str::from_utf8`, once something is needed: whether the rest is well-formed.
abbrev pub valid_from : Wanted → Bytes → Bool
valid_from w [] = w.count == 0
valid_from w (b ∷ r) = is_taken w b && valid_from (after_byte w b) r

abbrev pub nothing_wanted : Wanted
nothing_wanted = wanted 0 0 0

abbrev pub is_utf8 : Bytes → Bool
is_utf8 text = valid_from nothing_wanted text

-- A character that is complete goes out with what went out before.
abbrev settle : Bytes → Wanted → Bytes → Bytes × (Wanted × Bytes)
settle out w held = if w.count == 0 then (out ++ held, (w, [])) else (out, (w, held))

-- A byte that begins a character, or that is replaced.
unfoldable pub begin_with : Bytes → ℕ → Bytes × (Wanted × Bytes)
unfolding lead
begin_with out b =
    if (lead b).count == 4
    then (out ++ replacement, (nothing_wanted, []))
    else settle out (lead b) (b ∷ [])

-- The next byte, with the part `held` of a character that has begun: what goes out, and then.
unfoldable pub turn : Wanted → Bytes → ℕ → Bytes × (Wanted × Bytes)
unfolding begin_with
turn w held b =
    if w.count == 0
    then begin_with [] b
    else if fits w b
    then settle [] (wanted (w.count - 1) 128 191) (held ++ b ∷ [])
    else begin_with replacement b

abbrev pub lossy_from : Wanted → Bytes → Bytes → Bytes
lossy_from w held [] = if w.count == 0 then [] else replacement
lossy_from w held (b ∷ r) = let (out, (need, kept)) = turn w held b in out ++ lossy_from need kept r

-- `String::from_utf8_lossy`
abbrev pub from_utf8_lossy : Bytes → Bytes
from_utf8_lossy bytes = lossy_from nothing_wanted [] bytes

-- A turn at a byte that is taken.
turn-is_taken :
    (w : Wanted) (held : Bytes) (b : ℕ)
    → is_taken w b ≡ true
    → (w.count ≡ 0 → held ≡ [])
    → turn w held b ≡ settle [] (after_byte w b) (held ++ b ∷ [])
unfolding turn is_taken after_byte begin_with
turn-is_taken w held b h e = ground arith

pub both_true : (a b : Bool) → (a && b) ≡ true → (a ≡ true) × (b ≡ true)
both_true a b h = ground arith

-- What follows a turn that settles, when what follows leaves the text as it is.
lossy_from-settle :
    (w : Wanted) (kept r : Bytes) (t : Bytes × (Wanted × Bytes))
    → t ≡ settle [] w kept
    → ((held : Bytes) → (w.count ≡ 0 → held ≡ []) → lossy_from w held r ≡ held ++ r)
    → t.0 ++ lossy_from t.1.0 t.1.1 r ≡ kept ++ r
lossy_from-settle w kept r t e next = rw e (
    if_elim {A = Bytes × (Wanted × Bytes)} (λ s. s.0 ++ lossy_from s.1.0 s.1.1 r ≡ kept ++ r)
      (w.count == 0) (kept, (w, [])) ([], (w, kept))
      (λ z. ap (λ rest. kept ++ rest) (next [] (λ _. refl))) (λ n. next kept (λ z. ground arith)))

-- Well-formed text is left as it is.
lossy_from-valid_from :
    (w : Wanted) (held r : Bytes)
    → valid_from w r ≡ true
    → (w.count ≡ 0 → held ≡ [])
    → lossy_from w held r ≡ held ++ r
lossy_from-valid_from w held [] h e = ground arith
lossy_from-valid_from w held (b ∷ r) h e =
    let v = both_true (is_taken w b) (valid_from (after_byte w b) r) h in
    lossy_from-settle (after_byte w b) (held ++ b ∷ []) r (turn w held b)
      (turn-is_taken w held b v.0 e) (λ kept c. lossy_from-valid_from (after_byte w b) kept r v.1 c)
    ∙ append_assoc held (b ∷ []) r

pub from_utf8_lossy-is_utf8 : (text : Bytes) → is_utf8 text ≡ true → from_utf8_lossy text ≡ text
from_utf8_lossy-is_utf8 text h = lossy_from-valid_from nothing_wanted [] text h (λ _. refl)
