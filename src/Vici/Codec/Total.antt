-- ===== src/Vici/Codec/Total.antt =====
-- The loop of `Section::decode` ends.
use openfortivpn_rs.Vici.Codec.Bounds.{element-Progresses, Progresses}
use openfortivpn_rs.Vici.Message.{Section}
use openfortivpn_rs.Vici.Result.{Result, Error, out_of_fuel}
use openfortivpn_rs.Vici.Codec.{
  max_depth, root, add_value, message_size_max, finish, only_root, close_list, read_name,
  decode_section, Progress, elements, section_end, list_end, key_value_read, take_bytes, read_value,
  end_section, element, list_start, section_start, list_value_read,
}
use openfortivpn_rs.Prelude.{
  subst, ◌+◌, is_some, length, Gives, failed, arith, false, Bytes, none, refl, if_elim, Option,
  true, List, ◌≢◌, ◌≡◌, [], ◌∷◌, suc, from_be16, zero, ltb, ℕ, ◌followed_by◌, done, Bool, ◌≤◌, some,
  get_or, false, true, some, none, refl, suc, zero, ◌∷◌, [],
}

abbrev is_spent : Error → Bool
is_spent out_of_fuel = true
is_spent other = false

abbrev pub Ends : {T : Type 0} → Result T → Type 0
Ends (failed why) = is_spent why ≡ false
Ends (done value) = Unit

Ends-followed_by :
    {T U : Type 0} (P : T → Type 0) (r : Result T) (next : T → Result U)
    → Ends r
    → Gives P r
    → ((value : T) → P value → Ends (next value))
    → Ends (r followed_by next)
Ends-followed_by P (failed why) next e g h = e
Ends-followed_by P (done value) next e g h = h value g

take_bytes-Ends : (len : ℕ) (r : Bytes) → Ends (take_bytes len r)
unfolding take_bytes
take_bytes-Ends len r = ground arith

Ends-then :
    {T U : Type 0} (r : Result T) (next : T → Result U)
    → Ends r
    → ((value : T) → Ends (next value))
    → Ends (r followed_by next)
Ends-then (failed why) next e h = e
Ends-then (done value) next e h = h value

pub read_name-Ends : (r : Bytes) → Ends (read_name r)
unfolding read_name
read_name-Ends [] = refl
read_name-Ends (len ∷ r) = Ends-then (take_bytes len r) _ (take_bytes-Ends len r) (λ t. tt)

read_value-Ends : (r : Bytes) → Ends (read_value r)
unfolding read_value
read_value-Ends r =
    Ends-then (take_bytes 2 r) _ (take_bytes-Ends 2 r)
      (λ len. take_bytes-Ends (from_be16 (get_or len.0 0 0) (get_or len.0 1 0)) len.1)

section_start-Ends : (r : Bytes) (self : Progress) → Ends (section_start r self)
unfolding section_start
section_start-Ends r self =
    if_elim {A = Result (Bytes × Progress)} Ends (is_some self.open_list) _ _ (λ _. refl)
      (λ _.
        if_elim {A = Result (Bytes × Progress)} Ends (ltb max_depth (length self.around + 1)) _ _
          (λ _. refl) (λ _. Ends-then (read_name r) _ (read_name-Ends r) (λ t. tt)))

around_cases :
    (name : Bytes) (current : Section) (around : List (Bytes × Section))
    (opened : Option (Bytes × List Bytes))
    → Ends (
        end_section
          (record { name = name; current = current; around = around; open_list = opened }))
unfolding end_section
around_cases name current [] opened = refl
around_cases name current (outer ∷ others) opened = tt

section_end-Ends : (r : Bytes) (self : Progress) → Ends (section_end r self)
unfolding section_end
section_end-Ends r self =
    if_elim {A = Result (Bytes × Progress)} Ends (is_some self.open_list) _ _ (λ _. refl)
      (λ _.
        Ends-then (end_section self) _
          (around_cases self.name self.current self.around self.open_list) (λ t. tt))

key_value_read-Ends : (r : Bytes) (self : Progress) → Ends (key_value_read r self)
unfolding key_value_read
key_value_read-Ends r self =
    if_elim {A = Result (Bytes × Progress)} Ends (is_some self.open_list) _ _ (λ _. refl)
      (λ _.
        Ends-then (read_name r) _ (read_name-Ends r)
          (λ key. Ends-then (read_value key.1) _ (read_value-Ends key.1) (λ value. tt)))

list_start-Ends : (r : Bytes) (self : Progress) → Ends (list_start r self)
unfolding list_start
list_start-Ends r self =
    if_elim {A = Result (Bytes × Progress)} Ends (is_some self.open_list) _ _ (λ _. refl)
      (λ _. Ends-then (read_name r) _ (read_name-Ends r) (λ t. tt))

add_value-Ends :
    (value : Bytes × Bytes) (self : Progress) (opened : Option (Bytes × List Bytes))
    → Ends (add_value value self opened)
add_value-Ends value self none = refl
add_value-Ends value self (some opened) = tt

list_value_read-Ends : (r : Bytes) (self : Progress) → Ends (list_value_read r self)
unfolding list_value_read
list_value_read-Ends r self =
    Ends-then (read_value r) _ (read_value-Ends r)
      (λ value. add_value-Ends value self self.open_list)

close_list-Ends :
    (r : Bytes) (self : Progress) (opened : Option (Bytes × List Bytes))
    → Ends (close_list r self opened)
close_list-Ends r self none = refl
close_list-Ends r self (some opened) = tt

list_end-Ends : (r : Bytes) (self : Progress) → Ends (list_end r self)
unfolding list_end
list_end-Ends r self = close_list-Ends r self self.open_list

element-Ends : (kind : ℕ) (r : Bytes) (self : Progress) → Ends (element kind r self)
unfolding element
element-Ends kind r self = ground (
  arith,
  section_start-Ends r self,
  section_end-Ends r self,
  key_value_read-Ends r self,
  list_start-Ends r self,
  list_value_read-Ends r self,
  list_end-Ends r self,
)

only_root-Ends :
    (current : Section) (around : List (Bytes × Section)) → Ends (only_root current around)
only_root-Ends current [] = tt
only_root-Ends current (outer ∷ others) = refl

elements-Ends :
    (r : Bytes) (fuel : ℕ) (self : Progress) → length r ≤ fuel → Ends (elements r fuel self)
unfolding elements finish
elements-Ends [] fuel self h =
    if_elim {A = Result Section} Ends (is_some self.open_list) _ _ (λ _. refl)
      (λ _. only_root-Ends self.current self.around)
elements-Ends (kind ∷ r) zero self h = ground (arith, h)
elements-Ends (kind ∷ r) (suc fuel) self h =
    Ends-followed_by (Progresses r self) (element kind r self) _ (element-Ends kind r self)
      (element-Progresses kind r self)
      (λ next p. elements-Ends next.0 fuel next.1 (omega (arith, p.0, h)))

pub decode_section-Ends : (bytes : Bytes) → Ends (decode_section bytes)
unfolding decode_section
decode_section-Ends bytes =
    if_elim {A = Result Section} Ends (ltb message_size_max (length bytes)) _ _ (λ _. refl)
      (λ _. elements-Ends bytes (length bytes) root (omega arith))

-- The loop that decodes a section ends on any bytes.
pub decode_section-ne-out_of_fuel : (bytes : Bytes) → decode_section bytes ≢ failed out_of_fuel
decode_section-ne-out_of_fuel bytes e =
    let spent = subst (Ends {T = Section}) e (decode_section-Ends bytes) in ground (arith, spent)
