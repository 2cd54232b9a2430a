-- ===== src/Vici/Codec/Bounds.antt =====
-- The nesting of what `Section::decode` gives, and the end of its loop.
use openfortivpn_rs.Vici.Result.{Result}
use openfortivpn_rs.Vici.Codec.Elements.{height_item, height}
use openfortivpn_rs.Vici.Codec.{
  root, close_list, add_value, message_size_max, only_root, finish, elements, decode_section,
  max_depth, is_open, section_end, list_start, list_end, section_start, key_value_read,
  list_value_read, read_name, take_bytes, read_value, push_item, Progress, end_section, element,
}
use openfortivpn_rs.Vici.Message.{
  list_item, key_value, nothing, item_then, section_item, Item, push_back, Section,
}
use openfortivpn_rs.Prelude.{
  Gives-done, zero, some, none, suc, some, none, suc, zero, failed, if_elim, get_or, ltb, from_be16,
  length-drop, Gives-followed_by, Gives, length, max, arith, done, [], ◌≤◌, List, ◌≡◌, ◌+◌, Option,
  ◌∷◌, ℕ, Bytes, ◌∷◌, [],
}

height-push_back :
    (self : Section) (item : Item)
    → height (push_back self item) ≡ max (height self) (height_item item)
unfolding push_back
height-push_back nothing item = omega arith
height-push_back (item_then one others) item = omega (arith, height-push_back others item)

-- Each section being filled is nested no deeper than its place leaves.
abbrev AreShallow : List (Bytes × Section) → Type 0
AreShallow [] = Unit
AreShallow (outer ∷ others) = (length others + height outer.1 ≤ 64) × AreShallow others

abbrev IsShallow : Progress → Type 0
IsShallow self = (length self.around + height self.current ≤ 64) × AreShallow self.around

push_item-IsShallow :
    (self : Progress) (item : Item)
    → IsShallow self
    → length self.around + height_item item ≤ 64
    → IsShallow (push_item self item)
push_item-IsShallow self item h d = (omega (arith, h.0, d, height-push_back self.current item), h.1)

-- What a step leaves is no longer than what it had, and sections stay as shallow as they were.
abbrev pub Progresses : Bytes → Progress → Bytes × Progress → Type 0
Progresses r self next = (length next.0 ≤ length r) × (IsShallow self → IsShallow next.1)

abbrev IsLeft : Bytes → Bytes × Bytes → Type 0
IsLeft r t = length t.1 ≤ length r

take_bytes-IsLeft : (len : ℕ) (r : Bytes) → Gives (IsLeft r) (take_bytes len r)
unfolding take_bytes
take_bytes-IsLeft len r = ground (arith, length-drop len r)

read_name-IsLeft : (r : Bytes) → Gives (IsLeft r) (read_name r)
unfolding read_name
read_name-IsLeft [] = tt
read_name-IsLeft (len ∷ r) =
    Gives-followed_by (IsLeft r) (IsLeft (len ∷ r)) (take_bytes len r) _ (take_bytes-IsLeft len r)
      (λ t h. omega (arith, h))

IsLeft-trans :
    (r before : Bytes) (read : Result (Bytes × Bytes))
    → length r ≤ length before
    → Gives (IsLeft r) read
    → Gives (IsLeft before) read
IsLeft-trans r before (failed why) h g = tt
IsLeft-trans r before (done t) h g = omega (arith, h, g)

read_value-IsLeft : (r : Bytes) → Gives (IsLeft r) (read_value r)
unfolding read_value
read_value-IsLeft r =
    Gives-followed_by (IsLeft r) (IsLeft r) (take_bytes 2 r) _ (take_bytes-IsLeft 2 r) (λ t h.
      IsLeft-trans t.1 r _ h (take_bytes-IsLeft (from_be16 (get_or t.0 0 0) (get_or t.0 1 0)) t.1))

end_section-IsShallow :
    (name : Bytes) (current : Section) (around : List (Bytes × Section))
    (opened : Option (Bytes × List Bytes))
    → Gives
        (λ next. (length around + height current ≤ 64) × AreShallow around → IsShallow next)
        (end_section
          (record { name = name; current = current; around = around; open_list = opened }))
unfolding end_section
end_section-IsShallow name current [] opened = tt
end_section-IsShallow name current (outer ∷ others) opened =
    λ h. (omega (arith, h.0, h.1.0, height-push_back outer.1 (section_item name current)), h.1.1)

section_start-Progresses :
    (r : Bytes) (self : Progress) → Gives (Progresses r self) (section_start r self)
unfolding section_start
section_start-Progresses r self =
    if_elim {A = Result (Bytes × Progress)} (Gives (Progresses r self)) (is_open self) _ _ (λ _. tt)
      (λ _.
        if_elim {A = Result (Bytes × Progress)} (Gives (Progresses r self))
          (ltb max_depth (length self.around + 1)) _ _ (λ _. tt)
          (λ small.
            Gives-followed_by (IsLeft r) (Progresses r self) (read_name r) _ (read_name-IsLeft r)
              (λ t h. (h, λ s. (ground (arith, small), s)))))

section_end-Progresses :
    (r : Bytes) (self : Progress) → Gives (Progresses r self) (section_end r self)
unfolding section_end
section_end-Progresses r self =
    if_elim {A = Result (Bytes × Progress)} (Gives (Progresses r self)) (is_open self) _ _ (λ _. tt)
      (λ _.
        Gives-followed_by (λ next. IsShallow self → IsShallow next) (Progresses r self)
          (end_section self) _
          (end_section-IsShallow self.name self.current self.around self.open_list)
          (λ outer h. (omega arith, h)))

key_value_read-Progresses :
    (r : Bytes) (self : Progress) → Gives (Progresses r self) (key_value_read r self)
unfolding key_value_read
key_value_read-Progresses r self =
    if_elim {A = Result (Bytes × Progress)} (Gives (Progresses r self)) (is_open self) _ _ (λ _. tt)
      (λ _.
        Gives-followed_by (IsLeft r) (Progresses r self) (read_name r) _ (read_name-IsLeft r)
          (λ key k.
            Gives-followed_by (IsLeft key.1) (Progresses r self) (read_value key.1) _
              (read_value-IsLeft key.1)
              (λ value v. (
                omega (arith, k, v),
                λ s. push_item-IsShallow self (key_value key.0 value.0) s (omega (arith, s.0)),
              ))))

list_start-Progresses :
    (r : Bytes) (self : Progress) → Gives (Progresses r self) (list_start r self)
unfolding list_start
list_start-Progresses r self =
    if_elim {A = Result (Bytes × Progress)} (Gives (Progresses r self)) (is_open self) _ _ (λ _. tt)
      (λ _.
        Gives-followed_by (IsLeft r) (Progresses r self) (read_name r) _ (read_name-IsLeft r)
          (λ t h. (h, λ s. s)))

add_value-Progresses :
    (r : Bytes) (value : Bytes × Bytes) (self : Progress) (opened : Option (Bytes × List Bytes))
    → IsLeft r value
    → Gives (Progresses r self) (add_value value self opened)
add_value-Progresses r value self none h = tt
add_value-Progresses r value self (some opened) h = (h, λ s. s)

close_list-Progresses :
    (r : Bytes) (self : Progress) (opened : Option (Bytes × List Bytes))
    → Gives (Progresses r self) (close_list r self opened)
close_list-Progresses r self none = tt
close_list-Progresses r self (some opened) = (
  omega arith,
  λ s.
      push_item-IsShallow (record self { open_list = none }) (list_item opened.0 opened.1) s
        (omega (arith, s.0)),
)

list_value_read-Progresses :
    (r : Bytes) (self : Progress) → Gives (Progresses r self) (list_value_read r self)
unfolding list_value_read
list_value_read-Progresses r self =
    Gives-followed_by (IsLeft r) (Progresses r self) (read_value r) _ (read_value-IsLeft r)
      (λ value h. add_value-Progresses r value self self.open_list h)

list_end-Progresses : (r : Bytes) (self : Progress) → Gives (Progresses r self) (list_end r self)
unfolding list_end
list_end-Progresses r self = close_list-Progresses r self self.open_list

pub element-Progresses :
    (kind : ℕ) (r : Bytes) (self : Progress) → Gives (Progresses r self) (element kind r self)
unfolding element
element-Progresses kind r self = ground (
  arith,
  section_start-Progresses r self,
  section_end-Progresses r self,
  key_value_read-Progresses r self,
  list_start-Progresses r self,
  list_value_read-Progresses r self,
  list_end-Progresses r self,
)

-- The loop gives a section whose place allows for its nesting.
only_root-height :
    (current : Section) (around : List (Bytes × Section))
    → length around + height current ≤ 64
    → Gives (λ s. height s ≤ 64) (only_root current around)
only_root-height current [] h = omega (arith, h)
only_root-height current (outer ∷ others) h = tt

elements-height :
    (r : Bytes) (fuel : ℕ) (self : Progress)
    → IsShallow self
    → Gives (λ s. height s ≤ 64) (elements r fuel self)
unfolding elements finish
elements-height [] fuel self s =
    if_elim {A = Result Section} (Gives (λ s. height s ≤ 64)) (is_open self) _ _ (λ _. tt)
      (λ _. only_root-height self.current self.around s.0)
elements-height (kind ∷ r) zero self s = tt
elements-height (kind ∷ r) (suc fuel) self s =
    Gives-followed_by (Progresses r self) (λ s. height s ≤ 64) (element kind r self) _
      (element-Progresses kind r self) (λ next p. elements-height next.0 fuel next.1 (p.1 s))

-- What is decoded has its sections nested 64 deep at most, so the recursions on it are shallow.
pub height-decode_section :
    (bytes : Bytes) (self : Section) → decode_section bytes ≡ done self → height self ≤ 64
unfolding decode_section
height-decode_section bytes self e =
    Gives-done (λ s. height s ≤ 64) (decode_section bytes) self
      (if_elim {A = Result Section} (Gives (λ s. height s ≤ 64))
        (ltb message_size_max (length bytes)) _ _ (λ _. tt)
        (λ _. elements-height bytes (length bytes) root (omega arith, tt)))
      e
