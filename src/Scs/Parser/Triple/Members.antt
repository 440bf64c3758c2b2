-- ===== src/Scs/Parser/Triple/Members.antt =====
-- What a type of sc-elements does to the type of a member.
use sc_memory_knowledge_sync.Base.{
  ◌||◌, inl, inr, Bool-cases, &&-true, refl, ap, sym, ◌∙◌, true, ◌⊎◌, arith, ◌≡◌, bit_or, bit_and,
  ℕ,
}
use sc_memory_knowledge_sync.Scs.Parser.Triple.{takes_type, new_type, retype, constancy}
use sc_memory_knowledge_sync.Scs.Parser.Element.{ParsedElement}
use sc_memory_knowledge_sync.Base.Words.{bit_or_zero}
use sc_memory_knowledge_sync.Base.Bits.{
  bit_and_assoc, bit_and_self, bit_at-bit_or, bit_at-bit_and, eq_of_bits,
}
use sc_memory_knowledge_sync.ScType.Methods.{can_extend_to}
use sc_memory_knowledge_sync.ScType.Methods.Keeps.{masks_agree}
use sc_memory_knowledge_sync.ScType.Extend.{complement}
use sc_memory_knowledge_sync.ScType.Extend.Branches.{compatible_cases}
use sc_memory_knowledge_sync.ScType.Flags.{sc_type_element_mask}

absorbed : (a b : ℕ) → bit_and (bit_or a b) a ≡ a
absorbed a b =
    eq_of_bits _ _ λ i. omega (arith, bit_at-bit_and i (bit_or a b) a, bit_at-bit_or i a b)

bit_or_self : (a : ℕ) → bit_or a a ≡ a
bit_or_self a = eq_of_bits _ _ λ i. omega (arith, bit_at-bit_or i a a)

-- A part of the flags: what had none may take some, what had some keeps them.
abbrev pub KeepsPart : ℕ → ℕ → ℕ → Type 0
KeepsPart mask target type = (bit_and target mask ≡ 0) ⊎ (bit_and type mask ≡ bit_and target mask)

or-part : (t p m : ℕ) → bit_and (bit_or t p) m ≡ bit_or (bit_and t m) (bit_and p m)
or-part t p m = eq_of_bits _ _ λ i. omega (
  arith,
  bit_at-bit_and i (bit_or t p) m,
  bit_at-bit_or i t p,
  bit_at-bit_or i (bit_and t m) (bit_and p m),
  bit_at-bit_and i t m,
  bit_at-bit_and i p m,
)

same_part : (t p m : ℕ) → bit_and t m ≡ bit_and p m → bit_and (bit_or t p) m ≡ bit_and t m
same_part t p m h = or-part t p m ∙ ap (bit_or (bit_and t m)) (sym h) ∙ bit_or_self (bit_and t m)

no_part : (t p m : ℕ) → bit_and p m ≡ 0 → bit_and (bit_or t p) m ≡ bit_and t m
no_part t p m h = or-part t p m ∙ ap (bit_or (bit_and t m)) h ∙ bit_or_zero (bit_and t m)

part_twice : (t m : ℕ) → bit_and (bit_and t m) m ≡ bit_and t m
part_twice t m = bit_and_assoc t m m ∙ ap (bit_and t) (bit_and_self m)

-- Without its constancy a type is of a node or of a connector as before.
element_part :
    (t : ℕ)
    → bit_and (bit_and t (complement constancy)) sc_type_element_mask
      ≡ bit_and t sc_type_element_mask
element_part t = bit_and_assoc t (complement constancy) sc_type_element_mask

element-KeepsPart :
    (t p : ℕ)
    → can_extend_to (bit_and t (complement constancy)) p ≡ true
    → KeepsPart sc_type_element_mask t (bit_or t p)
unfolding can_extend_to
element-KeepsPart t p h =
    let agree = (masks_agree (bit_and t (complement constancy)) p h).0 in
    elim (compatible_cases (bit_and t (complement constancy)) p sc_type_element_mask agree) [
      | inl e ↦ inl (sym (element_part t) ∙ e)
      | inr e ↦ inr (same_part t p sc_type_element_mask (sym (element_part t) ∙ e))
    ]

constancy-KeepsPart :
    (t p : ℕ)
    → (can_extend_to (bit_and p constancy) (bit_and t constancy)
        || can_extend_to (bit_and t constancy) (bit_and p constancy))
      ≡ true
    → KeepsPart constancy t (bit_or t p)
unfolding can_extend_to
constancy-KeepsPart t p h =
    let t' = bit_and t constancy in
    let p' = bit_and p constancy in
    elim (Bool-cases (can_extend_to p' t')) [
      | inl e ↦ elim (compatible_cases p' t' constancy (masks_agree p' t' e).1) [
        | inl z ↦ inr (no_part t p constancy (sym (part_twice p constancy) ∙ z))
        | inr s ↦ inr (
            same_part t p constancy (sym (part_twice t constancy) ∙ sym s ∙ part_twice p constancy))
      ]
      | inr e ↦ elim (compatible_cases t' p' constancy (masks_agree t' p' (ground arith)).1) [
        | inl z ↦ inl (sym (part_twice t constancy) ∙ z)
        | inr s ↦
            inr
              (same_part t p constancy (sym (part_twice t constancy) ∙ s ∙ part_twice p constancy))
      ]
    ]

takes_type-KeepsPart :
    (t p : ℕ)
    → takes_type t p ≡ true
    → KeepsPart sc_type_element_mask t (bit_or t p) × KeepsPart constancy t (bit_or t p)
unfolding takes_type
takes_type-KeepsPart t p h =
    let (element, constancies) =
      &&-true {a = can_extend_to (bit_and t (complement constancy)) p}
        {b = can_extend_to (bit_and p constancy) (bit_and t constancy)
          || can_extend_to (bit_and t constancy) (bit_and p constancy)}
        h in
    (element-KeepsPart t p element, constancy-KeepsPart t p constancies)

-- A member of a type of sc-elements that is given a new type keeps all flags that its type had, and
-- is not made what it is not: if its type had a flag of a node or of a connector, the new type has
-- the same of these two flags and no other, and if its type was constant or variable, the new
-- type has the same of these two flags and no other.
pub retype-KeepsPart :
    (target : ParsedElement) (provided type : ℕ)
    → retype target provided ≡ new_type type
    → (bit_and type target.type ≡ target.type)
      × KeepsPart sc_type_element_mask target.type type
      × KeepsPart constancy target.type type
unfolding retype
retype-KeepsPart target provided type h = elim (Bool-cases (takes_type target.type provided)) [
  | inl k ↦
      let e : type ≡ bit_or target.type provided = ground arith in
      let parts = takes_type-KeepsPart target.type provided k in
      rw e (absorbed target.type provided, parts.0, parts.1)
  | inr k ↦
      let e : type ≡ target.type = ground arith in
      rw e (bit_and_self target.type, inr refl, inr refl)
]
