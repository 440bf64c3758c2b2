-- ===== src/ScType/Methods/Keeps.antt =====
-- What an extension of a type keeps.
use sc_memory_knowledge_sync.Base.{
  ◌||◌, not, inr, refl, ◌∙◌, sym, true_not_false, inl, arith, false, true, ◌≢◌, ◌≡◌, bit_and, ℕ,
}
use sc_memory_knowledge_sync.ScType.Extend.{have_not_compatible_mask, is_type_extendable_to}
use sc_memory_knowledge_sync.ScType.Methods.{is_connector, is_node, is_var, is_const, can_extend_to}
use sc_memory_knowledge_sync.ScType.Flags.{
  sc_type_connector, sc_type_node, sc_type_var, sc_type_const, sc_type_is_connector,
  sc_type_is_node, sc_type_constancy_mask, sc_type_has_subtype, sc_type_element_mask,
}
use sc_memory_knowledge_sync.ScType.Extend.Branches.{subtype_within, no_subtype, compatible_cases}

keeps_flag :
    (t n m s : ℕ)
    → bit_and m s ≡ s
    → bit_and 0 s ≡ 0
    → s ≢ 0
    → have_not_compatible_mask t n m ≡ false
    → sc_type_has_subtype t s ≡ true
    → sc_type_has_subtype n s ≡ true
keeps_flag t n m s h z ne c f = elim (compatible_cases t n m c) [
  | inl e ↦ absurd (true_not_false (sym f ∙ no_subtype t m s h z ne e))
  | inr e ↦ sym (subtype_within t n m s h e) ∙ f
]

pub masks_agree :
    (t n : ℕ)
    → is_type_extendable_to t n ≡ true
    → (have_not_compatible_mask t n sc_type_element_mask ≡ false)
      × (have_not_compatible_mask t n sc_type_constancy_mask ≡ false)
unfolding is_type_extendable_to
masks_agree t n h = ground arith

-- A type that a type can be extended to is constant, variable, of a node or of a connector if the
-- type that is extended is.
pub can_extend_to_keeps :
    (t n : ℕ)
    → can_extend_to t n ≡ true
    → ((not (is_const t) || is_const n) ≡ true)
      × ((not (is_var t) || is_var n) ≡ true)
      × ((not (is_node t) || is_node n) ≡ true)
      × ((not (is_connector t) || is_connector n) ≡ true)
unfolding can_extend_to is_const is_var is_node is_connector sc_type_is_node sc_type_is_connector
can_extend_to_keeps t n h =
    let (element, constancy) = masks_agree t n h in
    ground (
      arith,
      keeps_flag t n sc_type_constancy_mask sc_type_const refl refl (omega arith) constancy,
      keeps_flag t n sc_type_constancy_mask sc_type_var refl refl (omega arith) constancy,
      keeps_flag t n sc_type_element_mask sc_type_node refl refl (omega arith) element,
      keeps_flag t n sc_type_element_mask sc_type_connector refl refl (omega arith) element,
    )
