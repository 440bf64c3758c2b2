-- ===== src/ScType/Extend/Order.antt =====
-- The order that `ScType::CanExtendTo` puts on the types.
use sc_memory_knowledge_sync.Base.{ℕ, ◌≡◌, refl, inl, inr, true, false, arith}
use sc_memory_knowledge_sync.ScType.Flags.{
  sc_type_node, sc_type_connector, sc_type_element_mask, sc_type_is_node, sc_type_is_node_link,
  sc_type_is_connector,
}
use sc_memory_knowledge_sync.ScType.Extend.{
  have_not_compatible_mask, is_node_link_extendable_to, is_node_extendable_to,
  is_connector_extendable_to, is_type_extendable_to,
}
use sc_memory_knowledge_sync.ScType.Extend.Branches.{
  compatible_self, compatible_trans, compatible_cases, no_subtype, subtype_within, link-node,
  IsOneKind, link_trans, node_trans, node_link_trans, connector_trans,
}

-- Every type can be extended to itself.
pub is_type_extendable_to_refl : (t : ℕ) → is_type_extendable_to t t ≡ true
unfolding is_type_extendable_to is_node_link_extendable_to is_node_extendable_to
    is_connector_extendable_to
is_type_extendable_to_refl t = simp compatible_self (ground arith)

-- Where the sc-elements agree, a sc-connector is not a sc-node, and a sc-node is no bare sc-connector.
same_element :
    (t n : ℕ)
    → have_not_compatible_mask t n sc_type_element_mask ≡ false
    → sc_type_is_connector t ≡ true
    → sc_type_is_node t ≡ sc_type_is_node n
unfolding sc_type_is_node sc_type_is_connector
same_element t n h c = elim (compatible_cases t n sc_type_element_mask h) [
  | inl e ↦
      ground (arith, no_subtype t sc_type_element_mask sc_type_connector refl refl (omega arith) e)
  | inr e ↦ subtype_within t n sc_type_element_mask sc_type_node refl e
]

link_extends_link :
    (t n : ℕ) → is_node_link_extendable_to t n ≡ true → sc_type_is_node_link n ≡ true
unfolding is_node_link_extendable_to
link_extends_link t n h = ground arith

node_extends_node : (t n : ℕ) → is_node_extendable_to t n ≡ true → sc_type_is_node n ≡ true
unfolding is_node_extendable_to
node_extends_node t n h = ground arith

connector_extends_connector :
    (t n : ℕ) → is_connector_extendable_to t n ≡ true → sc_type_is_connector n ≡ true
unfolding is_connector_extendable_to
connector_extends_connector t n h = ground arith

-- If a type extends to a second and the second to a third, the first extends to the third, provided
-- that the second is not at once a common edge and an arc, nor at once a common arc and a membership
-- arc.
pub is_type_extendable_to_trans :
    (t n k : ℕ)
    → IsOneKind n
    → is_type_extendable_to t n ≡ true
    → is_type_extendable_to n k ≡ true
    → is_type_extendable_to t k ≡ true
unfolding is_type_extendable_to
is_type_extendable_to_trans t n k one p q = ground (
  arith,
  compatible_trans t n k 16385,
  compatible_trans t n k 96,
  link_trans t n k,
  node_trans t n k,
  node_link_trans t n k,
  connector_trans t n k one,
  link_extends_link t n,
  node_extends_node t n,
  connector_extends_connector t n,
  same_element t n,
  link-node n,
  link-node t,
)
