-- ===== src/ScType/Extend/Branches.antt =====
-- Lemmas on the branches of `sc_storage_is_type_extendable_to`.
use sc_memory_knowledge_sync.Base.{
  ℕ, ◌≡◌, ◌≢◌, refl, ◌⊎◌, inl, inr, true, false, ◌&&◌, bit_and, arith,
}
use sc_memory_knowledge_sync.Base.Bits.{bit_and_within, bit_and_assoc, bit_and-or}
use sc_memory_knowledge_sync.ScType.Flags.{
  sc_type_node, sc_type_node_link, sc_type_common_edge, sc_type_arc, sc_type_common_arc,
  sc_type_membership_arc, sc_type_connector_mask, sc_type_has_subtype, sc_type_is_node,
  sc_type_is_node_link, sc_type_is_common_edge, sc_type_is_arc, sc_type_is_common_arc,
  sc_type_is_membership_arc,
}
use sc_memory_knowledge_sync.ScType.Extend.{
  have_not_compatible_mask, is_node_link_extendable_to, is_node_extendable_to,
  is_connector_kind_extendable_to, is_connector_extendable_to,
}

pub compatible_self : (t m : ℕ) → have_not_compatible_mask t t m ≡ false
unfolding have_not_compatible_mask
compatible_self t m = ground arith

pub compatible_trans :
    (t n k m : ℕ)
    → have_not_compatible_mask t n m ≡ false
    → have_not_compatible_mask n k m ≡ false
    → have_not_compatible_mask t k m ≡ false
unfolding have_not_compatible_mask
compatible_trans t n k m p q = ground arith

pub compatible_cases :
    (t n m : ℕ)
    → have_not_compatible_mask t n m ≡ false
    → (bit_and t m ≡ 0) ⊎ (bit_and t m ≡ bit_and n m)
unfolding have_not_compatible_mask
compatible_cases t n m h = ground arith

-- Under a mask, types that agree on the mask have the same flags of the mask.
pub subtype_within :
    (t n m s : ℕ)
    → bit_and m s ≡ s
    → bit_and t m ≡ bit_and n m
    → sc_type_has_subtype t s ≡ sc_type_has_subtype n s
unfolding sc_type_has_subtype
subtype_within t n m s h e = rw (bit_and_within t m s h, bit_and_within n m s h, e)

pub subtype_smaller :
    (t m s : ℕ) → bit_and m s ≡ s → sc_type_has_subtype t m ≡ true → sc_type_has_subtype t s ≡ true
unfolding sc_type_has_subtype
subtype_smaller t m s h p = ground (arith, bit_and_within t m s h)

-- A declared kind: no type is both a common edge and an arc, nor both a common and a membership arc.
pub record IsOneKind (t : ℕ) : Type 0 where
  pub edge_or_arc : (sc_type_is_common_edge t && sc_type_is_arc t) ≡ false
  pub common_or_membership : (sc_type_is_common_arc t && sc_type_is_membership_arc t) ≡ false

module _ (t n k : ℕ) where
  pub link_trans :
      is_node_link_extendable_to t n ≡ true
      → is_node_link_extendable_to n k ≡ true
      → is_node_link_extendable_to t k ≡ true
  unfolding is_node_link_extendable_to
  link_trans p q =
      ground (arith, compatible_trans (bit_and t 65532) (bit_and n 65532) (bit_and k 65532) 2051)

  pub node_trans :
      is_node_extendable_to t n ≡ true
      → is_node_extendable_to n k ≡ true
      → is_node_extendable_to t k ≡ true
  unfolding is_node_extendable_to
  node_trans p q =
      ground (arith, compatible_trans (bit_and t 65534) (bit_and n 65534) (bit_and k 65534) 16259)

  kind_trans :
      IsOneKind n
      → is_connector_kind_extendable_to t n ≡ true
      → is_connector_kind_extendable_to n k ≡ true
      → is_connector_kind_extendable_to t k ≡ true
  unfolding is_connector_kind_extendable_to
  kind_trans one p q = ground arith

pub no_subtype :
    (t m s : ℕ)
    → bit_and m s ≡ s
    → bit_and 0 s ≡ 0
    → s ≢ 0
    → bit_and t m ≡ 0
    → sc_type_has_subtype t s ≡ false
unfolding sc_type_has_subtype
no_subtype t m s h z ne e = rw (bit_and_within t m s h, e, z) (ground arith)

-- Where the kinds agree under the mask, the kind may be kept.
same_kind :
    (t n : ℕ)
    → have_not_compatible_mask t n sc_type_connector_mask ≡ false
    → is_connector_kind_extendable_to t n ≡ true
unfolding is_connector_kind_extendable_to sc_type_is_common_edge sc_type_is_arc
    sc_type_is_common_arc sc_type_is_membership_arc
same_kind t n h = elim (compatible_cases t n sc_type_connector_mask h) [
  | inl e ↦ ground (
    arith,
    no_subtype t sc_type_connector_mask sc_type_common_edge refl refl (omega arith) e,
    no_subtype t sc_type_connector_mask sc_type_arc refl refl (omega arith) e,
  )
  | inr e ↦ ground (
    arith,
    subtype_within t n sc_type_connector_mask sc_type_common_edge refl e,
    subtype_within t n sc_type_connector_mask sc_type_arc refl e,
    subtype_within t n sc_type_connector_mask sc_type_common_arc refl e,
    subtype_within t n sc_type_connector_mask sc_type_membership_arc refl e,
  )
]

-- A sc-connector extends to one of the same kind, or of a kind below.
extends_kind :
    (t n : ℕ) → is_connector_extendable_to t n ≡ true → is_connector_kind_extendable_to t n ≡ true
unfolding is_connector_extendable_to
extends_kind t n h = ground (arith, same_kind t n)

pub connector_trans :
    (t n k : ℕ)
    → IsOneKind n
    → is_connector_extendable_to t n ≡ true
    → is_connector_extendable_to n k ≡ true
    → is_connector_extendable_to t k ≡ true
unfolding is_connector_extendable_to
connector_trans t n k one p q =
    let kept = kind_trans t n k one (extends_kind t n p) (extends_kind n k q) in
    let trans = compatible_trans (bit_and t 16355) (bit_and n 16355) (bit_and k 16355) in
    ground (arith, kept, trans 61456, trans 52240, trans 49552, trans 49680)

-- A sc-link is a sc-node.
pub link-node : (t : ℕ) → sc_type_is_node_link t ≡ true → sc_type_is_node t ≡ true
unfolding sc_type_is_node sc_type_is_node_link
link-node t h = subtype_smaller t sc_type_node_link sc_type_node refl h

-- A sc-node that shares the other flags of a sc-link is a sc-link.
link_of_same :
    (t n : ℕ)
    → bit_and (bit_and t 65534) 16259 ≡ bit_and (bit_and n 65534) 16259
    → sc_type_is_node t ≡ true
    → sc_type_is_node_link n ≡ true
    → sc_type_is_node_link t ≡ true
unfolding sc_type_is_node sc_type_is_node_link sc_type_has_subtype
link_of_same t n e p q = ground (
  arith,
  bit_and-or t 1 2,
  bit_and-or n 1 2,
  bit_and_assoc t 65534 16259,
  bit_and_assoc n 65534 16259,
  bit_and_within t 16258 2 refl,
  bit_and_within n 16258 2 refl,
  bit_and_within n 3 2 refl,
)

pub node_link_trans :
    (t n k : ℕ)
    → sc_type_is_node t ≡ true
    → sc_type_is_node_link t ≡ false
    → sc_type_is_node_link n ≡ true
    → is_node_extendable_to t n ≡ true
    → is_node_link_extendable_to n k ≡ true
    → is_node_extendable_to t k ≡ true
unfolding is_node_extendable_to is_node_link_extendable_to have_not_compatible_mask
node_link_trans t n k node not_link link p q = ground (arith, link_of_same t n, k_node)
  where
    k_node : sc_type_is_node_link k ≡ true → sc_type_is_node k ≡ true
    k_node = link-node k
