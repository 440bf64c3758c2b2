-- ===== src/Tests/Allocation.antt =====
-- The allocation in a storage whose two segments are engaged: the second one, which no thread holds, is
-- passed over, and the first one has a released element, at the offset 5.
use sc_memory_knowledge_sync.Storage.Element.{has_state, exists, zero_element}
use sc_memory_knowledge_sync.ScAddr.{ScAddr}
use sc_memory_knowledge_sync.Base.{
  none, some, if◌then◌else◌, ◌==◌, ◌≡◌, ◌∙◌, [], ◌∷◌, arith, false, refl, ◌&&◌, ◌+◌, Option,
}
use sc_memory_knowledge_sync.Storage.State.{
  is_element, is_pointer, get_element_by_addr, empty_storage, Storage,
}
use sc_memory_knowledge_sync.Storage.Views.{is_some_if}
use sc_memory_knowledge_sync.Storage.Free.{and_false}
use sc_memory_knowledge_sync.Storage.Allocate.{allocate_new_element}
use sc_memory_knowledge_sync.Storage.Refused.Fresh.{IsFresh}
use sc_memory_knowledge_sync.Storage.Refused.{arc_new-Leaves, Leaves}
use sc_memory_knowledge_sync.Storage.Generate.{arc_new}
use sc_memory_knowledge_sync.Storage.Result.{Run}
use sc_memory_knowledge_sync.ScType.Arcs.{const_perm_pos_arc}
use sc_memory_knowledge_sync.Storage.Refused.Taken.{Takes}
use sc_memory_knowledge_sync.Storage.Bounds.Elements.{IsBounded}
use sc_memory_knowledge_sync.Storage.Bounds.Total.{allocate_new_element-ends}

abbrev engaged : Storage
engaged = record (empty_storage 2) {
  segments = λ i.
      if i == 0
      then some (record { num = 1; last_engaged_offset = 65534; last_released_offset = 5 })
      else if i == 1
      then some (record { num = 2; last_engaged_offset = 65534; last_released_offset = 0 })
      else none;
  segments_count = 2;
  last_not_engaged_segment_num = 2;
  last_released_segment_num = 1;
}

no_element : (x : ScAddr) → is_element x engaged ≡ false
unfolding is_element get_element_by_addr has_state
no_element x =
    is_some_if (is_pointer x engaged && exists zero_element) zero_element
    ∙ and_false (is_pointer x engaged)

engaged-IsFresh : IsFresh engaged
engaged-IsFresh = record {
  numbers = λ i s e. ground arith;
  engaged = λ i o s e l. no_element (record { seg = i + 1; offset = o });
  released = λ i s e. no_element (record { seg = i + 1; offset = s.last_released_offset });
  next = λ i l. ground arith;
}

engaged-IsBounded : IsBounded engaged
engaged-IsBounded i = ground arith

allocate_new_element-ends_example :
    (r : Option ScAddr × Storage) × (allocate_new_element 2 0 engaged ≡ some r)
    × IsBounded r.1
    × Takes engaged r
allocate_new_element-ends_example =
    allocate_new_element-ends 2 0 (2 ∷ []) (1 ∷ []) engaged engaged-IsFresh engaged-IsBounded
      (tt, tt) (refl, refl, refl) (tt, tt) (refl, refl, refl) (omega arith) (omega arith)

-- A sc-connector between addresses without elements: the released element is taken, and given back.
abbrev arc_in_engaged : Run ScAddr
arc_in_engaged =
    arc_new 2 0 const_perm_pos_arc (record { seg = 1; offset = 2 }) (record { seg = 1; offset = 9 })
      engaged

arc_new-Leaves_example : Leaves engaged arc_in_engaged
arc_new-Leaves_example =
    arc_new-Leaves 2 0 const_perm_pos_arc (record { seg = 1; offset = 2 })
      (record { seg = 1; offset = 9 }) (2 ∷ []) (1 ∷ []) engaged engaged-IsFresh engaged-IsBounded
      (tt, tt) (refl, refl, refl) (tt, tt) (refl, refl, refl) (omega arith) (omega arith)
