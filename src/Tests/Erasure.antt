-- ===== src/Tests/Erasure.antt =====
-- The storage of sc-elements on concrete inputs.
use sc_memory_knowledge_sync.Storage.Result.{stuck, fails, ok, Run}
use sc_memory_knowledge_sync.Base.{
  ◌+◌, if◌then◌else◌, none, [], arith, not, some, ◌∷◌, ◌&&◌, true, Option, refl, ◌≡◌, false, ℕ,
}
use sc_memory_knowledge_sync.Storage.State.{
  set_element, Segment, is_some, get_element_by_addr, empty_storage, is_element, Storage,
}
use sc_memory_knowledge_sync.ScAddr.{is_equal_addr, empty_addr, ScAddr}
use sc_memory_knowledge_sync.Storage.Generate.{connect, set_connector, arc_new, node_new}
use sc_memory_knowledge_sync.Storage.Erase.{contains_addr, erase_all, free_if_there, element_erase}
use sc_memory_knowledge_sync.ScType.Elements.{const_common_edge, const_node}
use sc_memory_knowledge_sync.ScType.Arcs.{const_perm_pos_arc}
use sc_memory_knowledge_sync.ScType.Flags.{
  sc_type_has_subtype, sc_type_is_node, sc_type_is_connector,
}
use sc_memory_knowledge_sync.Storage.Iterator3.{
  f_a_f, assigned, fixed, f_a_a, iterator3_new, Context,
}
use sc_memory_knowledge_sync.Storage.Element.{sc_state_element_exist, zero_element}
use sc_memory_knowledge_sync.Storage.Allocate.{allocate_new_element}
use sc_memory_knowledge_sync.Storage.Erase.All.{erase_all-is_element}
use sc_memory_knowledge_sync.Storage.Lists.{OutList}
use sc_memory_knowledge_sync.Storage.Iterator3.Walk.{collect-matching, matching, collect_new}
use sc_memory_knowledge_sync.Storage.Free.{free_if_there-is_element}
use sc_memory_knowledge_sync.Storage.Incidence.{connect-OutList, is_side}
use sc_memory_knowledge_sync.Storage.Statistics.{
  collect_elements_stat-last, collect_elements_stat, Stat,
}
use sc_memory_knowledge_sync.Storage.Iterator3.New.{iterator3_new-letters, is_addr, letters, same}

abbrev pub result_of : Run ScAddr → Storage → ScAddr × Storage
result_of (ok a st) s = (a, st)
result_of (fails e st) s = (empty_addr, st)
result_of stuck s = (empty_addr, s)

abbrev storage_of : Run (Unit {0}) → Storage → Storage
storage_of (ok a st) s = st
storage_of (fails e st) s = st
storage_of stuck s = s

abbrev pub addr : ℕ → ScAddr
addr o = record { seg = 1; offset = o }

-- Three nodes, an arc from the second to the first, and an edge between the second and the third.
abbrev pub three_nodes : Storage
three_nodes =
    let s₁ = result_of (node_new 2 0 const_node (empty_storage 3)) (empty_storage 3) in
    let s₂ = result_of (node_new 2 0 const_node s₁.1) s₁.1 in
    let s₃ = result_of (node_new 2 0 const_node s₂.1) s₂.1 in s₃.1

abbrev with_arc_and_edge : Storage
with_arc_and_edge =
    let s₄ = result_of (arc_new 2 0 const_perm_pos_arc (addr 2) (addr 1) three_nodes) three_nodes in
    let s₅ = result_of (arc_new 2 0 const_common_edge (addr 2) (addr 3) s₄.1) s₄.1 in s₅.1

abbrev after_erasure : Storage
after_erasure =
    storage_of (element_erase (λ a e. false) 9 (addr 3) with_arc_and_edge) with_arc_and_edge

-- The arc between the first two nodes is erased too.
after_erasure_test : is_element (addr 4) after_erasure ≡ false
unfolding node_new arc_new element_erase is_element get_element_by_addr sc_type_is_connector
    sc_type_is_node
after_erasure_test = refl

-- The three nodes and a sc-connector from the second to the first that is in no list yet.
abbrev allocated : Option (Option ScAddr × Storage) → Storage
allocated (some (a, st)) = st
allocated none = three_nodes

abbrev before_arc : Storage
before_arc =
    set_connector (addr 4) const_perm_pos_arc (addr 2) (addr 1)
      (allocated (allocate_new_element 2 0 three_nodes))

abbrev pub anyone : Context
anyone = record {
  is_authenticated = true;
  can_read = λ a. true;
  can_read_permissions = λ e a. true;
}

connect-OutList_example :
    OutList
      (connect (addr 4) const_perm_pos_arc (addr 2) (addr 1) before_arc)
      (addr 2)
      (if is_side const_perm_pos_arc (addr 2) (addr 1) (addr 2) then addr 4 ∷ [] else [])
unfolding node_new set_connector allocate_new_element is_element get_element_by_addr sc_type_is_node
connect-OutList_example =
    connect-OutList (addr 4) const_perm_pos_arc (addr 2) (addr 1) before_arc refl refl refl (addr 2)
      [] refl refl refl tt refl

-- An arc from the second node to the first, and one to the third that is in no list yet.
abbrev with_arc : Storage
with_arc = (result_of (arc_new 2 0 const_perm_pos_arc (addr 2) (addr 1) three_nodes) three_nodes).1

abbrev before_second_arc : Storage
before_second_arc =
    set_connector (addr 5) const_perm_pos_arc (addr 2) (addr 3)
      (allocated (allocate_new_element 2 0 with_arc))

collect-matching_example :
    collect_new anyone 3 3
      (iterator3_new f_a_a (fixed (addr 2)) (assigned const_perm_pos_arc) (assigned const_node))
      with_arc_and_edge
    ≡ some (
        matching anyone with_arc_and_edge
          (addr 2)
          const_perm_pos_arc
          const_node
          (addr 5 ∷ addr 4 ∷ []))
unfolding node_new arc_new is_element get_element_by_addr sc_type_is_connector sc_type_is_node
    sc_type_has_subtype
collect-matching_example =
    collect-matching anyone with_arc_and_edge (addr 2) const_perm_pos_arc const_node refl refl 3 3
      (addr 5 ∷ addr 4 ∷ []) (omega arith) (omega arith) refl
      (refl, refl, refl, refl, (refl, refl, refl, refl, refl))

free_if_there-is_element_example :
    is_element (addr 2) (free_if_there (addr 1) three_nodes)
    ≡ (is_element (addr 2) three_nodes && not (is_equal_addr (addr 2) (addr 1)))
free_if_there-is_element_example = free_if_there-is_element (addr 1) (addr 2) three_nodes

-- Three segments, each address of which has a node.
abbrev all_nodes : Storage
all_nodes = record (empty_storage 3) {
  segments =
      λ i. some (record { num = i + 1; last_engaged_offset = 65534; last_released_offset = 0 });
  elements = λ a. record zero_element { type = const_node; states = sc_state_element_exist };
}

-- The third element was requested to be erased.
abbrev one_requested : Storage
one_requested = record all_nodes {
  elements = λ a. record zero_element {
    type = const_node;
    states = if is_equal_addr a (addr 3) then 3 else sc_state_element_exist;
  };
}

erase_all-is_element_example :
    is_element (addr 2) (erase_all (addr 2 ∷ addr 1 ∷ []) one_requested)
    ≡ (is_element (addr 2) one_requested && not (contains_addr (addr 2) (addr 2 ∷ addr 1 ∷ [])))
unfolding is_element get_element_by_addr
erase_all-is_element_example =
    erase_all-is_element (addr 2 ∷ addr 1 ∷ []) (addr 2) one_requested (refl, (refl, tt))

iterator3_new-letters_example :
    is_some (iterator3_new f_a_f (fixed (addr 1)) (assigned 0) (assigned 0)) ≡ (
      same (letters f_a_f).0 (is_addr (fixed (addr 1)))
      && (same (letters f_a_f).1 (is_addr (assigned 0))
          && same (letters f_a_f).2 (is_addr (assigned 0))))
iterator3_new-letters_example =
    iterator3_new-letters f_a_f (fixed (addr 1)) (assigned 0) (assigned 0)

abbrev full_segment : Segment
full_segment = record { num = 1; last_engaged_offset = 3; last_released_offset = 0 }

abbrev with_nodes : Storage
with_nodes = record all_nodes { segments = λ i. some full_segment }

abbrev no_count : Stat
no_count = record { node_count = 0; connector_count = 0; link_count = 0 }

collect_elements_stat-last_example :
    collect_elements_stat 1
      (set_element
        (record { seg = 1; offset = full_segment.last_engaged_offset })
        zero_element
        with_nodes)
      no_count
    ≡ collect_elements_stat 1 with_nodes no_count
collect_elements_stat-last_example =
    collect_elements_stat-last 1 full_segment zero_element with_nodes no_count refl

-- Refused in an empty storage, where neither address has an element.
arc_new_test :
    (result_of (arc_new 2 0 const_perm_pos_arc (addr 1) (addr 9) (empty_storage 3)) three_nodes).0
    ≡ empty_addr
unfolding arc_new is_element get_element_by_addr sc_type_is_connector
arc_new_test = refl
