-- ===== src/Tests/Iterators.antt =====
-- An iterator over five elements on a storage of five elements.
use sc_memory_knowledge_sync.Tests.Erasure.{result_of, addr, three_nodes, anyone}
use sc_memory_knowledge_sync.Storage.Iterator5.{
  f_a_a_a_f, Five, Iterator5, each, given, letters5, iterator5_new, other_new,
}
use sc_memory_knowledge_sync.Storage.Iterator5.Results.{
  iterator5_new-FivesYield, FivesYield, shown_results, pair_state,
}
use sc_memory_knowledge_sync.Storage.Iterator5.Walk.{Level, pairs}
use sc_memory_knowledge_sync.Storage.Iterator3.{
  Iterator3, Param, fixed, assigned, Found, f_a_a, f_a_f, no_result, accessed,
}
use sc_memory_knowledge_sync.Storage.Iterator3.Next.{iterator3_next}
use sc_memory_knowledge_sync.Storage.Generate.{arc_new, node_new}
use sc_memory_knowledge_sync.Storage.State.{Storage, is_element, get_element_by_addr}
use sc_memory_knowledge_sync.ScType.Elements.{const_node}
use sc_memory_knowledge_sync.ScType.Arcs.{const_perm_pos_arc}
use sc_memory_knowledge_sync.ScType.Flags.{
  sc_type_has_subtype, sc_type_is_node, sc_type_is_connector,
}
use sc_memory_knowledge_sync.Base.{◌≡◌, [], refl, none, ◌∷◌, arith, some, List, false}

-- An arc from the second node to the first, and one from the third node to that arc.
abbrev attributed : Storage
attributed =
    let s₄ = result_of (arc_new 2 0 const_perm_pos_arc (addr 2) (addr 1) three_nodes) three_nodes in
    let s₅ = result_of (arc_new 2 0 const_perm_pos_arc (addr 3) (addr 4) s₄.1) s₄.1 in s₅.1

abbrev params : Five Param
params = record {
  begin = fixed (addr 2);
  connector = assigned const_perm_pos_arc;
  end = assigned const_node;
  attribute_connector = assigned const_perm_pos_arc;
  attribute = fixed (addr 3);
}

abbrev over_arcs : Found → Found → Found → Iterator3
over_arcs r₁ r₂ r₃ = record {
  type = f_a_a;
  begin = params.begin;
  connector = params.connector;
  end = params.end;
  begin_result = r₁;
  connector_result = r₂;
  end_result = r₃;
  finished = false;
}

abbrev over_attributes : Found → Found → Found → Iterator3
over_attributes r₁ r₂ r₃ = record {
  type = f_a_f;
  begin = fixed (addr 3);
  connector = params.attribute_connector;
  end = fixed (addr 4);
  begin_result = r₁;
  connector_result = r₂;
  end_result = r₃;
  finished = false;
}

-- The arc is found, and at it the other arc.
abbrev levels : List Level
levels =
    (
      over_arcs (accessed (addr 2)) (accessed (addr 4)) (accessed (addr 1)),
      over_attributes no_result no_result no_result,
      over_attributes (accessed (addr 3)) (accessed (addr 5)) (accessed (addr 4)) ∷ [],
    )
    ∷ []

abbrev it : Iterator5
it =
    pair_state f_a_a_a_f params (each given (letters5 f_a_a_a_f) params)
      (some (over_arcs no_result no_result no_result)) none

iterator5_new-FivesYield_example :
    FivesYield anyone 2 3 attributed it (shown_results f_a_a_a_f params (pairs levels))
unfolding node_new arc_new is_element get_element_by_addr sc_type_is_connector sc_type_is_node
    sc_type_has_subtype iterator3_next iterator5_new other_new
iterator5_new-FivesYield_example =
    iterator5_new-FivesYield anyone 2 3 attributed refl f_a_a_a_f params it
      (over_arcs no_result no_result no_result) levels (omega arith) refl refl
      (refl, (refl, ((refl, (_, refl)), (_, refl))))

-- The five elements.
shown_results-levels :
    shown_results f_a_a_a_f params (pairs levels)
    ≡ record {
      begin = accessed (addr 2);
      connector = accessed (addr 4);
      end = accessed (addr 1);
      attribute_connector = accessed (addr 5);
      attribute = accessed (addr 3);
    }
      ∷ []
shown_results-levels = refl
