-- ===== src/Tests/Reader.antt =====
-- The parser of SCs-code.
use sc_memory_knowledge_sync.Base.{
  find_name, contains, str_eq, List, arith, codes, refl, ◌≡◌, false, some, [],
}
use sc_memory_knowledge_sync.Scs.Parser.State.{
  undefined, throws, returns, Outcome, find_element, empty_parser, Parser,
}
use sc_memory_knowledge_sync.Scs.Parser.Link.Unescape.{unescape_content-unescaped, unescaped}
use sc_memory_knowledge_sync.Scs.TypeResolver.{is_element_type, is_unnamed}
use sc_memory_knowledge_sync.ScType.Methods.{is_connector}
use sc_memory_knowledge_sync.Scs.Parser.Element.{parsed_element, local, system, ElementHandle}
use sc_memory_knowledge_sync.Scs.Parser.Append.{process_connector, append_element}
use sc_memory_knowledge_sync.ScType.Elements.{var_node, const_node}
use sc_memory_knowledge_sync.Scs.Parser.Invariant.{empty-IsConsistent, Names, IsConsistent, Grows}
use sc_memory_knowledge_sync.Scs.Parser.Append.Known.{append_element-Appends, append_element-again}
use sc_memory_knowledge_sync.Scs.Parser.Link.{unescape_content}
use sc_memory_knowledge_sync.ScType.Arcs.{const_perm_pos_arc}
use sc_memory_knowledge_sync.Scs.Parser.Triple.Stored.{
  process_triple-Ensures, triple, Stores, Ensures,
}
use sc_memory_knowledge_sync.Scs.Parser.Triple.{process_triple}
use sc_memory_knowledge_sync.Scs.Parser.Generation.{for_each_triple_for_generation, Call}
use sc_memory_knowledge_sync.Scs.Parser.Generation.Calls.{
  for_each_triple_for_generation-Generates, Generates,
}
use sc_memory_knowledge_sync.Scs.Parser.Append.Connectors.{
  process_connector-AddsConnector, AddsConnector,
}

unescape_content-unescaped_example : unescape_content (codes "a\\[b\\\\") ≡ some (codes "a[b\\")
unfolding unescaped
unescape_content-unescaped_example = unescape_content-unescaped (codes "a\\[b\\\\")

append_element-again_example :
    let (h, q) = append_element (codes "x") const_node false [] false empty_parser in
    Grows empty_parser q
    × IsConsistent q
    × Names q (codes "x") h
    × (append_element (codes "x") var_node false [] false q ≡ (h, q))
unfolding is_unnamed
append_element-again_example =
    append_element-again (codes "x") const_node var_node false false [] [] false false empty_parser
      (omega arith) empty-IsConsistent refl

-- `x -> y` up to its triple.
abbrev pub with_x : Parser
with_x = (append_element (codes "x") const_node false [] false empty_parser).1

abbrev pub with_y : Parser
with_y = (append_element (codes "y") const_node false [] false with_x).1

abbrev with_arc : Parser
with_arc = (append_element (codes "..connector_0") const_perm_pos_arc false [] false with_y).1

abbrev handle_of_x : ElementHandle
handle_of_x = record { id = 0; visibility = system; is_element_type = false }

abbrev handle_of_y : ElementHandle
handle_of_y = record { id = 1; visibility = system; is_element_type = false }

abbrev handle_of_arc : ElementHandle
handle_of_arc = record { id = 0; visibility = local; is_element_type = false }

with_x-IsConsistent : IsConsistent with_x
unfolding is_unnamed
with_x-IsConsistent =
    (append_element-Appends (codes "x") const_node false [] false empty_parser (omega arith)
      empty-IsConsistent refl).consistent

pub with_y-IsConsistent : IsConsistent with_y
unfolding is_unnamed append_element is_connector
with_y-IsConsistent =
    (append_element-Appends (codes "y") const_node false [] false with_x (omega arith)
      with_x-IsConsistent refl).consistent

with_arc-IsConsistent : IsConsistent with_arc
unfolding is_unnamed append_element is_connector
with_arc-IsConsistent =
    (append_element-Appends (codes "..connector_0") const_perm_pos_arc false [] false with_y
      (omega arith) with_y-IsConsistent refl).consistent

process_triple-Ensures_example :
    Ensures with_arc
      (Stores (triple handle_of_x handle_of_arc handle_of_y) with_arc)
      (process_triple handle_of_x handle_of_arc handle_of_y with_arc)
unfolding append_element find_element is_unnamed is_connector
process_triple-Ensures_example =
    process_triple-Ensures handle_of_x handle_of_arc handle_of_y
      (parsed_element (codes "..connector_0") const_perm_pos_arc false [] false) with_arc
      with_arc-IsConsistent (parsed_element (codes "x") const_node false [] false, refl) refl
      (parsed_element (codes "y") const_node false [] false, refl)

-- The parser in which an outcome ends.
abbrev ends_in : {A : Type 0} → Outcome A → Parser → Parser
ends_in (returns _ q) p = q
ends_in (throws _ q) p = q
ends_in undefined p = p

abbrev with_triple : Parser
with_triple = ends_in (process_triple handle_of_x handle_of_arc handle_of_y with_arc) with_arc

with_triple-IsConsistent : IsConsistent with_triple
unfolding append_element find_element is_unnamed is_connector process_triple is_element_type
    contains
with_triple-IsConsistent =
    (process_triple-Ensures handle_of_x handle_of_arc handle_of_y
      (parsed_element (codes "..connector_0") const_perm_pos_arc false [] false) with_arc
      with_arc-IsConsistent (parsed_element (codes "x") const_node false [] false, refl) refl
      (parsed_element (codes "y") const_node false [] false, refl)).consistent

for_each_triple_for_generation-Generates_example :
    (calls : List Call) × (for_each_triple_for_generation with_triple ≡ some calls)
    × Generates with_triple with_triple.parsed_triples calls
for_each_triple_for_generation-Generates_example =
    for_each_triple_for_generation-Generates with_triple with_triple-IsConsistent

process_connector-AddsConnector_example :
    AddsConnector (codes "<-") with_y (process_connector (codes "<-") with_y)
unfolding append_element is_unnamed is_connector find_name str_eq
process_connector-AddsConnector_example =
    process_connector-AddsConnector (codes "<-") with_y (omega arith) with_y-IsConsistent refl
