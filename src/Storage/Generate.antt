-- ===== src/Storage/Generate.antt =====
-- The generation of sc-nodes, sc-links and sc-connectors, and the reads and the writes of elements, of
-- sc-memory/sc-core/src/sc-store/sc_storage.c. The events that they emit are left out: they are
-- handled by other threads.
pub mod Fields
pub mod Keeps
pub mod Linked
use sc_memory_knowledge_sync.Storage.State.{is_element, Storage, is_pointer, set_element}
use sc_memory_knowledge_sync.ScAddr.{is_equal_addr, is_empty_addr, ScAddr}
use sc_memory_knowledge_sync.Base.{
  ◌||◌, true, false, bit_or, ◌^◌, none, ◌&&◌, ◌%◌, not, some, ◌+◌, ◌==◌, if◌then◌else◌, bit_and,
  Option, Bool, ℕ,
}
use sc_memory_knowledge_sync.Storage.Allocate.{free_element, allocate_new_element}
use sc_memory_knowledge_sync.Storage.Element.{ArcInfo, Element}
use sc_memory_knowledge_sync.ScType.Flags.{
  sc_type_node, sc_type_pos_arc, sc_type_node_link, sc_type_var, sc_type_const,
  sc_type_is_connector, sc_type_has_subtype_in_mask, sc_type_is_node_link, sc_type_is_node,
  sc_type_common_edge, sc_type_node_structure, sc_type_has_subtype,
}
use sc_memory_knowledge_sync.Storage.Result.{
  error_addr_is_not_valid, error_element_is_not_node, ok, error_element_is_not_connector,
  error_element_is_not_link, error_full_memory, fails, stuck, Run,
}

-- A change of an element through its pointer.
unfoldable pub modify_element : ScAddr → (Element → Element) → Storage → Storage
unfolding set_element
modify_element a f st = set_element a (f (st.elements a)) st

unfoldable pub modify_arc : ScAddr → (ArcInfo → ArcInfo) → Storage → Storage
unfolding modify_element
modify_arc a f st = modify_element a (λ e. record e { arc = f e.arc }) st

-- Through a pointer that `sc_storage_get_element_by_addr` may have left null.
unfoldable pub modify_arc_at : ScAddr → (ArcInfo → ArcInfo) → Storage → Storage
unfolding modify_arc is_pointer
modify_arc_at a f st = if not (is_empty_addr a) && is_pointer a st then modify_arc a f st else st

-- `sc_type_is`.
unfoldable pub sc_type_is : ℕ → ℕ → Bool
sc_type_is type other = bit_and type other == type

unfoldable pub new_of_type : ℕ → Option (Option ScAddr × Storage) → Run ScAddr
unfolding modify_element
new_of_type type none = stuck
new_of_type type (some (none, st)) = fails error_full_memory st
new_of_type type (some (some a, st)) = ok a (modify_element a (λ e. record e { type = type }) st)

-- `sc_storage_node_new_ext`.
unfoldable pub node_new : ℕ → ℕ → ℕ → Storage → Run ScAddr
unfolding allocate_new_element new_of_type
node_new rounds thread type st =
    if not (sc_type_is_node type)
      && (not (sc_type_is type sc_type_const) && not (sc_type_is type sc_type_var))
    then fails error_element_is_not_node st
    else new_of_type (bit_or sc_type_node type) (allocate_new_element rounds thread st)

-- `sc_storage_link_new_ext`.
unfoldable pub link_new : ℕ → ℕ → ℕ → Storage → Run ScAddr
unfolding allocate_new_element new_of_type
link_new rounds thread type st =
    if not (sc_type_is_node_link type)
    then fails error_element_is_not_link st
    else new_of_type (bit_or sc_type_node_link type) (allocate_new_element rounds thread st)

-- `sc_storage_make_elements_incident_to_arc`: the links of the sc-connector, ...
abbrev pub reverse_links : ScAddr → ScAddr → ArcInfo → ArcInfo
reverse_links first_out first_in arc = record arc {
  next_end_out_arc = first_out;
  next_begin_in_arc = first_in;
}

abbrev pub direct_links : Bool → ScAddr → ScAddr → ArcInfo → ArcInfo
direct_links is_loop first_out first_in arc =
    let arc' = record arc { next_begin_out_arc = first_out; next_end_in_arc = first_in } in
    if is_loop then reverse_links first_out first_in arc' else arc'

-- ... the links back to it, ...
unfoldable pub link_connector : ScAddr → ScAddr → ScAddr → Bool → Bool → Storage → Storage
unfolding modify_arc modify_arc_at
link_connector connector first_out first_in is_reverse is_loop st =
    if is_reverse
    then modify_arc connector (reverse_links first_out first_in) st
    else modify_arc_at first_in (λ arc. record arc { prev_end_in_arc = connector })
        (modify_arc_at first_out (λ arc. record arc { prev_begin_out_arc = connector })
          (modify_arc connector (direct_links is_loop first_out first_in) st))

-- ... and the first sc-connectors of the two elements with their counts.
abbrev pub begin_at : ScAddr → Element → Element
begin_at connector e = record e {
  first_out_arc = connector;
  outgoing_arcs_count = (e.outgoing_arcs_count + 1) % 2 ^ 32;
}

abbrev pub end_at : ScAddr → Element → Element
end_at connector e = record e {
  first_in_arc = connector;
  incoming_arcs_count = (e.incoming_arcs_count + 1) % 2 ^ 32;
}

unfoldable pub make_elements_incident_to_arc :
    ScAddr → ScAddr → ScAddr → Bool → Bool → Storage → Storage
unfolding link_connector modify_element
make_elements_incident_to_arc connector beg end is_reverse is_loop st =
    let first_out = (st.elements beg).first_out_arc in
    let first_in = (st.elements end).first_in_arc in
    modify_element end (end_at connector) (
      modify_element beg (begin_at connector)
        (link_connector connector first_out first_in is_reverse is_loop st))

-- `sc_storage_update_structure_arcs`.
unfoldable pub update_structure_arcs : ScAddr → ScAddr → Storage → Storage
unfolding modify_arc modify_arc_at modify_element
update_structure_arcs connector end st =
    let first = (st.elements end).first_in_arc_from_structure in
    modify_element end (λ e. record e { first_in_arc_from_structure = connector })
      (modify_arc_at first (λ arc. record arc { prev_in_arc_from_structure = connector })
        (modify_arc connector (λ arc. record arc { next_in_arc_from_structure = first }) st))

-- `sc_type_is_structure_and_arc`.
unfoldable pub sc_type_is_structure_and_arc : ℕ → ℕ → Bool
sc_type_is_structure_and_arc node_type arc_type =
    sc_type_has_subtype node_type sc_type_node_structure
    && sc_type_has_subtype_in_mask arc_type (bit_or sc_type_const sc_type_pos_arc)

-- The sc-connector with its elements is put in the lists of both.
unfoldable pub connect : ScAddr → ℕ → ScAddr → ScAddr → Storage → Storage
unfolding make_elements_incident_to_arc update_structure_arcs sc_type_is_structure_and_arc
connect connector type beg end st =
    let is_edge = sc_type_has_subtype type sc_type_common_edge in
    let is_not_loop = not (is_equal_addr beg end) in
    let st₁ = make_elements_incident_to_arc connector beg end false (not is_not_loop) st in
    let st₂ =
      if is_edge && is_not_loop
      then make_elements_incident_to_arc connector end beg true false st₁
      else st₁ in
    if sc_type_is_structure_and_arc (st₂.elements beg).type type
    then update_structure_arcs connector end st₂
    else st₂

unfoldable pub set_connector : ScAddr → ℕ → ScAddr → ScAddr → Storage → Storage
unfolding modify_element
set_connector connector type beg end st =
    modify_element connector
      (λ e. record e { type = type; arc = record e.arc { begin = beg; end = end } }) st

abbrev pub free_or_leave : Option Storage → Storage → Storage
free_or_leave none st = st
free_or_leave (some st') st = st'

unfoldable pub new_connector : ℕ → ScAddr → ScAddr → Option (Option ScAddr × Storage) → Run ScAddr
unfolding set_connector connect free_element
new_connector type beg end none = stuck
new_connector type beg end (some (none, st)) = fails error_full_memory st
new_connector type beg end (some (some connector, st)) =
    let st' = set_connector connector type beg end st in
    if is_element beg st' && is_element end st'
    then ok connector (connect connector type beg end st')
    else fails error_addr_is_not_valid (free_or_leave (free_element connector st') st')

-- `sc_storage_arc_new_ext`.
unfoldable pub arc_new : ℕ → ℕ → ℕ → ScAddr → ScAddr → Storage → Run ScAddr
unfolding allocate_new_element new_connector
arc_new rounds thread type beg end st =
    if not (sc_type_is_connector type)
    then fails error_element_is_not_connector st
    else if is_empty_addr beg || is_empty_addr end
    then fails error_addr_is_not_valid st
    else new_connector type beg end (allocate_new_element rounds thread st)
