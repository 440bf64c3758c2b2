-- ===== src/Storage/Element.antt =====
-- A sc-element as the storage keeps it, sc-memory/sc-core/src/sc-store/sc_element.h, with the links
-- between the sc-connectors of structures.
use sc_memory_knowledge_sync.ScAddr.{empty_addr, ScAddr}
use sc_memory_knowledge_sync.Base.{◌==◌, bit_and, Bool, ℕ}

-- `_sc_arc_info`.
pub record ArcInfo : Type 0 where
  pub begin : ScAddr
  pub end : ScAddr
  pub next_begin_out_arc : ScAddr
  pub prev_begin_out_arc : ScAddr
  pub next_begin_in_arc : ScAddr
  pub next_end_out_arc : ScAddr
  pub next_end_in_arc : ScAddr
  pub prev_end_in_arc : ScAddr
  pub prev_in_arc_from_structure : ScAddr
  pub next_in_arc_from_structure : ScAddr

-- `_sc_element` with its flags: the type and the states.
pub record Element : Type 0 where
  pub type : ℕ
  pub states : ℕ
  pub first_out_arc : ScAddr
  pub first_in_arc : ScAddr
  pub first_in_arc_from_structure : ScAddr
  pub arc : ArcInfo
  pub incoming_arcs_count : ℕ
  pub outgoing_arcs_count : ℕ

abbrev pub sc_state_request_erasure : ℕ
sc_state_request_erasure = 0x1

abbrev pub sc_state_is_erasable : ℕ
sc_state_is_erasable = 0x200

abbrev pub sc_state_element_exist : ℕ
sc_state_element_exist = 0x2

-- Memory that is set to zero.
abbrev pub no_arc : ArcInfo
no_arc = record {
  begin = empty_addr;
  end = empty_addr;
  next_begin_out_arc = empty_addr;
  prev_begin_out_arc = empty_addr;
  next_begin_in_arc = empty_addr;
  next_end_out_arc = empty_addr;
  next_end_in_arc = empty_addr;
  prev_end_in_arc = empty_addr;
  prev_in_arc_from_structure = empty_addr;
  next_in_arc_from_structure = empty_addr;
}

abbrev pub zero_element : Element
zero_element = record {
  type = 0;
  states = 0;
  first_out_arc = empty_addr;
  first_in_arc = empty_addr;
  first_in_arc_from_structure = empty_addr;
  arc = no_arc;
  incoming_arcs_count = 0;
  outgoing_arcs_count = 0;
}

-- `(flags.states & state) == state`.
unfoldable pub has_state : Element → ℕ → Bool
has_state e state = bit_and e.states state == state

abbrev pub exists : Element → Bool
exists e = has_state e sc_state_element_exist
