-- ===== src/Storage/Access.antt =====
-- The reads of an element, and the change of its type, of
-- sc-memory/sc-core/src/sc-store/sc_storage.c.
use sc_memory_knowledge_sync.Storage.Element.{ArcInfo, Element}
use sc_memory_knowledge_sync.Storage.State.{set_element, Storage, get_element_by_addr}
use sc_memory_knowledge_sync.Storage.Generate.{modify_element}
use sc_memory_knowledge_sync.Base.{none, not, if◌then◌else◌, some, ℕ, Option}
use sc_memory_knowledge_sync.ScAddr.{ScAddr}
use sc_memory_knowledge_sync.ScType.Extend.{is_type_extendable_to}
use sc_memory_knowledge_sync.Storage.Result.{
  ok, error_invalid_params, fails, error_element_is_not_connector, value, error_addr_is_not_valid,
  Run, refuses, Read,
}
use sc_memory_knowledge_sync.ScType.Flags.{sc_type_is_connector}

abbrev read : {A : Type 0} → (Element → A) → Option Element → Read A
read f none = refuses error_addr_is_not_valid
read f (some e) = value (f e)

unfoldable pub get_element_outgoing_arcs_count : ScAddr → Storage → Read ℕ
unfolding get_element_by_addr
get_element_outgoing_arcs_count a st = read (λ e. e.outgoing_arcs_count) (get_element_by_addr a st)

unfoldable pub get_element_incoming_arcs_count : ScAddr → Storage → Read ℕ
unfolding get_element_by_addr
get_element_incoming_arcs_count a st = read (λ e. e.incoming_arcs_count) (get_element_by_addr a st)

unfoldable pub get_element_type : ScAddr → Storage → Read ℕ
unfolding get_element_by_addr
get_element_type a st = read (λ e. e.type) (get_element_by_addr a st)

abbrev read_connector : {A : Type 0} → (ArcInfo → A) → Option Element → Read A
read_connector f none = refuses error_addr_is_not_valid
read_connector f (some e) =
    if not (sc_type_is_connector e.type)
    then refuses error_element_is_not_connector
    else value (f e.arc)

unfoldable pub get_arc_begin : ScAddr → Storage → Read ScAddr
unfolding get_element_by_addr
get_arc_begin a st = read_connector (λ arc. arc.begin) (get_element_by_addr a st)

unfoldable pub get_arc_end : ScAddr → Storage → Read ScAddr
unfolding get_element_by_addr
get_arc_end a st = read_connector (λ arc. arc.end) (get_element_by_addr a st)

unfoldable pub get_arc_info : ScAddr → Storage → Read (ScAddr × ScAddr)
unfolding get_element_by_addr
get_arc_info a st = read_connector (λ arc. (arc.begin, arc.end)) (get_element_by_addr a st)

unfoldable pub extend_type : ScAddr → ℕ → Option Element → Storage → Run (Unit {0})
unfolding modify_element set_element
extend_type a type none st = fails error_addr_is_not_valid st
extend_type a type (some e) st =
    if not (is_type_extendable_to e.type type)
    then fails error_invalid_params st
    else ok tt (modify_element a (λ e'. record e' { type = type }) st)

unfoldable pub change_element_subtype : ScAddr → ℕ → Storage → Run (Unit {0})
unfolding get_element_by_addr is_type_extendable_to extend_type
change_element_subtype a type st = extend_type a type (get_element_by_addr a st) st
