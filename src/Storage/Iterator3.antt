-- ===== src/Storage/Iterator3.antt =====
-- Iterators over triples, sc-memory/sc-core/src/sc-store/sc_iterator3.c and
-- sc-memory/sc-core/include/sc-core/sc_iterator3.h.
pub mod Outgoing
pub mod Incoming
pub mod Connector
pub mod New
pub mod Next
pub mod Walk
use sc_memory_knowledge_sync.Base.{
  zero, suc, not, ◌&&◌, true, if◌then◌else◌, none, some, false, ℕ, Option, Bool,
}
use sc_memory_knowledge_sync.ScAddr.{is_empty_addr, is_equal_addr, empty_addr, ScAddr}
use sc_memory_knowledge_sync.ScType.Flags.{sc_type_common_edge, sc_type_has_subtype}
use sc_memory_knowledge_sync.Storage.Element.{Element}
use sc_memory_knowledge_sync.Storage.State.{Storage, get_element_by_addr}

-- What the permissions of a memory context allow: `_sc_memory_context_is_authenticated`,
-- `_sc_memory_context_check_local_and_global_permissions` for reading an element, and
-- `_sc_memory_context_check_global_permissions_to_read_permissions`.
pub record Context : Type 0 where
  pub is_authenticated : Bool
  pub can_read : ScAddr → Bool
  pub can_read_permissions : Element → ScAddr → Bool

pub data Iterator3Type : Type 0 where
  f_a_a a_a_f f_a_f a_f_a f_f_a a_f_f f_f_f : Iterator3Type

-- `_sc_iterator_param`: an address, or a type.
pub data Param : Type 0 where
  fixed : ScAddr → Param
  assigned : ℕ → Param

-- `_sc_iterator_result`.
pub record Found : Type 0 where
  pub addr : ScAddr
  pub is_accessed : Bool

-- `_sc_iterator3` but for its context.
pub record Iterator3 : Type 0 where
  pub type : Iterator3Type
  pub begin : Param
  pub connector : Param
  pub end : Param
  pub begin_result : Found
  pub connector_result : Found
  pub end_result : Found
  pub finished : Bool

-- Memory that is set to zero, and `SC_ITERATOR_RESULT_EMPTY`.
abbrev pub no_result : Found
no_result = record { addr = empty_addr; is_accessed = false }

abbrev pub empty_result : Found
empty_result = record { addr = empty_addr; is_accessed = true }

abbrev new_iterator3 : Iterator3Type → Param → Param → Param → Option Iterator3
new_iterator3 type p1 p2 p3 = some (record {
  type = type;
  begin = p1;
  connector = p2;
  end = p3;
  begin_result = no_result;
  connector_result = no_result;
  end_result = no_result;
  finished = false;
})

-- `sc_iterator3_new`.
unfoldable pub iterator3_new : Iterator3Type → Param → Param → Param → Option Iterator3
iterator3_new f_a_a (fixed a) (assigned s) (assigned t) =
    new_iterator3 f_a_a (fixed a) (assigned s) (assigned t)
iterator3_new a_a_f (assigned r) (assigned s) (fixed c) =
    new_iterator3 a_a_f (assigned r) (assigned s) (fixed c)
iterator3_new f_a_f (fixed a) (assigned s) (fixed c) =
    new_iterator3 f_a_f (fixed a) (assigned s) (fixed c)
iterator3_new a_f_a (assigned r) (fixed b) (assigned t) =
    new_iterator3 a_f_a (assigned r) (fixed b) (assigned t)
iterator3_new f_f_a (fixed a) (fixed b) (assigned t) =
    new_iterator3 f_f_a (fixed a) (fixed b) (assigned t)
iterator3_new a_f_f (assigned r) (fixed b) (fixed c) =
    new_iterator3 a_f_f (assigned r) (fixed b) (fixed c)
iterator3_new f_f_f (fixed a) (fixed b) (fixed c) =
    new_iterator3 f_f_f (fixed a) (fixed b) (fixed c)
iterator3_new _ _ _ _ = none

abbrev pub param_addr : Param → ScAddr
param_addr (fixed a) = a
param_addr (assigned t) = empty_addr

abbrev pub param_type : Param → ℕ
param_type (fixed a) = 0
param_type (assigned t) = t

-- `sc_iterator_compare_type`.
unfoldable pub compare_type : ℕ → ℕ → Bool
unfolding sc_type_has_subtype
compare_type el_type it_type = sc_type_has_subtype el_type it_type

abbrev pub is_edge : Element → Bool
is_edge e = sc_type_has_subtype e.type sc_type_common_edge

-- `_sc_iterator3_get_other_edge_incident_element`.
abbrev pub get_other_edge_incident_element : Element → ScAddr → ScAddr
get_other_edge_incident_element e a = if is_equal_addr a e.arc.end then e.arc.begin else e.arc.end

-- The next sc-connector in the list of an element, and the element at the other side.
abbrev pub next_out : ScAddr → Element → ScAddr
next_out begin e =
    if is_edge e
    then (if is_equal_addr begin e.arc.end
        then e.arc.next_end_out_arc
        else e.arc.next_begin_out_arc)
    else e.arc.next_begin_out_arc

abbrev pub next_in : Bool → ScAddr → Element → ScAddr
next_in from_structure end e =
    if is_edge e
    then (if is_equal_addr end e.arc.end then e.arc.next_end_in_arc else e.arc.next_begin_in_arc)
    else if from_structure
    then e.arc.next_in_arc_from_structure
    else e.arc.next_end_in_arc

abbrev pub end_from : ScAddr → Element → ScAddr
end_from begin e = if is_edge e then get_other_edge_incident_element e begin else e.arc.end

abbrev pub begin_from : ScAddr → Element → ScAddr
begin_from end e = if is_edge e then get_other_edge_incident_element e end else e.arc.begin

abbrev pub accessed : ScAddr → Found
accessed a = record { addr = a; is_accessed = true }

abbrev pub finish : Iterator3 → Bool × Iterator3
finish it = (false, record it { finished = true })

module _ (ctx : Context) where
  abbrev pub accessed_if : ScAddr → Found → Found
  accessed_if a r = if ctx.can_read a then accessed a else r

  abbrev pub is_readable : Element → ScAddr → Bool
  is_readable e a = ctx.can_read a && ctx.can_read_permissions e a
