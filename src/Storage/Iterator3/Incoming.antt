-- ===== src/Storage/Iterator3/Incoming.antt =====
-- The searches of `_sc_iterator3_f_a_f_next` and `_sc_iterator3_a_a_f_next` along the incoming
-- sc-connectors of an element.
use sc_memory_knowledge_sync.Base.{
  zero, true, ◌&&◌, false, not, ◌||◌, suc, none, some, if◌then◌else◌, ℕ, Option, Bool,
}
use sc_memory_knowledge_sync.Storage.State.{Storage, get_element_by_addr}
use sc_memory_knowledge_sync.ScAddr.{is_empty_addr, is_equal_addr, ScAddr}
use sc_memory_knowledge_sync.Storage.Iterator3.{
  accessed_if, begin_from, is_readable, finish, param_type, accessed, param_addr, is_edge, next_in,
  Iterator3, compare_type, Context,
}
use sc_memory_knowledge_sync.Storage.Element.{Element}
use sc_memory_knowledge_sync.ScType.Flags.{sc_type_has_subtype}
use sc_memory_knowledge_sync.Storage.Generate.{sc_type_is_structure_and_arc}

-- The sc-connector from which a search goes on: the one after the last found, or the first.
abbrev pub first_in : Bool → Element → ScAddr
first_in from_structure e = if from_structure then e.first_in_arc_from_structure else e.first_in_arc

unfoldable pub start_in : Bool → ScAddr → ScAddr → Storage → Option ScAddr
unfolding get_element_by_addr sc_type_has_subtype
start_in from_structure end last st = elim (get_element_by_addr last st) [
  | some e ↦ some (next_in from_structure end e)
  | none ↦ elim (get_element_by_addr end st) [
    | none ↦ none
    | some e ↦ some (first_in from_structure e)
  ]
]

-- Whether a sc-connector begins at an element; a common edge has no direction.
abbrev pub begins_at : ScAddr → Element → Bool
begins_at begin e =
    if is_edge e
    then is_equal_addr begin e.arc.begin || is_equal_addr begin e.arc.end
    else is_equal_addr begin e.arc.begin

-- `sc_storage_get_element_type` into a variable that is 0 before.
abbrev pub type_or_zero : Option Element → ℕ
type_or_zero none = 0
type_or_zero (some e) = e.type

module _ (ctx : Context) where
  -- The loop of `_sc_iterator3_f_a_f_next`, with a bound on its rounds.
  unfoldable pub find_between :
      ℕ → ScAddr → ScAddr → ScAddr → Iterator3 → Storage → Option (Bool × Iterator3)
  unfolding get_element_by_addr compare_type sc_type_has_subtype
  find_between zero begin end arc it st = none
  find_between (suc rounds) begin end arc it st =
      let rest = λ (next : ScAddr). find_between rounds begin end next it st in
      if is_empty_addr arc then some (finish it) else elim (get_element_by_addr arc st) [
        | none ↦ some (finish it)
        | some e ↦
            if not (is_readable ctx e arc)
            then rest (next_in false end e)
            else if begins_at begin e && compare_type e.type (param_type it.connector)
            then some (true, record it { connector_result = accessed arc })
            else rest (next_in false end e)
      ]

  unfoldable pub f_a_f_next : ℕ → Iterator3 → Storage → Option (Bool × Iterator3)
  unfolding start_in find_between
  f_a_f_next rounds it st =
      let begin = param_addr it.begin in
      let end = param_addr it.end in
      let it₁ = record it {
        begin_result = record { addr = begin; is_accessed = it.begin_result.is_accessed };
        end_result = record { addr = end; is_accessed = it.end_result.is_accessed };
      } in
      let it₂ = record it₁ { begin_result = accessed begin } in
      let it₃ = record it₂ { end_result = accessed end } in
      if not (ctx.can_read begin)
      then some (finish it₁)
      else if not (ctx.can_read end)
      then some (finish it₂)
      else elim (start_in false end it.connector_result.addr st) [
        | none ↦ some (finish it₃)
        | some arc ↦ find_between rounds begin end arc it₃ st
      ]

  -- The loop of `_sc_iterator3_a_a_f_next`, with a bound on its rounds.
  unfoldable pub find_in :
      ℕ → Bool → ScAddr → ScAddr → Iterator3 → Storage → Option (Bool × Iterator3)
  unfolding get_element_by_addr compare_type sc_type_has_subtype
  find_in zero from_structure end arc it st = none
  find_in (suc rounds) from_structure end arc it st =
      let rest = λ (next : ScAddr). find_in rounds from_structure end next it st in
      if is_empty_addr arc then some (finish it) else elim (get_element_by_addr arc st) [
        | none ↦ some (finish it)
        | some e ↦
            if not (is_readable ctx e arc)
            then rest (next_in from_structure end e)
            else if compare_type e.type (param_type it.connector)
                && compare_type (type_or_zero (get_element_by_addr (begin_from end e) st))
                    (param_type it.begin)
            then some (
              true,
              record it {
                connector_result = accessed arc;
                begin_result = accessed_if ctx (begin_from end e) it.begin_result;
              },
            )
            else rest (next_in from_structure end e)
      ]

  unfoldable pub a_a_f_next : ℕ → Iterator3 → Storage → Option (Bool × Iterator3)
  unfolding start_in find_in sc_type_is_structure_and_arc
  a_a_f_next rounds it st =
      let end = param_addr it.end in
      let from_structure =
        sc_type_is_structure_and_arc (param_type it.begin) (param_type it.connector) in
      if not (ctx.can_read end)
      then some (
          finish (record it {
            end_result = record { addr = end; is_accessed = it.end_result.is_accessed };
          }))
      else let it' = record it { end_result = accessed end } in
        elim (start_in from_structure end it.connector_result.addr st) [
          | none ↦ some (finish it')
          | some arc ↦ find_in rounds from_structure end arc it' st
        ]
