-- ===== src/Storage/Iterator3/Connector.antt =====
-- The iterators with a given sc-connector, which give one triple at most: `_sc_iterator3_a_f_a_next`,
-- `_sc_iterator3_f_f_a_next`, `_sc_iterator3_a_f_f_next` and `_sc_iterator3_f_f_f_next`.
use sc_memory_knowledge_sync.ScAddr.{is_equal_addr, ScAddr}
use sc_memory_knowledge_sync.Storage.Iterator3.{
  begin_from, end_from, is_readable, finish, accessed, param_addr, is_edge, if◌then◌else◌, Found,
  Context, Iterator3,
}
use sc_memory_knowledge_sync.Base.{◌&&◌, some, none, ◌||◌, not, Option, true, if◌then◌else◌, Bool}
use sc_memory_knowledge_sync.Storage.Element.{Element}
use sc_memory_knowledge_sync.Storage.State.{Storage, get_element_by_addr}
use sc_memory_knowledge_sync.ScType.Flags.{sc_type_has_subtype}

abbrev at : ScAddr → Found → Found
at a r = record { addr = a; is_accessed = r.is_accessed }

abbrev pub succeed : Iterator3 → Bool × Iterator3
succeed it = (true, record it { finished = true })

-- `arc_begin` and `arc_end` are the two elements of a sc-connector, in this order but for an edge.
abbrev is_begin : ScAddr → Element → Bool
is_begin a e =
    if is_edge e
    then is_equal_addr a e.arc.begin || is_equal_addr a e.arc.end
    else is_equal_addr a e.arc.begin

abbrev is_end : ScAddr → Element → Bool
is_end a e =
    if is_edge e
    then is_equal_addr a e.arc.begin || is_equal_addr a e.arc.end
    else is_equal_addr a e.arc.end

module _ (ctx : Context) where
  -- The element of the given sc-connector, if it may be read.
  unfoldable pub connector_of : ScAddr → Storage → Option Element
  unfolding get_element_by_addr
  connector_of arc st = elim (get_element_by_addr arc st) [
    | none ↦ none
    | some e ↦ if is_readable ctx e arc then some e else none
  ]

  -- The results at the two sides: the second is given only with the first.
  abbrev with_begin_first : ScAddr → ScAddr → Iterator3 → Iterator3
  with_begin_first begin end it =
      if not (ctx.can_read begin)
      then it
      else let it' = record it { begin_result = accessed begin } in
        if not (ctx.can_read end) then it' else record it' { end_result = accessed end }

  abbrev with_end_first : ScAddr → ScAddr → Iterator3 → Iterator3
  with_end_first begin end it =
      if not (ctx.can_read end)
      then it
      else let it' = record it { end_result = accessed end } in
        if not (ctx.can_read begin) then it' else record it' { begin_result = accessed begin }

  unfoldable pub a_f_a_next : Iterator3 → Storage → Bool × Iterator3
  unfolding connector_of
  a_f_a_next it st =
      let arc = param_addr it.connector in
      elim (connector_of arc st) [
        | none ↦ finish (record it { connector_result = at arc it.connector_result })
        | some e ↦
            succeed (
              with_begin_first e.arc.begin e.arc.end
                (record it { connector_result = accessed arc }))
      ]

  unfoldable pub f_f_a_next : Iterator3 → Storage → Bool × Iterator3
  unfolding connector_of sc_type_has_subtype
  f_f_a_next it st =
      let begin = param_addr it.begin in
      let arc = param_addr it.connector in
      let it₁ = record it {
        begin_result = at begin it.begin_result;
        connector_result = at arc it.connector_result;
      } in
      let it₂ = record it₁ { connector_result = accessed arc } in
      elim (connector_of arc st) [
        | none ↦ finish it₁
        | some e ↦
            if not (is_begin begin e)
            then finish it₂
            else succeed (with_begin_first begin (end_from begin e) it₂)
      ]

  unfoldable pub a_f_f_next : Iterator3 → Storage → Bool × Iterator3
  unfolding connector_of sc_type_has_subtype
  a_f_f_next it st =
      let arc = param_addr it.connector in
      let end = param_addr it.end in
      let it₁ = record it {
        connector_result = at arc it.connector_result;
        end_result = at end it.end_result;
      } in
      let it₂ = record it₁ { connector_result = accessed arc } in
      elim (connector_of arc st) [
        | none ↦ finish it₁
        | some e ↦
            if not (is_end end e)
            then finish it₂
            else succeed (with_end_first (begin_from end e) end it₂)
      ]

  unfoldable pub f_f_f_next : Iterator3 → Storage → Bool × Iterator3
  unfolding connector_of sc_type_has_subtype
  f_f_f_next it st =
      let begin = param_addr it.begin in
      let arc = param_addr it.connector in
      let end = param_addr it.end in
      let it₁ = record it {
        begin_result = at begin it.begin_result;
        connector_result = at arc it.connector_result;
        end_result = at end it.end_result;
      } in
      let it₂ = record it₁ { connector_result = accessed arc } in
      elim (connector_of arc st) [
        | none ↦ finish it₁
        | some e ↦
            if not (is_begin begin e && is_end end e)
            then finish it₂
            else succeed (with_begin_first begin end it₂)
      ]
