-- ===== src/Storage/Iterator3/Outgoing.antt =====
-- The search of `_sc_iterator3_f_a_a_next` along the outgoing sc-connectors of an element.
use sc_memory_knowledge_sync.Storage.Iterator3.{
  accessed_if, param_type, end_from, accessed, is_readable, finish, param_addr, next_out, Iterator3,
  compare_type, Context,
}
use sc_memory_knowledge_sync.Storage.State.{Storage, get_element_by_addr}
use sc_memory_knowledge_sync.Base.{
  zero, true, ◌&&◌, not, suc, if◌then◌else◌, none, some, Bool, Option, ℕ,
}
use sc_memory_knowledge_sync.ScAddr.{is_empty_addr, ScAddr}

module _ (ctx : Context) where
  -- The loop of `_sc_iterator3_f_a_a_next` over the outgoing sc-connectors, from one of them on, with
  -- a bound on its rounds.
  unfoldable pub find_out : ℕ → ScAddr → ScAddr → Iterator3 → Storage → Option (Bool × Iterator3)
  find_out zero begin arc it st = none
  find_out (suc rounds) begin arc it st =
      let rest = λ (next : ScAddr). find_out rounds begin next it st in
      if is_empty_addr arc then some (finish it) else elim (get_element_by_addr arc st) [
        | none ↦ some (finish it)
        | some e ↦
            if not (is_readable ctx e arc)
            then rest (next_out begin e)
            else elim (get_element_by_addr (end_from begin e) st) [
              | none ↦ some (finish it)
              | some other ↦
                  if compare_type e.type (param_type it.connector)
                    && compare_type other.type (param_type it.end)
                  then some (
                    true,
                    record it {
                      connector_result = accessed arc;
                      end_result = accessed_if ctx (end_from begin e) it.end_result;
                    },
                  )
                  else rest (next_out begin e)
            ]
      ]

  -- The sc-connector from which the search goes on: the one after the last found, or the first.
  unfoldable pub start_out : ScAddr → ScAddr → Storage → Option ScAddr
  start_out begin last st = elim (get_element_by_addr last st) [
    | some e ↦ some (next_out begin e)
    | none ↦ elim (get_element_by_addr begin st) [ none ↦ none | some e ↦ some e.first_out_arc ]
  ]

  unfoldable pub f_a_a_next : ℕ → Iterator3 → Storage → Option (Bool × Iterator3)
  unfolding start_out find_out
  f_a_a_next rounds it st =
      let begin = param_addr it.begin in
      if not (ctx.can_read begin)
      then some (
          finish (record it {
            begin_result = record { addr = begin; is_accessed = it.begin_result.is_accessed };
          }))
      else let it' = record it { begin_result = accessed begin } in
        elim (start_out begin it.connector_result.addr st) [
          | none ↦ some (finish it')
          | some arc ↦ find_out rounds begin arc it' st
        ]
