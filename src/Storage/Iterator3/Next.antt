-- ===== src/Storage/Iterator3/Next.antt =====
-- `sc_iterator3_next_ext` and `sc_iterator3_value_ext`.
use sc_memory_knowledge_sync.Storage.Iterator3.{
  f_f_f, a_f_f, f_f_a, a_f_a, f_a_f, a_a_f, f_a_a, Iterator3Type, Found, empty_result, Context,
  Iterator3,
}
use sc_memory_knowledge_sync.Base.{
  zero, true, suc, none, not, some, if◌then◌else◌, Bool, false, ℕ, Option,
}
use sc_memory_knowledge_sync.Storage.Iterator3.Outgoing.{f_a_a_next}
use sc_memory_knowledge_sync.Storage.State.{Storage}
use sc_memory_knowledge_sync.ScAddr.{ScAddr}
use sc_memory_knowledge_sync.Storage.Iterator3.Incoming.{f_a_f_next, a_a_f_next}
use sc_memory_knowledge_sync.Storage.Iterator3.Connector.{
  f_f_f_next, a_f_f_next, f_f_a_next, a_f_a_next,
}

abbrev pub restart : Iterator3 → Iterator3
restart it = record it {
  begin_result = record { addr = it.begin_result.addr; is_accessed = false };
  connector_result = record { addr = it.connector_result.addr; is_accessed = false };
  end_result = record { addr = it.end_result.addr; is_accessed = false };
}

abbrev pub clear : Iterator3 → Iterator3
clear it = record it {
  begin_result = empty_result;
  connector_result = empty_result;
  end_result = empty_result;
}

abbrev pub clear_if_none : Option (Bool × Iterator3) → Option (Bool × Iterator3)
clear_if_none none = none
clear_if_none (some (true, it)) = some (true, it)
clear_if_none (some (false, it)) = some (false, clear it)

module _ (ctx : Context) where
  unfoldable pub next_of_type : ℕ → Iterator3Type → Iterator3 → Storage → Option (Bool × Iterator3)
  unfolding f_a_a_next a_a_f_next f_a_f_next a_f_a_next f_f_a_next a_f_f_next f_f_f_next
  next_of_type rounds f_a_a it st = f_a_a_next ctx rounds it st
  next_of_type rounds a_a_f it st = a_a_f_next ctx rounds it st
  next_of_type rounds f_a_f it st = f_a_f_next ctx rounds it st
  next_of_type rounds a_f_a it st = some (a_f_a_next ctx it st)
  next_of_type rounds f_f_a it st = some (f_f_a_next ctx it st)
  next_of_type rounds a_f_f it st = some (a_f_f_next ctx it st)
  next_of_type rounds f_f_f it st = some (f_f_f_next ctx it st)

  -- `none` means that the bound on the rounds of a search was met.
  unfoldable pub iterator3_next : ℕ → Iterator3 → Storage → Option (Bool × Iterator3)
  unfolding next_of_type
  iterator3_next rounds it st =
      if it.finished
      then some (false, clear it)
      else if not ctx.is_authenticated
      then some (false, restart it)
      else clear_if_none (next_of_type rounds it.type (restart it) st)

abbrev result_at : ℕ → Iterator3 → Option Found
result_at zero it = some it.begin_result
result_at (suc zero) it = some it.connector_result
result_at (suc (suc zero)) it = some it.end_result
result_at _ it = none

abbrev accessible : Option Found → Option ScAddr
accessible none = none
accessible (some r) = if not r.is_accessed then none else some r.addr

-- `none` is an error of `sc_iterator3_value_ext`, which comes with the empty address.
unfoldable pub iterator3_value : ℕ → Iterator3 → Option ScAddr
iterator3_value index it = accessible (result_at index it)
