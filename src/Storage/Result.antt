-- ===== src/Storage/Result.antt =====
-- What an operation of the storage comes to: `sc_result` of
-- sc-memory/sc-core/include/sc-core/sc_types.h.
use sc_memory_knowledge_sync.Storage.State.{Storage}

-- The errors that the storage reports.
pub data ScResult : Type 0 where
  error_invalid_params : ScResult
  error_full_memory : ScResult
  error_addr_is_not_valid : ScResult
  error_element_is_not_node : ScResult
  error_element_is_not_link : ScResult
  error_element_is_not_connector : ScResult

-- A value with `SC_RESULT_OK`, or an error, and the storage by then; or no result, where a search for
-- a segment met its bound or a null pointer was read.
pub data Run (A : Type 0) : Type 0 where
  ok : A → Storage → Run A
  fails : ScResult → Storage → Run A
  stuck : Run A

-- A reading operation.
pub data Read (A : Type 0) : Type 0 where
  value : A → Read A
  refuses : ScResult → Read A
