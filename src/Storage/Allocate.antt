-- ===== src/Storage/Allocate.antt =====
-- The allocation and the release of elements, sc-memory/sc-core/src/sc-store/sc_storage.c and
-- sc_segment.c. The element at the offset 0 of a segment holds no sc-element: its type is the number
-- of the next segment with released elements, and its states are the number of the next segment that
-- no thread holds.
use sc_memory_knowledge_sync.Base.{
  ltb, zero, ◌||◌, suc, bit_or, not, ◌==◌, ◌-◌, ◌&&◌, ◌+◌, some, if◌then◌else◌, none, Bool, Option,
  ℕ,
}
use sc_memory_knowledge_sync.Storage.State.{
  sc_segment_elements_count, is_element, set_segment, segment_of_num, update, Storage,
  get_element_by_addr, Segment, set_element,
}
use sc_memory_knowledge_sync.ScAddr.{ScAddr}
use sc_memory_knowledge_sync.Storage.Element.{sc_state_element_exist, zero_element}

abbrev pub head_of : ℕ → ScAddr
head_of num = record { seg = num; offset = 0 }

unfoldable pub set_next_released : ℕ → ℕ → Storage → Storage
unfolding set_element
set_next_released num next st =
    set_element (head_of num) (record (st.elements (head_of num)) { type = next }) st

unfoldable pub set_next_not_engaged : ℕ → ℕ → Storage → Storage
unfolding set_element
set_next_not_engaged num next st =
    set_element (head_of num) (record (st.elements (head_of num)) { states = next }) st

-- All elements are engaged once, `last_engaged_offset + 1 == SC_SEGMENT_ELEMENTS_COUNT`.
abbrev pub is_engaged : Segment → Bool
is_engaged s = s.last_engaged_offset + 1 == sc_segment_elements_count

abbrev pub is_full : Segment → Bool
is_full s = is_engaged s && s.last_released_offset == 0

-- `sc_storage_free_element`; `none` is `SC_RESULT_ERROR_ADDR_IS_NOT_VALID`.
unfoldable pub release_offset : ScAddr → Segment → Storage → Storage
unfolding set_element
release_offset a s st =
    let st' =
      set_segment a.seg (record s { last_released_offset = a.offset })
        (set_element a (record zero_element { type = s.last_released_offset }) st) in
    if s.last_released_offset == 0
    then record (set_next_released a.seg st'.last_released_segment_num st') {
      last_released_segment_num = s.num;
    }
    else st'

unfoldable pub free_element : ScAddr → Storage → Option Storage
unfolding get_element_by_addr release_offset
free_element a st =
    if is_element a st
    then (elim (segment_of_num a.seg st) [ none ↦ none | some s ↦ some (release_offset a s st) ])
    else none

-- `_sc_storage_get_last_not_engaged_segment`, with a bound on its rounds; the outer `none` means that
-- the bound was met.
unfoldable pub get_last_not_engaged_segment : ℕ → Storage → Option (Option ℕ × Storage)
unfolding set_next_not_engaged
get_last_not_engaged_segment zero st = none
get_last_not_engaged_segment (suc rounds) st =
    let num = st.last_not_engaged_segment_num in
    elim (segment_of_num num st) [
      | none ↦ some (none, st)
      | some s ↦
          let next = (st.elements (head_of num)).states in
          let st' =
            set_next_not_engaged num 0 (record st { last_not_engaged_segment_num = next }) in
          let rest = get_last_not_engaged_segment rounds st' in
          if is_full s then rest else some (some num, st')
    ]

-- `sc_segment_new`: a segment of zeros.
abbrev pub new_segment : ℕ → Storage → Storage
new_segment num st = record st {
  segments =
      update st.segments (num - 1)
        (some (record { num = num; last_engaged_offset = 0; last_released_offset = 0 }));
  elements = λ a. if a.seg == num then zero_element else st.elements a;
  segments_count = num;
}

-- `_sc_storage_get_new_segment`.
unfoldable pub get_new_segment : Storage → Option ℕ × Storage
get_new_segment st =
    if st.segments_count == st.max_segments_count
    then (none, st)
    else (some (st.segments_count + 1), new_segment (st.segments_count + 1) st)

-- `_sc_storage_get_last_free_segment`.
unfoldable pub get_last_free_segment : Storage → Option ℕ
get_last_free_segment st = elim (segment_of_num st.segments_count st) [
  | none ↦ none
  | some s ↦ if is_engaged s then none else some st.segments_count
]

-- `_sc_storage_check_segment_type` on the segment of the thread.
unfoldable pub check_segment_type : ℕ → Storage → Option ℕ
check_segment_type num st = elim (segment_of_num num st) [
  | none ↦ none
  | some s ↦ if is_full s then none else some num
]

-- `sc_hash_table_insert` into the table of the threads.
abbrev pub hold : ℕ → ℕ → Storage → Storage
hold thread num st = record st {
  processes_segments_table = update st.processes_segments_table thread num;
}

-- `_sc_storage_get_new_segment`, or else `_sc_storage_get_last_free_segment`.
unfoldable pub open_segment : Storage → Option ℕ × Storage
unfolding get_new_segment get_last_free_segment
open_segment st =
    let (segment, st') = get_new_segment st in
    elim segment [ some num ↦ (some num, st') | none ↦ (get_last_free_segment st', st') ]

abbrev pub held : ℕ → Option ℕ × Storage → Option ℕ × Storage
held thread (none, st) = (none, st)
held thread (some num, st) = (some num, hold thread num st)

-- The part of `_sc_storage_get_segment` for a thread that holds no segment with room.
unfoldable pub engage_segment : ℕ → ℕ → Storage → Option (Option ℕ × Storage)
unfolding get_last_not_engaged_segment open_segment
engage_segment rounds thread st = elim (get_last_not_engaged_segment rounds st) [
  | none ↦ none
  | some (some num, st') ↦ some (held thread (some num, st'))
  | some (none, st') ↦ some (held thread (open_segment st'))
]

unfoldable pub get_segment : ℕ → ℕ → Storage → Option (Option ℕ × Storage)
unfolding check_segment_type engage_segment
get_segment rounds thread st = elim (check_segment_type (st.processes_segments_table thread) st) [
  | some num ↦ some (some num, st)
  | none ↦ engage_segment rounds thread st
]

-- The element at an offset of a segment is taken, with the type that it is left with.
abbrev engage : ℕ → Segment → Storage → Option ScAddr × Storage
engage num s st =
    let offset = s.last_engaged_offset + 1 in
    (
      some (record { seg = s.num; offset = offset }),
      set_segment num (record s { last_engaged_offset = offset }) st,
    )

-- The last released offset is taken from the list of the released ones of the segment.
unfoldable pub unlink_released : ℕ → Segment → Storage → Storage
unfolding set_element
unlink_released num s st =
    let a : ScAddr = record { seg = num; offset = s.last_released_offset } in
    set_segment num (record s { last_released_offset = (st.elements a).type })
      (set_element a (record (st.elements a) { type = 0 }) st)

unfoldable pub take_element : ℕ → Segment → Storage → Option ScAddr × Storage
unfolding unlink_released
take_element num s st =
    if not (is_engaged s)
    then engage num s st
    else if not (s.last_released_offset == 0)
    then (some (record { seg = s.num; offset = s.last_released_offset }), unlink_released num s st)
    else (none, st)

-- `_sc_storage_get_element`.
unfoldable pub get_element : ℕ → ℕ → Storage → Option (Option ScAddr × Storage)
unfolding get_segment take_element
get_element rounds thread st = elim (get_segment rounds thread st) [
  | none ↦ none
  | some (none, st') ↦ some (none, st')
  | some (some num, st') ↦ elim (segment_of_num num st') [
    | none ↦ some (none, st')
    | some s ↦ some (take_element num s st')
  ]
]

-- The first segment of the list of segments with released elements leaves the list.
unfoldable pub unlink_segment : ℕ → Storage → Storage
unfolding set_next_released
unlink_segment num st =
    set_next_released num 0
      (record st { last_released_segment_num = (st.elements (head_of num)).type })

-- An element is taken from a segment, which leaves the list with its last one.
unfoldable pub release_from : ℕ → Segment → Storage → Option ScAddr × Storage
unfolding unlink_released unlink_segment
release_from num s st =
    let next = (st.elements (record { seg = num; offset = s.last_released_offset })).type in
    let st' = unlink_released num s st in
    (
      some (record { seg = num; offset = s.last_released_offset }),
      if next == 0 then unlink_segment num st' else st',
    )

-- `_sc_storage_get_released_element`, with a bound on its rounds; the outer `none` means that the
-- bound was met or that a null pointer was read.
unfoldable pub get_released_element : ℕ → Storage → Option (Option ScAddr × Storage)
unfolding unlink_segment release_from
get_released_element zero st = none
get_released_element (suc rounds) st =
    let num = st.last_released_segment_num in
    let rest = get_released_element rounds (unlink_segment num st) in
    if num == 0 || ltb st.max_segments_count num
    then some (none, st)
    else elim (segment_of_num num st) [
      | none ↦ none
      | some s ↦ if s.last_released_offset == 0 then rest else some (release_from num s st)
    ]

-- The state of a new element; its history of versions is left out.
unfoldable pub begin_existence : ScAddr → Storage → Storage
unfolding set_element
begin_existence a st =
    set_element a
      (record (st.elements a) { states = bit_or (st.elements a).states sc_state_element_exist }) st

unfoldable pub existing : Option ScAddr × Storage → Option ScAddr × Storage
unfolding begin_existence
existing (none, st) = (none, st)
existing (some a, st) = (some a, begin_existence a st)

-- `sc_storage_allocate_new_element`; the inner `none` means that the memory is full.
unfoldable pub allocate_new_element : ℕ → ℕ → Storage → Option (Option ScAddr × Storage)
unfolding get_element get_released_element existing
allocate_new_element rounds thread st = elim (get_element rounds thread st) [
  | none ↦ none
  | some (some a, st') ↦ some (existing (some a, st'))
  | some (none, st') ↦ elim (get_released_element rounds st') [
    | none ↦ none
    | some r ↦ some (existing r)
  ]
]

-- `sc_storage_start_new_process` and `sc_storage_end_new_process`.
abbrev pub start_new_process : ℕ → Storage → Storage
start_new_process thread st = hold thread 0 st

-- A segment with room that its thread leaves is put first in the list of those that no thread holds.
unfoldable pub leave_segment : ℕ → Storage → Storage
unfolding set_next_not_engaged
leave_segment num st = elim (segment_of_num num st) [
  | none ↦ st
  | some s ↦
      if is_full s
      then st
      else record (set_next_not_engaged num st.last_not_engaged_segment_num st) {
        last_not_engaged_segment_num = s.num;
      }
]

unfoldable pub end_new_process : ℕ → Storage → Storage
unfolding leave_segment
end_new_process thread st = hold thread 0 (leave_segment (st.processes_segments_table thread) st)
