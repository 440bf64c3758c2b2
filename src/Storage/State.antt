-- ===== src/Storage/State.antt =====
-- The state of the storage: `_sc_segment` of sc_segment.h, `_sc_storage` of sc_storage_private.h, and
-- the access to elements by their addresses. The monitors are left out: an operation runs alone.
use sc_memory_knowledge_sync.Base.{
  refl, arith, ◌≡◌, ltb, zero, ◌||◌, true, suc, ◌&&◌, not, false, some, ◌==◌, Bool, ◌-◌,
  if◌then◌else◌, none, Option, ℕ,
}
use sc_memory_knowledge_sync.ScAddr.{empty_addr, is_equal_addr, ScAddr}
use sc_memory_knowledge_sync.Storage.Element.{exists, zero_element, Element, has_state}

-- `_sc_segment` but for its elements.
pub record Segment : Type 0 where
  pub num : ℕ
  pub last_engaged_offset : ℕ
  pub last_released_offset : ℕ

-- `_sc_storage`. `segments i` is the pointer `segments[i]`, `none` for the null pointer, and the
-- element `segments[i]->elements[o]` is `elements` at the segment `i + 1` and the offset `o`. The
-- table of the segments of threads gives the number of a segment, 0 for the null pointer.
pub record Storage : Type 0 where
  pub segments : ℕ → Option Segment
  pub elements : ScAddr → Element
  pub segments_count : ℕ
  pub max_segments_count : ℕ
  pub last_not_engaged_segment_num : ℕ
  pub last_released_segment_num : ℕ
  pub processes_segments_table : ℕ → ℕ

abbrev pub sc_segment_elements_count : ℕ
sc_segment_elements_count = 65535

-- `sc_storage_initialize` without a load.
abbrev pub empty_storage : ℕ → Storage
empty_storage max = record {
  segments = λ i. none;
  elements = λ a. zero_element;
  segments_count = 0;
  max_segments_count = max;
  last_not_engaged_segment_num = 0;
  last_released_segment_num = 0;
  processes_segments_table = λ t. 0;
}

abbrev pub update {ℓ} : {A : Type ℓ} → (ℕ → A) → ℕ → A → ℕ → A
update f k a i = if i == k then a else f i

abbrev pub set_segment : ℕ → Segment → Storage → Storage
set_segment num s st = record st { segments = update st.segments (num - 1) (some s) }

-- A write through a pointer to an element.
unfoldable pub set_element : ScAddr → Element → Storage → Storage
set_element a e st = record st { elements = λ b. if is_equal_addr b a then e else st.elements b }

-- The segment with a number, by `segments[num - 1]`; the number 0 stands for no segment.
abbrev pub segment_of_num : ℕ → Storage → Option Segment
segment_of_num zero st = none
segment_of_num (suc i) st = st.segments i

abbrev pub is_some {ℓ} : {A : Type ℓ} → Option A → Bool
is_some none = false
is_some (some _) = true

-- Whether `sc_storage_get_element_by_addr` sets its pointer.
unfoldable pub is_pointer : ScAddr → Storage → Bool
is_pointer a st =
    not (
      a.seg == 0
      || (a.offset == 0
          || (ltb st.max_segments_count a.seg || ltb sc_segment_elements_count a.offset)))
    && is_some (segment_of_num a.seg st)

-- The element at an address, `none` for `SC_RESULT_ERROR_ADDR_IS_NOT_VALID`.
unfoldable pub get_element_by_addr : ScAddr → Storage → Option Element
unfolding is_pointer has_state
get_element_by_addr a st =
    if is_pointer a st && exists (st.elements a) then some (st.elements a) else none

unfoldable pub is_element : ScAddr → Storage → Bool
unfolding get_element_by_addr
is_element a st = is_some (get_element_by_addr a st)

pub get_element_by_addr-found :
    (a : ScAddr) (st : Storage)
    → is_element a st ≡ true
    → get_element_by_addr a st ≡ some (st.elements a)
unfolding is_element
get_element_by_addr-found a st h = ground arith

pub get_element_by_addr-none :
    (a : ScAddr) (st : Storage) → is_element a st ≡ false → get_element_by_addr a st ≡ none
unfolding is_element
get_element_by_addr-none a st h = ground arith

pub get_element_by_addr-empty : (st : Storage) → get_element_by_addr empty_addr st ≡ none
unfolding get_element_by_addr
get_element_by_addr-empty st = refl
