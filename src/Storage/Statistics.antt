-- ===== src/Storage/Statistics.antt =====
-- The statistics of the elements, `sc_segment_collect_elements_stat` of
-- sc-memory/sc-core/src/sc-store/sc_segment.c and `sc_storage_get_elements_stat` of sc_storage.c.
use sc_memory_knowledge_sync.Base.{
  inr, refl, inl, Bool-cases, ◌∙◌, arith, false, ap, ◌==◌, some, bit_and, ◌^◌, none, zero, ◌≡◌, ◌<◌,
  if◌then◌else◌, ◌%◌, suc, ◌+◌, ℕ,
}
use sc_memory_knowledge_sync.ScType.Flags.{
  sc_type_connector_mask, sc_type_node_link, sc_type_node, sc_type_has_subtype_in_mask,
  sc_type_has_subtype,
}
use sc_memory_knowledge_sync.Storage.State.{Segment, segment_of_num, set_element, Storage}
use sc_memory_knowledge_sync.Storage.Element.{sc_state_element_exist, Element}

-- `_sc_stat`.
pub record Stat : Type 0 where
  pub node_count : ℕ
  pub connector_count : ℕ
  pub link_count : ℕ

abbrev incremented : ℕ → ℕ
incremented n = (n + 1) % 2 ^ 64

unfoldable pub count_element : Element → Stat → Stat
unfolding sc_type_has_subtype sc_type_has_subtype_in_mask
count_element e stat =
    let with_node = record stat { node_count = incremented stat.node_count } in
    if bit_and e.states sc_state_element_exist == 0
    then stat
    else if sc_type_has_subtype e.type sc_type_node
    then (if sc_type_has_subtype e.type sc_type_node_link
        then record with_node { link_count = incremented stat.link_count }
        else with_node)
    else if sc_type_has_subtype_in_mask e.type sc_type_connector_mask
    then record stat { connector_count = incremented stat.connector_count }
    else stat

-- The loop over the offsets below a bound.
unfoldable pub count_below : ℕ → (ℕ → Element) → Stat → Stat
unfolding count_element
count_below zero elements stat = stat
count_below (suc i) elements stat = count_element (elements i) (count_below i elements stat)

abbrev pub elements_of : ℕ → Storage → ℕ → Element
elements_of num st offset = st.elements (record { seg = num; offset = offset })

unfoldable pub collect_elements_stat : ℕ → Storage → Stat → Stat
unfolding count_below
collect_elements_stat num st stat = elim (segment_of_num num st) [
  | none ↦ stat
  | some s ↦ count_below s.last_engaged_offset (elements_of num st) stat
]

unfoldable pub count_segments : ℕ → Storage → Stat → Stat
unfolding collect_elements_stat
count_segments zero st stat = stat
count_segments (suc i) st stat = collect_elements_stat (suc i) st (count_segments i st stat)

unfoldable pub get_elements_stat : Storage → Stat
unfolding count_segments
get_elements_stat st =
    count_segments st.segments_count st
      (record { node_count = 0; connector_count = 0; link_count = 0 })

count_below-same :
    (n : ℕ) (f g : ℕ → Element) (stat : Stat)
    → ((i : ℕ) → i < n → f i ≡ g i)
    → count_below n f stat ≡ count_below n g stat
unfolding count_below
count_below-same zero f g stat h = refl
count_below-same (suc n) f g stat h =
    ap (λ e. count_element e (count_below n f stat)) (h n (omega arith))
    ∙ ap (count_element (g n)) (count_below-same n f g stat (λ i l. h i (omega arith)))

set_element-elements_of :
    (num last : ℕ) (e : Element) (st : Storage) (i : ℕ)
    → i < last
    → elements_of num (set_element (record { seg = num; offset = last }) e st) i
      ≡ elements_of num st i
unfolding set_element
set_element-elements_of num last e st i l =
    let other : (i == last) ≡ false = ground arith in
    elim (Bool-cases (num == num)) [ inl h ↦ rw (h, other) refl | inr h ↦ rw h refl ]

-- The element that a segment engaged last is in none of the statistics of the segment: they are the
-- same whatever it is.
pub collect_elements_stat-last :
    (num : ℕ) (s : Segment) (e : Element) (st : Storage) (stat : Stat)
    → segment_of_num num st ≡ some s
    → collect_elements_stat num
        (set_element (record { seg = num; offset = s.last_engaged_offset }) e st)
        stat
      ≡ collect_elements_stat num st stat
unfolding collect_elements_stat set_element
collect_elements_stat-last zero s e st stat h = cc
collect_elements_stat-last (suc num) s e st stat h =
    rw (collect_elements_stat, h)
      (count_below-same s.last_engaged_offset
        (elements_of (suc num)
          (set_element (record { seg = suc num; offset = s.last_engaged_offset }) e st))
        (elements_of (suc num) st) stat
        (set_element-elements_of (suc num) s.last_engaged_offset e st))
