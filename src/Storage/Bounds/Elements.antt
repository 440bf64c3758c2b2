-- ===== src/Storage/Bounds/Elements.antt =====
-- The bounds of the offsets after an element is allocated.
-- The element that is taken is behind the engaged ones, or was released.
use sc_memory_knowledge_sync.Storage.Allocate.{
  is_engaged, get_segment, set_next_released, begin_existence, unlink_segment, unlink_released,
  allocate_new_element, existing, get_released_element, release_from, get_element, take_element,
}
use sc_memory_knowledge_sync.Storage.State.{
  update, sc_segment_elements_count, segment_of_num, set_element, Segment, Storage,
}
use sc_memory_knowledge_sync.Base.{
  ◌||◌, arith, inr, inl, zero, ◌-◌, ◌==◌, ◌∙◌, refl, if◌then◌else◌, ap, Bool-cases, suc, none, sym,
  ltb, true, some, ◌≡◌, Option, ℕ,
}
use sc_memory_knowledge_sync.Storage.Bounds.{get_segment-fits, fits_after, fits}
use sc_memory_knowledge_sync.ScAddr.{ScAddr}

take_element-fits :
    (num i : ℕ) (s : Segment) (st : Storage)
    → segment_of_num num st ≡ some s
    → ltb s.last_engaged_offset sc_segment_elements_count ≡ true
    → fits (st.segments i) ≡ true
    → fits ((take_element num s st).1.segments i) ≡ true
unfolding take_element unlink_released set_element
take_element-fits num i s st e f h = elim (Bool-cases (is_engaged s)) [
  | inl k ↦ elim (Bool-cases (s.last_released_offset == 0)) [
    | inl l ↦ rw (take_element, k, l) h
    | inr l ↦
        rw (take_element, k, l)
          (elim (Bool-cases (i == num - 1)) [ inl m ↦ rw (update, m) f | inr m ↦ rw (update, m) h ])
  ]
  | inr k ↦
      rw (take_element, k)
        (elim (Bool-cases (i == num - 1)) [
          | inl m ↦ rw (update, m) (ground arith)
          | inr m ↦ rw (update, m) h
        ])
]

-- The segments engage no offset behind their elements.
abbrev pub IsBounded : Storage → Type 0
IsBounded st = (i : ℕ) → fits (st.segments i) ≡ true

segment_of_num-fits :
    (num : ℕ) (s : Segment) (st : Storage)
    → IsBounded st
    → segment_of_num num st ≡ some s
    → ltb s.last_engaged_offset sc_segment_elements_count ≡ true
segment_of_num-fits zero s st b e = cc
segment_of_num-fits (suc i) s st b e = sym (ap fits e) ∙ b i

taken :
    (i : ℕ) (r : Option (Option ℕ × Storage))
    → ((i : ℕ) → fits_after i r ≡ true)
    → fits_after i (elim r [
      | none ↦ none
      | some (none, st') ↦ some (none, st')
      | some (some num, st') ↦ elim (segment_of_num num st') [
        | none ↦ some (none, st')
        | some s ↦ some (take_element num s st')
      ]
    ])
      ≡ true
taken i none b = refl
taken i (some (none, st)) b = b i
taken i (some (some num, st)) b = go (segment_of_num num st) refl
  where
    go :
        (o : Option Segment)
        → segment_of_num num st ≡ o
        → fits_after i (elim o [ none ↦ some (none, st) | some s ↦ some (take_element num s st) ])
          ≡ true
    go none e = b i
    go (some s) e = take_element-fits num i s st e (segment_of_num-fits num s st b e) (b i)

get_element-fits :
    (rounds thread i : ℕ) (st : Storage)
    → IsBounded st
    → fits_after i (get_element rounds thread st) ≡ true
unfolding get_element
get_element-fits rounds thread i st b =
    taken i (get_segment rounds thread st) (λ j. get_segment-fits rounds thread j st (b j))

release_from-fits :
    (num i : ℕ) (s : Segment) (st : Storage)
    → ltb s.last_engaged_offset sc_segment_elements_count ≡ true
    → fits (st.segments i) ≡ true
    → fits ((release_from num s st).1.segments i) ≡ true
unfolding release_from unlink_released unlink_segment set_next_released set_element
release_from-fits num i s st f h =
    let next = (st.elements (record { seg = num; offset = s.last_released_offset })).type in
    let same : fits ((unlink_released num s st).segments i) ≡ true =
      elim (Bool-cases (i == num - 1)) [ inl m ↦ rw (update, m) f | inr m ↦ rw (update, m) h ] in
    elim (Bool-cases (next == 0)) [
      | inl n ↦ rw (release_from, n) same
      | inr n ↦ rw (release_from, n) same
    ]

get_released_element-fits :
    (rounds i : ℕ) (st : Storage)
    → IsBounded st
    → fits_after i (get_released_element rounds st) ≡ true
unfolding get_released_element unlink_segment set_next_released set_element
get_released_element-fits zero i st b = refl
get_released_element-fits (suc rounds) i st b =
    let num = st.last_released_segment_num in
    let ih = get_released_element-fits rounds i (unlink_segment num st) b in
    elim (Bool-cases (num == 0 || ltb st.max_segments_count num)) [
      | inl n ↦ rw (get_released_element, n) (b i)
      | inr n ↦ rw (get_released_element, n) (go ih (segment_of_num num st) refl)
    ]
  where
    go :
        fits_after i (get_released_element rounds (unlink_segment st.last_released_segment_num st))
          ≡ true
        → (o : Option Segment) → segment_of_num st.last_released_segment_num st ≡ o
        → fits_after i (elim o [
          | none ↦ none
          | some s ↦
              if s.last_released_offset == 0
              then get_released_element rounds (unlink_segment st.last_released_segment_num st)
              else some (release_from st.last_released_segment_num s st)
        ])
          ≡ true
    go ih none e = refl
    go ih (some s) e = elim (Bool-cases (s.last_released_offset == 0)) [
      | inl n ↦ rw n ih
      | inr n ↦ rw n (
          release_from-fits st.last_released_segment_num i s st
            (segment_of_num-fits st.last_released_segment_num s st b e) (b i))
    ]

existing-fits :
    (i : ℕ) (r : Option ScAddr × Storage)
    → fits (r.1.segments i) ≡ true
    → fits ((existing r).1.segments i) ≡ true
unfolding existing begin_existence set_element
existing-fits i (none, st) h = h
existing-fits i (some a, st) h = h

-- An element of the segment of the thread, or else a released one.
allocated :
    (rounds i : ℕ) (r : Option (Option ScAddr × Storage))
    → ((i : ℕ) → fits_after i r ≡ true)
    → fits_after i (elim r [
      | none ↦ none
      | some (some a, st') ↦ some (existing (some a, st'))
      | some (none, st') ↦ elim (get_released_element rounds st') [
        | none ↦ none
        | some r' ↦ some (existing r')
      ]
    ])
      ≡ true
allocated rounds i none b = refl
allocated rounds i (some (some a, st)) b = existing-fits i (some a, st) (b i)
allocated rounds i (some (none, st)) b =
    go (get_released_element rounds st) (get_released_element-fits rounds i st b)
  where
    go :
        (q : Option (Option ScAddr × Storage))
        → fits_after i q ≡ true
        → fits_after i (elim q [ none ↦ none | some r' ↦ some (existing r') ]) ≡ true
    go none h = refl
    go (some r') h = existing-fits i r' h

pub allocate_new_element-IsBounded :
    (rounds thread : ℕ) (o : Option ScAddr) (st st' : Storage)
    → IsBounded st
    → allocate_new_element rounds thread st ≡ some (o, st')
    → IsBounded st'
unfolding allocate_new_element
allocate_new_element-IsBounded rounds thread o st st' b e i =
    sym (ap (fits_after i) e)
    ∙ allocated rounds i (get_element rounds thread st) (λ j. get_element-fits rounds thread j st b)
