-- ===== src/Storage/Refused/Taken.antt =====
-- An allocation takes an address that held no element.
use sc_memory_knowledge_sync.Storage.State.{
  segment_of_num, set_element, set_segment, is_element, Segment, Storage,
}
use sc_memory_knowledge_sync.Storage.Element.{exists, has_state}
use sc_memory_knowledge_sync.ScAddr.{is_equal_addr, ScAddr}
use sc_memory_knowledge_sync.Base.{
  zero, suc, false, none, some, inl, inr, refl, sym, ap, arith, Bool-cases, ◌≡◌, ◌∙◌, ◌+◌, ◌==◌,
  Option, ℕ,
}
use sc_memory_knowledge_sync.Storage.Allocate.{
  is_engaged, unlink_released, take_element, get_element, get_segment,
}
use sc_memory_knowledge_sync.Storage.Generate.{modify_element}
use sc_memory_knowledge_sync.Storage.Generate.Fields.{modify_element-keeps}
use sc_memory_knowledge_sync.Storage.Free.{is_element-of, numbered, update-numbered}
use sc_memory_knowledge_sync.Storage.Refused.Segments.{get_segment-Like}
use sc_memory_knowledge_sync.Storage.Refused.Fresh.{IsFresh, Same, Like, Like-trans, LikeAfter}

-- What a result of an allocation leaves: the same elements where none was taken, and else those that
-- have not the address taken, at which there was none.
abbrev pub Takes : Storage → Option ScAddr × Storage → Type 0
Takes st (none, st') = Like st st'
Takes st (some c, st') =
    (is_element c st ≡ false)
    × ((x : ScAddr) → is_equal_addr x c ≡ false → is_element x st' ≡ is_element x st)

abbrev pub TakesAfter : Storage → Option (Option ScAddr × Storage) → Type 0
TakesAfter st none = Unit
TakesAfter st (some r) = Takes st r

pub Takes-behind :
    (st st' : Storage) (r : Option ScAddr × Storage) → Like st st' → Takes st' r → Takes st r
Takes-behind st st' (none, st'') h k = Like-trans st st' st'' h k
Takes-behind st st' (some c, st'') h k = (sym (h.1 c) ∙ k.0, λ x n. k.1 x n ∙ h.1 x)

pub TakesAfter-behind :
    (st st' : Storage) (r : Option (Option ScAddr × Storage))
    → Like st st'
    → TakesAfter st' r
    → TakesAfter st r
TakesAfter-behind st st' none h k = tt
TakesAfter-behind st st' (some r) h k = Takes-behind st st' r h k

numbered-of :
    (num : ℕ) (s : Segment) (st : Storage)
    → segment_of_num num st ≡ some s
    → numbered num st.segments ≡ some s
numbered-of zero s st h = h
numbered-of (suc i) s st h = h

-- A change of a segment.
set_segment-Same :
    (num : ℕ) (s s' : Segment) (st : Storage)
    → segment_of_num num st ≡ some s
    → Same st (set_segment num s' st)
set_segment-Same num s s' st h x =
    is_element-of st (set_segment num s' st) x refl
      (update-numbered num s s' st.segments x.seg (numbered-of num s st h)) refl

-- A change of the type of an element.
type-Same :
    (a : ScAddr) (t : ℕ) (st : Storage)
    → Same st (set_element a (record (st.elements a) { type = t }) st)
unfolding modify_element set_element has_state
type-Same a t st x =
    is_element-of st (set_element a (record (st.elements a) { type = t }) st) x refl refl
      (modify_element-keeps exists a st x (λ e. record e { type = t }) (λ e. refl))

pub unlink_released-Same :
    (num : ℕ) (s : Segment) (st : Storage)
    → segment_of_num num st ≡ some s
    → Same st (unlink_released num s st)
unfolding unlink_released set_element
unlink_released-Same zero s st h x = cc
unlink_released-Same (suc i) s st h x =
    let a : ScAddr = record { seg = suc i; offset = s.last_released_offset } in
    let st' = set_element a (record (st.elements a) { type = 0 }) st in
    set_segment-Same (suc i) s (record s { last_released_offset = (st.elements a).type }) st' h x
    ∙ type-Same a 0 st x

pub released-none :
    (num : ℕ) (s : Segment) (st : Storage)
    → IsFresh st
    → segment_of_num num st ≡ some s
    → is_element (record { seg = s.num; offset = s.last_released_offset }) st ≡ false
released-none zero s st f h = cc
released-none (suc i) s st f h =
    ap (λ n. is_element (record { seg = n; offset = s.last_released_offset }) st) (f.numbers i s h)
    ∙ f.released i s h

engaged-none :
    (num : ℕ) (s : Segment) (st : Storage)
    → IsFresh st
    → segment_of_num num st ≡ some s
    → is_element (record { seg = s.num; offset = s.last_engaged_offset + 1 }) st ≡ false
engaged-none zero s st f h = cc
engaged-none (suc i) s st f h =
    ap (λ n. is_element (record { seg = n; offset = s.last_engaged_offset + 1 }) st)
      (f.numbers i s h)
    ∙ f.engaged i (s.last_engaged_offset + 1) s h (omega arith)

take_element-Takes :
    (num : ℕ) (s : Segment) (st : Storage)
    → IsFresh st
    → segment_of_num num st ≡ some s
    → Takes st (take_element num s st)
unfolding take_element
take_element-Takes num s st f h = elim (Bool-cases (is_engaged s)) [
  | inr k ↦
      rw (take_element, k)
        (
          engaged-none num s st f h,
          λ x n.
              set_segment-Same num s (record s { last_engaged_offset = s.last_engaged_offset + 1 })
                st h x,
        )
  | inl k ↦ elim (Bool-cases (s.last_released_offset == 0)) [
    | inl l ↦ rw (take_element, k, l) (f, λ x. refl)
    | inr l ↦
        rw (take_element, k, l)
          (released-none num s st f h, λ x n. unlink_released-Same num s st h x)
  ]
]

pub get_element-Takes :
    (rounds thread : ℕ) (st : Storage) → IsFresh st → TakesAfter st (get_element rounds thread st)
unfolding get_element
get_element-Takes rounds thread st f =
    go (get_segment rounds thread st) (get_segment-Like rounds thread st f)
  where
    taken :
        (st' : Storage) (num : ℕ) (o : Option Segment)
        → segment_of_num num st' ≡ o
        → Like st st'
        → TakesAfter st
            (elim o [ none ↦ some (none, st') | some s ↦ some (take_element num s st') ])
    taken st' num none e l = l
    taken st' num (some s) e l =
        Takes-behind st st' (take_element num s st') l (take_element-Takes num s st' l.0 e)

    go :
        (r : Option (Option ℕ × Storage))
        → LikeAfter st r
        → TakesAfter st (elim r [
          | none ↦ none
          | some (none, st') ↦ some (none, st')
          | some (some num, st') ↦ elim (segment_of_num num st') [
            | none ↦ some (none, st')
            | some s ↦ some (take_element num s st')
          ]
        ])
    go none l = tt
    go (some (none, st')) l = l
    go (some (some num, st')) l = taken st' num (segment_of_num num st') refl l
