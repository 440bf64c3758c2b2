-- ===== src/Storage/Free.antt =====
-- Which elements there are after one is freed.
use sc_memory_knowledge_sync.Storage.State.{
  set_element, update, set_segment, is_some, segment_of_num, Segment, get_element_by_addr, Storage,
  is_element, is_pointer,
}
use sc_memory_knowledge_sync.Base.{
  true_not_false, ◌-◌, none, true, Option, ap, zero, inr, inl, ◌==◌, sym, Bool-cases, suc, not, ◌∙◌,
  refl, ◌&&◌, arith, some, false, ◌≡◌, Bool, ℕ,
}
use sc_memory_knowledge_sync.Storage.Allocate.{
  free_element, set_next_released, head_of, release_offset,
}
use sc_memory_knowledge_sync.ScAddr.{is_equal_addr, ScAddr}
use sc_memory_knowledge_sync.Storage.Element.{zero_element, Element, exists, has_state}
use sc_memory_knowledge_sync.Storage.Views.{is_some_if}
use sc_memory_knowledge_sync.Storage.Generate.Fields.{addr_eq}
use sc_memory_knowledge_sync.Storage.Erase.{free_if_there}

pub is_pointer-head : (num : ℕ) (st : Storage) → is_pointer (head_of num) st ≡ false
unfolding is_pointer
is_pointer-head num st = ground arith

pub is_element-head : (num : ℕ) (st : Storage) → is_element (head_of num) st ≡ false
unfolding is_element get_element_by_addr
is_element-head num st = rw (is_pointer-head num st) refl

-- The segment with a number, of those that a storage has.
abbrev pub numbered : ℕ → (ℕ → Option Segment) → Option Segment
numbered zero segments = none
numbered (suc i) segments = segments i

segment_of_num-numbered : (n : ℕ) (st : Storage) → segment_of_num n st ≡ numbered n st.segments
segment_of_num-numbered zero st = refl
segment_of_num-numbered (suc n) st = refl

-- A change of a segment that is there.
update-is_some :
    (f : ℕ → Option Segment) (k : ℕ) (s s' : Segment) (i : ℕ)
    → f k ≡ some s
    → is_some (update f k (some s') i) ≡ is_some (f i)
update-is_some f k s s' i h = elim (Bool-cases (i == k)) [
  | inl e ↦ let same : i ≡ k = ground arith in rw e (sym (ap is_some (ap f same ∙ h)))
  | inr e ↦ rw e refl
]

pub update-numbered :
    (num : ℕ) (s s' : Segment) (f : ℕ → Option Segment) (n : ℕ)
    → numbered num f ≡ some s
    → is_some (numbered n (update f (num - 1) (some s'))) ≡ is_some (numbered n f)
update-numbered zero s s' f n h = cc
update-numbered (suc num) s s' f zero h = refl
update-numbered (suc num) s s' f (suc n) h =
    let pred : suc num - 1 ≡ num = omega arith in
    update-is_some f (suc num - 1) s s' n (ap f pred ∙ h)

-- What there is depends on the segments and on the states.
pub is_element-of :
    (st st' : Storage) (a : ScAddr)
    → st'.max_segments_count ≡ st.max_segments_count
    → is_some (numbered a.seg st'.segments) ≡ is_some (numbered a.seg st.segments)
    → exists (st'.elements a) ≡ exists (st.elements a)
    → is_element a st' ≡ is_element a st
unfolding is_element get_element_by_addr is_pointer has_state
is_element-of st st' a m s k =
    let s' =
      ap is_some (segment_of_num-numbered a.seg st')
      ∙ s
      ∙ sym (ap is_some (segment_of_num-numbered a.seg st)) in
    is_some_if (is_pointer a st' && exists (st'.elements a)) (st'.elements a)
    ∙ rw (s', m, k) refl
    ∙ sym (is_some_if (is_pointer a st && exists (st.elements a)) (st.elements a))

pub and_false : (b : Bool) → (b && false) ≡ false
and_false true = refl
and_false false = refl

pub and_true : (b : Bool) → (b && true) ≡ b
and_true true = refl
and_true false = refl

set_next_released-is_element :
    (num next : ℕ) (st : Storage) (x : ScAddr)
    → is_element x (set_next_released num next st) ≡ is_element x st
unfolding set_next_released set_element
set_next_released-is_element num next st x = elim (Bool-cases (is_equal_addr x (head_of num))) [
  | inl k ↦
      let at_head = λ (s : Storage).
        ap (λ y. is_element y s) (addr_eq x (head_of num) k) ∙ is_element-head num s in
      at_head (set_next_released num next st) ∙ sym (at_head st)
  | inr k ↦ is_element-of st (set_next_released num next st) x refl refl (rw k refl)
]

freed :
    (a x : ScAddr) (s s' : Segment) (e : Element) (st : Storage)
    → segment_of_num a.seg st ≡ some s
    → exists e ≡ false
    → is_element x (set_segment a.seg s' (set_element a e st))
      ≡ (is_element x st && not (is_equal_addr x a))
unfolding set_element is_element get_element_by_addr is_pointer
freed a x s s' e st h gone =
    let st' = set_segment a.seg s' (set_element a e st) in
    elim (Bool-cases (is_equal_addr x a)) [
      | inl k ↦
          is_some_if (is_pointer x st' && exists (st'.elements x)) (st'.elements x)
          ∙ rw (k, gone) (and_false (is_pointer x st') ∙ sym (and_false (is_element x st)))
      | inr k ↦
          is_element-of st st' x refl
            (update-numbered a.seg s s' st.segments x.seg
              (sym (segment_of_num-numbered a.seg st) ∙ h))
            (rw k refl)
          ∙ rw k (sym (and_true (is_element x st)))
    ]

release_offset-is_element :
    (a x : ScAddr) (s : Segment) (st : Storage)
    → segment_of_num a.seg st ≡ some s
    → is_element x (release_offset a s st) ≡ (is_element x st && not (is_equal_addr x a))
unfolding release_offset has_state is_element get_element_by_addr is_pointer
release_offset-is_element a x s st h =
    let s' = record s { last_released_offset = a.offset } in
    let e = record zero_element { type = s.last_released_offset } in
    let st' = set_segment a.seg s' (set_element a e st) in
    elim (Bool-cases (s.last_released_offset == 0)) [
      | inl k ↦ rw k (
          is_element-of (set_next_released a.seg st'.last_released_segment_num st')
            (record (set_next_released a.seg st'.last_released_segment_num st') {
              last_released_segment_num = s.num;
            })
            x refl refl refl
          ∙ set_next_released-is_element a.seg st'.last_released_segment_num st' x
          ∙ freed a x s s' e st h refl)
      | inr k ↦ rw k (freed a x s s' e st h refl)
    ]

element-segment :
    (a : ScAddr) (st : Storage) → is_element a st ≡ true → is_some (segment_of_num a.seg st) ≡ true
unfolding is_element get_element_by_addr is_pointer
element-segment a st h = ground arith

-- After `sc_storage_free_element` there is no element at the address, whatever was there; the other
-- elements stay, and at no other address there is a new one.
pub free_if_there-is_element :
    (a x : ScAddr) (st : Storage)
    → is_element x (free_if_there a st) ≡ (is_element x st && not (is_equal_addr x a))
unfolding free_if_there free_element
free_if_there-is_element a x st = elim (Bool-cases (is_element a st)) [
  | inl k ↦ there k (segment_of_num a.seg st) refl
  | inr k ↦
      rw (free_if_there, free_element, k)
        (elim (Bool-cases (is_equal_addr x a)) [
          | inl e ↦
              rw e
                (ap (λ y. is_element y st) (addr_eq x a e) ∙ k ∙ sym (and_false (is_element x st)))
          | inr e ↦ rw e (sym (and_true (is_element x st)))
        ])
]
  where
    there :
        is_element a st ≡ true
        → (o : Option Segment) → segment_of_num a.seg st ≡ o
        → is_element x (free_if_there a st) ≡ (is_element x st && not (is_equal_addr x a))
    there k none n = absurd (true_not_false (sym (element-segment a st k) ∙ ap is_some n))
    there k (some s) n =
        rw (free_if_there, free_element, k, n) (release_offset-is_element a x s st n)

-- The other elements stay as they are.
set_next_released-elements :
    (num next : ℕ) (st : Storage) (x : ScAddr)
    → is_equal_addr x (head_of num) ≡ false
    → (set_next_released num next st).elements x ≡ st.elements x
unfolding set_next_released set_element
set_next_released-elements num next st x k = rw k refl

is_element-no_head :
    (x : ScAddr) (num : ℕ) (st : Storage)
    → is_element x st ≡ true
    → is_equal_addr x (head_of num) ≡ false
unfolding is_element get_element_by_addr is_pointer
is_element-no_head x num st h = ground arith

release_offset-elements :
    (a x : ScAddr) (s : Segment) (st : Storage)
    → is_equal_addr x a ≡ false
    → is_element x st ≡ true
    → (release_offset a s st).elements x ≡ st.elements x
unfolding release_offset set_element
release_offset-elements a x s st n k = elim (Bool-cases (s.last_released_offset == 0)) [
  | inl e ↦
      rw e (set_next_released-elements a.seg _ _ x (is_element-no_head x a.seg st k) ∙ rw n refl)
  | inr e ↦ rw (e, n) refl
]

pub free_if_there-elements :
    (a x : ScAddr) (st : Storage)
    → is_equal_addr x a ≡ false
    → is_element x st ≡ true
    → (free_if_there a st).elements x ≡ st.elements x
unfolding free_if_there free_element
free_if_there-elements a x st n k = elim (Bool-cases (is_element a st)) [
  | inl h ↦ there h (segment_of_num a.seg st) refl
  | inr h ↦ rw (free_if_there, free_element, h) refl
]
  where
    there :
        is_element a st ≡ true
        → (o : Option Segment) → segment_of_num a.seg st ≡ o
        → (free_if_there a st).elements x ≡ st.elements x
    there h none e = rw (free_if_there, free_element, h, e) refl
    there h (some s) e =
        rw (free_if_there, free_element, h, e) (release_offset-elements a x s st n k)
