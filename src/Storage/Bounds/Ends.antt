-- ===== src/Storage/Bounds/Ends.antt =====
-- The loop over the segments that no thread holds ends: the list that it follows has a length.
use sc_memory_knowledge_sync.Storage.State.{is_some, segment_of_num, set_element, Segment, Storage}
use sc_memory_knowledge_sync.Storage.Element.{Element}
use sc_memory_knowledge_sync.Base.{
  zero, suc, true, false, none, some, inl, inr, refl, sym, ap, subst, arith, Bool-cases, ◌≡◌, ◌∙◌,
  ◌<◌, ◌==◌, length, if◌then◌else◌, [], ◌∷◌, List, Option, ℕ,
}
use sc_memory_knowledge_sync.Storage.Allocate.{
  head_of, set_next_not_engaged, get_last_not_engaged_segment, is_full,
}

-- A list of segments, linked by a field of the elements at their offsets 0; it ends with the number 0.
abbrev pub SegmentList : (Element → ℕ) → Storage → List ℕ → ℕ → Type 0
SegmentList next st [] num = num ≡ 0
SegmentList next st (n ∷ ns) num =
    (num ≡ n)
    × (is_some (segment_of_num num st) ≡ true)
    × SegmentList next st ns (next (st.elements (head_of num)))

abbrev pub IsOther : ℕ → List ℕ → Type 0
IsOther k [] = Unit
IsOther k (n ∷ ns) = ((n == k) ≡ false) × IsOther k ns

-- No segment is in the list twice.
abbrev pub AreOther : List ℕ → Type 0
AreOther [] = Unit
AreOther (n ∷ ns) = IsOther n ns × AreOther ns

-- What the storage has to keep for a list to stay: all segments but one, and their links.
abbrev pub KeepsLinks : (Element → ℕ) → ℕ → Storage → Storage → Type 0
KeepsLinks next k st st' =
    (n : ℕ)
    → (n == k) ≡ false
    → is_some (segment_of_num n st) ≡ true
    → (is_some (segment_of_num n st') ≡ true)
      × (next (st'.elements (head_of n)) ≡ next (st.elements (head_of n)))

pub SegmentList-frame :
    (next : Element → ℕ) (k : ℕ) (st st' : Storage)
    → KeepsLinks next k st st'
    → (ns : List ℕ) (num num' : ℕ) → num' ≡ num
    → IsOther k ns
    → SegmentList next st ns num
    → SegmentList next st' ns num'
SegmentList-frame next k st st' f [] num num' e o h = e ∙ h
SegmentList-frame next k st st' f (n ∷ ns) num num' e o (same, there, h) =
    let other : (num == k) ≡ false = ap (λ m. m == k) same ∙ o.0 in
    let (there', link) = f num other there in
    (
      e ∙ same,
      ap (λ m. is_some (segment_of_num m st')) e ∙ there',
      SegmentList-frame next k st st' f ns (next (st.elements (head_of num)))
          (next (st'.elements (head_of num'))) (ap (λ m. next (st'.elements (head_of m))) e ∙ link)
          o.1 h,
    )

pub IsOther-zero :
    (next : Element → ℕ) (st : Storage) (ns : List ℕ) (num : ℕ)
    → SegmentList next st ns num
    → IsOther 0 ns
IsOther-zero next st [] num h = tt
IsOther-zero next st (n ∷ ns) num (same, there, h) = (
  positive n (ap (λ m. is_some (segment_of_num m st)) (sym same) ∙ there),
  IsOther-zero next st ns (next (st.elements (head_of num))) h,
)
  where
    positive : (n : ℕ) → is_some (segment_of_num n st) ≡ true → (n == 0) ≡ false
    positive zero e = cc
    positive (suc i) e = ground arith

pub segment_of_num-as :
    (n : ℕ) (st st' : Storage)
    → st'.segments ≡ st.segments
    → segment_of_num n st' ≡ segment_of_num n st
segment_of_num-as zero st st' h = refl
segment_of_num-as (suc i) st st' h = ap (λ g. g i) h

pub other_head :
    (n k : ℕ) (e : Element) (st : Storage)
    → (n == k) ≡ false
    → (set_element (head_of k) e st).elements (head_of n) ≡ st.elements (head_of n)
unfolding set_element
other_head n k e st h = rw h refl

pub get_last_not_engaged_segment-ends :
    (rounds : ℕ) (ns : List ℕ) (st : Storage)
    → length ns < rounds
    → AreOther ns
    → SegmentList (λ e. e.states) st ns st.last_not_engaged_segment_num
    → is_some (get_last_not_engaged_segment rounds st) ≡ true
unfolding get_last_not_engaged_segment set_next_not_engaged
get_last_not_engaged_segment-ends zero ns st l o h = absurd (omega arith)
get_last_not_engaged_segment-ends (suc rounds) [] st l o h =
    let no_segment : segment_of_num st.last_not_engaged_segment_num st ≡ none =
      ap (λ n. segment_of_num n st) h in
    rw (get_last_not_engaged_segment, no_segment) refl
get_last_not_engaged_segment-ends (suc rounds) (n ∷ ns) st l o (same, there, h) =
    let num = st.last_not_engaged_segment_num in
    let next = (st.elements (head_of num)).states in
    let st₁ : Storage = record st { last_not_engaged_segment_num = next } in
    let st' = set_next_not_engaged num 0 st₁ in
    let other : IsOther num ns = subst (λ k. IsOther k ns) (sym same) o.0 in
    let keeps : KeepsLinks (λ e. e.states) num st st' = λ m a t. (
      ap is_some (segment_of_num-as m st st' refl) ∙ t,
      ap (λ e. e.states)
          (other_head m num (record (st.elements (head_of num)) { states = 0 }) st₁ a),
    ) in
    let ih =
      get_last_not_engaged_segment-ends rounds ns st' (omega (arith, l)) o.1
        (SegmentList-frame (λ e. e.states) num st st' keeps ns next next refl other h) in
    go (get_last_not_engaged_segment rounds st') ih (segment_of_num num st)
  where
    go :
        (r : Option (Option ℕ × Storage))
        → is_some r ≡ true
        → (o : Option Segment)
        → is_some {A = Option ℕ × Storage} (elim o [
          | none ↦ some (none, st)
          | some s ↦
              if is_full s
              then r
              else some (
                some st.last_not_engaged_segment_num,
                set_next_not_engaged st.last_not_engaged_segment_num 0 (record st {
                  last_not_engaged_segment_num =
                      (st.elements (head_of st.last_not_engaged_segment_num)).states;
                }),
              )
        ])
          ≡ true
    go r e none = refl
    go r e (some s) = elim (Bool-cases (is_full s)) [ inl f ↦ rw f e | inr f ↦ rw f refl ]
