-- ===== src/Storage/Generate/Linked.antt =====
-- What the generation of a sc-connector does to the links of the sc-connectors.
use sc_memory_knowledge_sync.Base.{
  inr, inl, Bool-cases, ◌&&◌, refl, ◌∙◌, ap, true, Option, ◌≡◌, if◌then◌else◌, not, false, ℕ, Bool,
}
use sc_memory_knowledge_sync.ScAddr.{is_empty_addr, is_equal_addr, ScAddr}
use sc_memory_knowledge_sync.Storage.Generate.{
  direct_links, modify_element, link_connector, modify_arc, sc_type_is_structure_and_arc,
  update_structure_arcs, make_elements_incident_to_arc, modify_arc_at, connect,
}
use sc_memory_knowledge_sync.Storage.State.{is_pointer, set_element, Segment, Storage}
use sc_memory_knowledge_sync.Storage.Element.{ArcInfo, Element}
use sc_memory_knowledge_sync.ScType.Flags.{sc_type_common_edge, sc_type_has_subtype}
use sc_memory_knowledge_sync.Storage.Generate.Keeps.{
  same_branches, links, make_elements-at, IgnoresFirst, update_structure_arcs-keeps, Ignores,
}

-- The lists of the elements, without those from structures.
abbrev pub incident : Bool → ScAddr → ScAddr → ScAddr → Bool → Storage → Storage
incident true c b e l st =
    make_elements_incident_to_arc c e b true false (make_elements_incident_to_arc c b e false l st)
incident false c b e l st = make_elements_incident_to_arc c b e false l st

abbrev with_structure : Bool → ScAddr → ScAddr → Storage → Storage
with_structure true c e st = update_structure_arcs c e st
with_structure false c e st = st

-- The sc-connector is put in both lists of both elements.
abbrev pub is_two_way : ℕ → ScAddr → ScAddr → Bool
is_two_way type b e = sc_type_has_subtype type sc_type_common_edge && not (is_equal_addr b e)

abbrev pub generated : ScAddr → ℕ → ScAddr → ScAddr → Storage → Storage
generated c type b e st = incident (is_two_way type b e) c b e (not (not (is_equal_addr b e))) st

incident_if :
    (two : Bool) (c b e : ScAddr) (l : Bool) (st : Storage)
    → (if two
        then make_elements_incident_to_arc c e b true false
            (make_elements_incident_to_arc c b e false l st)
        else make_elements_incident_to_arc c b e false l st)
      ≡ incident two c b e l st
incident_if true c b e l st = refl
incident_if false c b e l st = refl

with_structure_if :
    (s : Bool) (c e : ScAddr) (st : Storage)
    → (if s then update_structure_arcs c e st else st) ≡ with_structure s c e st
with_structure_if true c e st = refl
with_structure_if false c e st = refl

abbrev is_structure_arc : ScAddr → ℕ → Storage → Bool
is_structure_arc b type st = sc_type_is_structure_and_arc (st.elements b).type type

connect-with_structure :
    (c : ScAddr) (type : ℕ) (b e : ScAddr) (st : Storage)
    → connect c type b e st
      ≡ with_structure
          (is_structure_arc b type (generated c type b e st))
          c
          e
          (generated c type b e st)
unfolding connect
connect-with_structure c type b e st =
    ap (λ s. if is_structure_arc b type s then update_structure_arcs c e s else s)
      (incident_if (is_two_way type b e) c b e (not (not (is_equal_addr b e))) st)
    ∙ with_structure_if (is_structure_arc b type (generated c type b e st)) c e
        (generated c type b e st)

-- The segments of a storage.
abbrev pub shape : Storage → (ℕ → Option Segment) × ℕ
shape st = (st.segments, st.max_segments_count)

modify_arc_at-shape :
    (a : ScAddr) (f : ArcInfo → ArcInfo) (st : Storage) → shape (modify_arc_at a f st) ≡ shape st
unfolding modify_arc_at modify_arc modify_element set_element
modify_arc_at-shape a f st = elim (Bool-cases (not (is_empty_addr a) && is_pointer a st)) [
  | inl h ↦ rw h refl
  | inr h ↦ rw h refl
]

make_elements-shape :
    (c b e : ScAddr) (r l : Bool) (st : Storage)
    → shape (make_elements_incident_to_arc c b e r l st) ≡ shape st
unfolding make_elements_incident_to_arc link_connector modify_element set_element modify_arc
make_elements-shape c b e true l st = refl
make_elements-shape c b e false l st =
    let fo = (st.elements b).first_out_arc in
    let fi = (st.elements e).first_in_arc in
    let st₁ = modify_arc c (direct_links l fo fi) st in
    let st₂ = modify_arc_at fo (λ arc. record arc { prev_begin_out_arc = c }) st₁ in
    modify_arc_at-shape fi (λ arc. record arc { prev_end_in_arc = c }) st₂
    ∙ modify_arc_at-shape fo (λ arc. record arc { prev_begin_out_arc = c }) st₁

incident-shape :
    (two : Bool) (c b e : ScAddr) (l : Bool) (st : Storage)
    → shape (incident two c b e l st) ≡ shape st
incident-shape false c b e l st = make_elements-shape c b e false l st
incident-shape true c b e l st =
    make_elements-shape c e b true false (make_elements_incident_to_arc c b e false l st)
    ∙ make_elements-shape c b e false l st

with_structure-shape :
    (s : Bool) (c e : ScAddr) (st : Storage) → shape (with_structure s c e st) ≡ shape st
unfolding update_structure_arcs modify_element set_element modify_arc
with_structure-shape false c e st = refl
with_structure-shape true c e st =
    let first = (st.elements e).first_in_arc_from_structure in
    let st₁ = modify_arc c (λ arc. record arc { next_in_arc_from_structure = first }) st in
    modify_arc_at-shape first (λ arc. record arc { prev_in_arc_from_structure = c }) st₁

pub connect-shape :
    (c : ScAddr) (type : ℕ) (b e : ScAddr) (st : Storage) → shape (connect c type b e st) ≡ shape st
connect-shape c type b e st =
    ap shape (connect-with_structure c type b e st)
    ∙ with_structure-shape (is_structure_arc b type (generated c type b e st)) c e
        (generated c type b e st)
    ∙ incident-shape (is_two_way type b e) c b e (not (not (is_equal_addr b e))) st

module _ {ℓ} {A : Type ℓ} (g : Element → A) (i : Ignores g) where
  with_structure-keeps :
      (s : Bool) (c e : ScAddr) (st : Storage) (x : ScAddr)
      → g ((with_structure s c e st).elements x) ≡ g (st.elements x)
  with_structure-keeps true c e st x = update_structure_arcs-keeps g i c x e st
  with_structure-keeps false c e st x = refl

  pub connect-generated :
      (c : ScAddr) (type : ℕ) (b e : ScAddr) (st : Storage) (x : ScAddr)
      → g ((connect c type b e st).elements x) ≡ g ((generated c type b e st).elements x)
  connect-generated c type b e st x =
      ap (λ s. g (s.elements x)) (connect-with_structure c type b e st)
      ∙ with_structure-keeps (is_structure_arc b type (generated c type b e st)) c e
          (generated c type b e st) x

  module _ (k : IgnoresFirst g) where
    incident-apart :
        (two : Bool) (c b e : ScAddr) (l : Bool) (st : Storage) (x : ScAddr)
        → is_equal_addr x c ≡ false
        → g ((incident two c b e l st).elements x) ≡ g (st.elements x)
    incident-apart false c b e l st x h = make_elements-at g i c x k b e false l st ∙ rw h refl
    incident-apart true c b e l st x h =
        make_elements-at g i c x k e b true false (make_elements_incident_to_arc c b e false l st)
        ∙ rw h refl
        ∙ make_elements-at g i c x k b e false l st
        ∙ rw h refl

    -- Other sc-connectors keep their links to the next ones.
    pub connect-apart :
        (c : ScAddr) (type : ℕ) (b e : ScAddr) (st : Storage) (x : ScAddr)
        → is_equal_addr x c ≡ false
        → g ((connect c type b e st).elements x) ≡ g (st.elements x)
    connect-apart c type b e st x h =
        connect-generated c type b e st x
        ∙ incident-apart (is_two_way type b e) c b e (not (not (is_equal_addr b e))) st x h

    module _
        (q : (r l : Bool) (fo fi : ScAddr) (e : Element)
          → g (record e { arc = links r l fo fi e.arc }) ≡ g e) where
      make_elements-keeps :
          (c b e : ScAddr) (r l : Bool) (st : Storage) (x : ScAddr)
          → g ((make_elements_incident_to_arc c b e r l st).elements x) ≡ g (st.elements x)
      make_elements-keeps c b e r l st x =
          make_elements-at g i c x k b e r l st
          ∙ ap (λ y. if is_equal_addr x c then y else g (st.elements x))
              (q r l (st.elements b).first_out_arc (st.elements e).first_in_arc (st.elements x))
          ∙ same_branches (is_equal_addr x c) (g (st.elements x))

      incident-keeps :
          (two : Bool) (c b e : ScAddr) (l : Bool) (st : Storage) (x : ScAddr)
          → g ((incident two c b e l st).elements x) ≡ g (st.elements x)
      incident-keeps false c b e l st x = make_elements-keeps c b e false l st x
      incident-keeps true c b e l st x =
          make_elements-keeps c e b true false (make_elements_incident_to_arc c b e false l st) x
          ∙ make_elements-keeps c b e false l st x

      -- All elements keep what is neither a link nor a count.
      pub connect-keeps :
          (c : ScAddr) (type : ℕ) (b e : ScAddr) (st : Storage) (x : ScAddr)
          → g ((connect c type b e st).elements x) ≡ g (st.elements x)
      connect-keeps c type b e st x =
          connect-generated c type b e st x
          ∙ incident-keeps (is_two_way type b e) c b e (not (not (is_equal_addr b e))) st x
