-- ===== src/Storage/Generate/Keeps.antt =====
-- What the generation of a sc-connector leaves as it is.
use sc_memory_knowledge_sync.Base.{ap, refl, false, true, ◌∙◌, if◌then◌else◌, ◌≡◌, Bool}
use sc_memory_knowledge_sync.Storage.Element.{ArcInfo, Element}
use sc_memory_knowledge_sync.ScAddr.{is_equal_addr, ScAddr}
use sc_memory_knowledge_sync.Storage.Generate.{
  modify_arc_at, modify_arc, modify_element, direct_links, end_at, reverse_links, begin_at,
  update_structure_arcs, make_elements_incident_to_arc, link_connector,
}
use sc_memory_knowledge_sync.Storage.State.{Storage}
use sc_memory_knowledge_sync.Storage.Generate.Fields.{
  modify_element-at, modify_arc-keeps, modify_arc_at-keeps, modify_arc-at, modify_element-keeps,
}

unfoldable pub links : Bool → Bool → ScAddr → ScAddr → ArcInfo → ArcInfo
links is_reverse is_loop first_out first_in arc =
    if is_reverse
    then reverse_links first_out first_in arc
    else direct_links is_loop first_out first_in arc

-- A part of an element that has nothing of its lists but the links to the next sc-connectors.
pub record Ignores {ℓ} {A : Type ℓ} (g : Element → A) : Type ℓ where
  pub prev_out :
      (a : ScAddr) (e : Element)
      → g (record e { arc = record e.arc { prev_begin_out_arc = a } }) ≡ g e
  pub prev_in :
      (a : ScAddr) (e : Element) → g (record e { arc = record e.arc { prev_end_in_arc = a } }) ≡ g e
  pub prev_structure :
      (a : ScAddr) (e : Element)
      → g (record e { arc = record e.arc { prev_in_arc_from_structure = a } }) ≡ g e
  pub next_structure :
      (a : ScAddr) (e : Element)
      → g (record e { arc = record e.arc { next_in_arc_from_structure = a } }) ≡ g e
  pub first_structure :
      (a : ScAddr) (e : Element) → g (record e { first_in_arc_from_structure = a }) ≡ g e

-- A part that has nothing of the first sc-connectors and of the counts.
pub record IgnoresFirst {ℓ} {A : Type ℓ} (g : Element → A) : Type ℓ where
  pub begin : (a : ScAddr) (e : Element) → g (begin_at a e) ≡ g e
  pub end : (a : ScAddr) (e : Element) → g (end_at a e) ≡ g e

module _ {ℓ} {A : Type ℓ} (g : Element → A) (i : Ignores g) (c x : ScAddr) where
  link_connector-at :
      (fo fi : ScAddr) (r l : Bool) (st : Storage)
      → g ((link_connector c fo fi r l st).elements x) ≡ (
          if is_equal_addr x c
          then g (record (st.elements x) { arc = links r l fo fi (st.elements x).arc })
          else g (st.elements x))
  unfolding link_connector links
  link_connector-at fo fi true l st = modify_arc-at g c st x (reverse_links fo fi)
  link_connector-at fo fi false l st =
      modify_arc_at-keeps g fi _ x _ (i.prev_in c)
      ∙ modify_arc_at-keeps g fo _ x _ (i.prev_out c)
      ∙ modify_arc-at g c st x (direct_links l fo fi)

  pub make_elements-at :
      IgnoresFirst g
      → (b e : ScAddr) (r l : Bool) (st : Storage)
      → g ((make_elements_incident_to_arc c b e r l st).elements x) ≡ (
          if is_equal_addr x c
          then g (record (st.elements x) {
            arc =
                links r l
                  (st.elements b).first_out_arc
                  (st.elements e).first_in_arc
                  (st.elements x).arc;
          })
          else g (st.elements x))
  unfolding make_elements_incident_to_arc
  make_elements-at k b e r l st =
      let fo = (st.elements b).first_out_arc in
      let fi = (st.elements e).first_in_arc in
      let st' = link_connector c fo fi r l st in
      modify_element-keeps g e (modify_element b (begin_at c) st') x (end_at c) (k.end c)
      ∙ modify_element-keeps g b st' x (begin_at c) (k.begin c)
      ∙ link_connector-at fo fi r l st

  pub update_structure_arcs-keeps :
      (e : ScAddr) (st : Storage)
      → g ((update_structure_arcs c e st).elements x) ≡ g (st.elements x)
  unfolding update_structure_arcs
  update_structure_arcs-keeps e st =
      let first = (st.elements e).first_in_arc_from_structure in
      let st₁ = modify_arc c (λ arc. record arc { next_in_arc_from_structure = first }) st in
      let st₂ = modify_arc_at first (λ arc. record arc { prev_in_arc_from_structure = c }) st₁ in
      modify_element-keeps g e st₂ x (λ e. record e { first_in_arc_from_structure = c })
        (i.first_structure c)
      ∙ modify_arc_at-keeps g first st₁ x (λ arc. record arc { prev_in_arc_from_structure = c })
          (i.prev_structure c)
      ∙ modify_arc-keeps g c st x (λ arc. record arc { next_in_arc_from_structure = first })
          (i.next_structure first)

pub first_out_arc-Ignores : Ignores (λ e. e.first_out_arc)
first_out_arc-Ignores = record {
  prev_out = λ a e. refl;
  prev_in = λ a e. refl;
  prev_structure = λ a e. refl;
  next_structure = λ a e. refl;
  first_structure = λ a e. refl;
}

pub same_branches {ℓ} : {A : Type ℓ} → (b : Bool) (x : A) → (if b then x else x) ≡ x
same_branches true x = refl
same_branches false x = refl

-- The first outgoing sc-connector.
pub make_elements-first_out_arc :
    (c b e : ScAddr) (r l : Bool) (st : Storage) (x : ScAddr)
    → ((make_elements_incident_to_arc c b e r l st).elements x).first_out_arc
      ≡ (if is_equal_addr x b then c else (st.elements x).first_out_arc)
unfolding make_elements_incident_to_arc
make_elements-first_out_arc c b e r l st x =
    let fo = (st.elements b).first_out_arc in
    let fi = (st.elements e).first_in_arc in
    let st' = link_connector c fo fi r l st in
    modify_element-keeps (λ e. e.first_out_arc) e (modify_element b (begin_at c) st') x (end_at c)
      (λ e. refl)
    ∙ modify_element-at (λ e. e.first_out_arc) b st' x (begin_at c)
    ∙ ap (λ a. if is_equal_addr x b then c else a)
        (link_connector-at (λ e. e.first_out_arc) first_out_arc-Ignores c x fo fi r l st
          ∙ same_branches (is_equal_addr x c) (st.elements x).first_out_arc)
