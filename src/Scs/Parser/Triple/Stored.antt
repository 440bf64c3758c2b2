-- ===== src/Scs/Parser/Triple/Stored.antt =====
-- `ProcessTriple` on a consistent parser and known handles stores one triple, or throws a parse error
-- and changes nothing.
use sc_memory_knowledge_sync.Base.{
  ap, if◌then◌else◌, [], ◌∷◌, ◌++◌, ◌||◌, ◌==◌, ◌&&◌, Bool-cases, arith, ◌≡◌, ℕ, some, refl, ◌≢◌,
  inl, inr,
}
use sc_memory_knowledge_sync.Scs.Parser.State.{
  get_parsed_element_ref, get_parsed_element, modify, and_then, is_element_type_outgoing_base_arc,
  write_element, find_element, Outcome, Parser, Error, returns, throws, undefined, item_not_found,
  out_of_range,
}
use sc_memory_knowledge_sync.Scs.TypeResolver
use sc_memory_knowledge_sync.Scs.Parser.Triple.{
  process_triple, add_connector, push_triple, new_type, insert_base_arc, Retype, insert_other_arc,
  check_triple, add_member, refused, retype,
}
use sc_memory_knowledge_sync.Scs.Parser.Element.{
  ParsedTriple, get_type, ElementHandle, ParsedElement,
}
use sc_memory_knowledge_sync.Scs.Parser.Invariant.{
  Grows-others, Grows-triples, All-snoc, Grows-Names, IsKnownTriple, Grows-trans, IsKnown, Grows,
  Grows-IsKnown, IsConsistent,
}
use sc_memory_knowledge_sync.Scs.Parser.Triple.Changes.{
  same_containers-Grows, Changes-refl, insert_base_arc-Changes, Changes-trans, write-Changes,
  insert_other_arc-Changes, Changes,
}
use sc_memory_knowledge_sync.ScType.Arcs.{const_perm_pos_arc}

abbrev pub IsParseError : Error → Type 0
IsParseError e = (e ≢ item_not_found) × (e ≢ out_of_range)

-- An operation returns in a state with `P`, or throws a parse error in the state in which it began.
abbrev pub Ensures : Parser → (Parser → Type 0) → Outcome (Unit {0}) → Type 0
Ensures p P (returns _ q) = P q
Ensures p P (throws e q) = IsParseError e × (q ≡ p)
Ensures p P undefined = ⊥

retype-error :
    (target : ParsedElement) (provided : ℕ) (e : Error)
    → retype target provided ≡ refused e
    → IsParseError e
unfolding retype
retype-error target provided e h = ground arith

module _ (source connector target : ParsedElement) (source_hdl target_hdl : ElementHandle)
    (p : Parser) (source_found : find_element source_hdl p ≡ some source)
    (target_found : find_element target_hdl p ≡ some target) (c : IsConsistent p) where
  member_Changes :
      (type : ℕ)
      → Changes p (
          insert_other_arc connector.idtf target target_hdl (
            insert_base_arc connector.idtf
              (write_element target_hdl (record target { type = type }) p)))
  member_Changes type =
      let p₁ = write_element target_hdl (record target { type = type }) p in
      let p₂ = insert_base_arc connector.idtf p₁ in
      let p₃ = insert_other_arc connector.idtf target target_hdl p₂ in
      let a =
        write-Changes target_hdl (record target { type = type }) target p target_found refl refl
          c in
      let b = insert_base_arc-Changes connector.idtf p₁ a.consistent in
      let ab = Changes-trans p p₁ p₂ a b in
      let d =
        insert_other_arc-Changes connector.idtf target target_hdl p₂
          (Grows-IsKnown p p₂ ab.grows target_hdl (target, target_found)) ab.consistent in
      Changes-trans p p₂ p₃ ab d

  others_Changes : Changes p (
      insert_other_arc connector.idtf target target_hdl
        (insert_other_arc connector.idtf source source_hdl p))
  others_Changes =
      let p₁ = insert_other_arc connector.idtf source source_hdl p in
      let p₂ = insert_other_arc connector.idtf target target_hdl p₁ in
      let a =
        insert_other_arc-Changes connector.idtf source source_hdl p (source, source_found) c in
      let b =
        insert_other_arc-Changes connector.idtf target target_hdl p₁
          (Grows-IsKnown p p₁ a.grows target_hdl (target, target_found)) a.consistent in
      Changes-trans p p₁ p₂ a b

  add_member-Ensures : Ensures p (Changes p) (add_member source connector target target_hdl p)
  unfolding add_member
  add_member-Ensures = go (retype target (TypeResolver.get_element_type source.idtf)) refl
    where
      go :
          (r : Retype)
          → retype target (TypeResolver.get_element_type source.idtf) ≡ r
          → Ensures p (Changes p) (add_member source connector target target_hdl p)
      go (new_type type) e = rw (e, add_member) (member_Changes type)
      go (refused error) e = rw (e, add_member) (retype-error target _ error e, refl)

  check_triple-Ensures :
      Ensures p (Changes p) (check_triple source connector target source_hdl target_hdl p)
  unfolding check_triple
  check_triple-Ensures =
      elim (Bool-cases (source.is_element_type && get_type connector == const_perm_pos_arc)) [
        | inl e ↦ rw e add_member-Ensures
        | inr e ↦ rw e (elim (Bool-cases (source.is_element_type || target.is_element_type)) [
          | inl d ↦ rw d others_Changes
          | inr d ↦
              rw d
                (elim (Bool-cases (
                  is_element_type_outgoing_base_arc source p
                  || is_element_type_outgoing_base_arc target p)) [
                    | inl b ↦ rw b (ground arith, refl)
                    | inr b ↦ rw b (Changes-refl p c)
                  ])
        ])
      ]

Ensures-modify :
    (p : Parser) (P Q : Parser → Type 0) (f : Parser → Parser) (r : Outcome (Unit {0}))
    → ((q : Parser) → P q → Q (f q))
    → Ensures p P r
    → Ensures p Q (and_then r (λ _. modify f))
Ensures-modify p P Q f (returns a q) k h = k q h
Ensures-modify p P Q f (throws e q) k h = h
Ensures-modify p P Q f undefined k h = h

abbrev pub triple : ElementHandle → ElementHandle → ElementHandle → ParsedTriple
triple s c t = record { source = s; connector = c; target = t }

-- The parser `q` holds one triple more than `p`; the elements of `p` keep their handles and
-- identifiers; and the names, the contours and the counter are those of `p`.
pub record Stores (t : ParsedTriple) (p q : Parser) : Type 0 where
  pub grows : Grows p q
  pub consistent : IsConsistent q
  pub triples : q.parsed_triples ≡ p.parsed_triples ++ t ∷ []
  pub names : q.idtf_to_parsed_element ≡ p.idtf_to_parsed_element
  pub elements_stack : q.contour_elements_stack ≡ p.contour_elements_stack
  pub triples_stack : q.contour_triples_stack ≡ p.contour_triples_stack
  pub counter : q.idtf_counter ≡ p.idtf_counter

push-Stores :
    (s c t : ElementHandle) (p q : Parser)
    → IsKnown p s
    → IsKnown p c
    → IsKnown p t
    → Changes p q
    → Stores (triple s c t) p (push_triple s c t q)
unfolding push_triple
push-Stores s c t p q ks kc kt ch =
    let r = push_triple s c t q in
    let g = same_containers-Grows q r refl refl in
    let all = Grows-trans p q r ch.grows g in
    let known : IsKnownTriple r (triple s c t) =
      (Grows-IsKnown p r all s ks, Grows-IsKnown p r all c kc, Grows-IsKnown p r all t kt) in
    record {
      grows = all;
      consistent = record {
        named = λ k h f. Grows-Names q r g k h (ch.consistent.named k h f);
        triples =
            All-snoc (IsKnownTriple r) q.parsed_triples (triple s c t)
              (Grows-triples q r g q.parsed_triples ch.consistent.triples) known;
        others = Grows-others q r g q.element_type_not_outgoing_base_arcs ch.consistent.others;
      };
      triples = ap (λ ts. ts ++ triple s c t ∷ []) ch.triples;
      names = ch.names;
      elements_stack = ch.elements_stack;
      triples_stack = ch.triples_stack;
      counter = ch.counter;
    }

add_connector-Ensures :
    (connector : ParsedElement) (s c t : ElementHandle) (p : Parser)
    → IsConsistent p
    → IsKnown p s
    → IsKnown p c
    → IsKnown p t
    → Ensures p (Stores (triple s c t) p) (add_connector connector s c t p)
unfolding add_connector get_parsed_element get_parsed_element_ref
add_connector-Ensures connector s c t p ok (source, fs) kc (target, ft) =
    rw (fs, ft)
      (Ensures-modify p (Changes p) (Stores (triple s c t) p) (push_triple s c t)
        (check_triple source connector target s t p)
        (λ q. push-Stores s c t p q (source, fs) kc (target, ft))
        (check_triple-Ensures source connector target s t p fs ft ok))

-- On a consistent parser and handles of its elements, `ProcessTriple` returns in a consistent parser
-- that holds one triple more, from the target to the source if the sc-connector is reversed and from
-- the source to the target if not; or it throws a parse error, and the parser is as it was.
pub process_triple-Ensures :
    (s c t : ElementHandle) (connector : ParsedElement) (p : Parser)
    → IsConsistent p
    → IsKnown p s
    → find_element c p ≡ some connector
    → IsKnown p t
    → Ensures p
        (Stores (if connector.is_reversed then triple t c s else triple s c t) p)
        (process_triple s c t p)
unfolding process_triple get_parsed_element_ref
process_triple-Ensures s c t connector p ok ks fc kt =
    rw fc (elim (Bool-cases connector.is_reversed) [
      | inl e ↦ rw e (add_connector-Ensures connector t c s p ok kt (connector, fc) ks)
      | inr e ↦ rw e (add_connector-Ensures connector s c t p ok ks (connector, fc) kt)
    ])
