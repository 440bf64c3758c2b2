-- ===== src/Scs/Parser/Invariant.antt =====
-- What holds of a parser between two of its operations, and how its elements may change.
use sc_memory_knowledge_sync.Scs.Parser.Element.{ParsedElement, ParsedTriple, ElementHandle}
use sc_memory_knowledge_sync.Base.{
  subst, sym, Option, ap, ◌≡◌, ◌∙◌, Str, ◌++◌, find_name, List, none, some, [], ◌∷◌, refl,
}
use sc_memory_knowledge_sync.Scs.Parser.State.{find_element, empty_parser, Parser}

abbrev pub All {ℓ} : {A : Type 0} → (A → Type ℓ) → List A → Type ℓ
All P [] = Unit
All P (x ∷ xs) = P x × All P xs

pub All-map {ℓ κ} :
    {A : Type 0} (P : A → Type ℓ) (Q : A → Type κ) (xs : List A)
    → ((a : A) → P a → Q a)
    → All P xs
    → All Q xs
All-map P Q [] f h = tt
All-map P Q (x ∷ xs) f h = (f x h.0, All-map P Q xs f h.1)

pub All-snoc {ℓ} :
    {A : Type 0} (P : A → Type ℓ) (xs : List A) (a : A) → All P xs → P a → All P (xs ++ a ∷ [])
All-snoc P [] a h p = (p, tt)
All-snoc P (x ∷ xs) a h p = (h.0, All-snoc P xs a h.1 p)

-- A handle names an element.
abbrev pub IsKnown : Parser → ElementHandle → Type 0
IsKnown p h = (e : ParsedElement) × (find_element h p ≡ some e)

-- A handle names the element with an identifier, and knows whether that is a type of sc-elements.
abbrev pub Names : Parser → Str → ElementHandle → Type 0
Names p k h =
    (e : ParsedElement) × (find_element h p ≡ some e)
    × (e.idtf ≡ k)
    × (e.is_element_type ≡ h.is_element_type)

abbrev pub IsKnownTriple : Parser → ParsedTriple → Type 0
IsKnownTriple p t = IsKnown p t.source × IsKnown p t.connector × IsKnown p t.target

abbrev pub IsKnownEntry : Parser → Str × ElementHandle → Type 0
IsKnownEntry p (k, h) = IsKnown p h

pub record IsConsistent (p : Parser) : Type 0 where
  pub named :
      (k : Str) (h : ElementHandle) → find_name k p.idtf_to_parsed_element ≡ some h → Names p k h
  pub triples : All (IsKnownTriple p) p.parsed_triples
  pub others : All (IsKnownEntry p) p.element_type_not_outgoing_base_arcs

-- Every element of `p` stands in `q` under the same handles, with its identifier; its type and its
-- content may have changed.
abbrev pub Grows : Parser → Parser → Type 0
Grows p q =
    (h : ElementHandle) (e : ParsedElement)
    → find_element h p ≡ some e
    → (e' : ParsedElement) × (find_element h q ≡ some e')
      × (e'.idtf ≡ e.idtf)
      × (e'.is_element_type ≡ e.is_element_type)

pub Grows-refl : (p : Parser) → Grows p p
Grows-refl p h e f = (e, f, refl, refl)

pub Grows-trans : (p q r : Parser) → Grows p q → Grows q r → Grows p r
Grows-trans p q r g g' h e f =
    let (e', f', i, t) = g h e f in
    let (e'', f'', i', t') = g' h e' f' in (e'', f'', i' ∙ i, t' ∙ t)

module _ (p q : Parser) (g : Grows p q) where
  pub Grows-IsKnown : (h : ElementHandle) → IsKnown p h → IsKnown q h
  Grows-IsKnown h (e, f) = let (e', f', _, _) = g h e f in (e', f')

  pub Grows-Names : (k : Str) (h : ElementHandle) → Names p k h → Names q k h
  Grows-Names k h (e, f, i, t) = let (e', f', i', t') = g h e f in (e', f', i' ∙ i, t' ∙ t)

  pub Grows-triples : (ts : List ParsedTriple) → All (IsKnownTriple p) ts → All (IsKnownTriple q) ts
  Grows-triples ts =
      All-map (IsKnownTriple p) (IsKnownTriple q) ts λ t k.
        (Grows-IsKnown t.source k.0, Grows-IsKnown t.connector k.1, Grows-IsKnown t.target k.2)

  pub Grows-others :
      (es : List (Str × ElementHandle)) → All (IsKnownEntry p) es → All (IsKnownEntry q) es
  Grows-others es = All-map (IsKnownEntry p) (IsKnownEntry q) es λ e k. Grows-IsKnown e.1 k

-- Where only the elements grow and the rest stays, consistency stays.
pub Grows-IsConsistent :
    (p q : Parser)
    → Grows p q
    → q.idtf_to_parsed_element ≡ p.idtf_to_parsed_element
    → q.parsed_triples ≡ p.parsed_triples
    → q.element_type_not_outgoing_base_arcs ≡ p.element_type_not_outgoing_base_arcs
    → IsConsistent p
    → IsConsistent q
Grows-IsConsistent p q g m t o c = record {
  named = λ k h f. Grows-Names p q g k h (c.named k h (ap (find_name k) (sym m) ∙ f));
  triples = subst (All (IsKnownTriple q)) (sym t) (Grows-triples p q g p.parsed_triples c.triples);
  others =
      subst (All (IsKnownEntry q)) (sym o)
        (Grows-others p q g p.element_type_not_outgoing_base_arcs c.others);
}

pub empty-IsConsistent : IsConsistent empty_parser
unfolding find_name
empty-IsConsistent = record {
  named = λ k h f. absurd (none-not-some h f);
  triples = tt;
  others = tt;
}
  where
    none-not-some : (h : ElementHandle) → ◌≡◌ {A = Option ElementHandle} none (some h) → ⊥
    none-not-some h f = cc
