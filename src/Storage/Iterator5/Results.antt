-- ===== src/Storage/Iterator5/Results.antt =====
-- What a client of an iterator over five elements reads.
use mathlib.Core.Option.{some-injective}
use sc_memory_knowledge_sync.Storage.Iterator5.{
  if◌then◌else◌, next_pair, iterator5_next, iterator5_new, other_new, after_pair, inner_of,
  first_main, first_attr, Iterator5, Iterator5Type, Five, letters5, take_results, values,
  is_by_attribute, outer_of, given, each, f_a_a_a_f, a_a_f_a_f, f_a_f_a_f, f_a_f_a_a, f_a_a_a_a,
  a_a_f_a_a, a_a_a_a_f,
}
use sc_memory_knowledge_sync.Storage.Iterator5.Walk.{
  PairsYield, LevelsYield, Level, pairs, first-PairsYield,
}
use sc_memory_knowledge_sync.Storage.Iterator3.{param_addr, Iterator3, Context, Param, Found}
use sc_memory_knowledge_sync.Storage.State.{Storage}
use sc_memory_knowledge_sync.Base.{
  Bool, sym, subst, ◌<◌, ap, length, ◌∙◌, none, [], ◌∷◌, false, refl, true, some, ℕ, ◌≡◌, List,
  if◌then◌else◌, Option,
}

-- An iterator with the pair where it is.
abbrev pub pair_state :
    Iterator5Type → Five Param → Five Found → Option Iterator3 → Option Iterator3 → Iterator5
pair_state type p r outer inner = record {
  type = type;
  params = p;
  results = r;
  it_main = if is_by_attribute type then inner else outer;
  it_attr = if is_by_attribute type then outer else inner;
}

abbrev pub pair_values : Iterator5Type → Iterator3 → Iterator3 → Five Found
pair_values type outer inner =
    if is_by_attribute type then values inner outer else values outer inner

-- The results that an iterator keeps from pair to pair.
abbrev pub results_of :
    Iterator5Type → Five Found → List (Iterator3 × Iterator3) → List (Five Found)
results_of type r [] = []
results_of type r ((outer, inner) ∷ ps) =
    take_results (letters5 type) r (pair_values type outer inner) ∷ results_of type r ps

take_results-take_results :
    (type : Iterator5Type) (r x y : Five Found)
    → take_results (letters5 type) (take_results (letters5 type) r x) y
      ≡ take_results (letters5 type) r y
take_results-take_results f_a_a_a_f r x y = refl
take_results-take_results a_a_f_a_f r x y = refl
take_results-take_results f_a_f_a_f r x y = refl
take_results-take_results f_a_f_a_a r x y = refl
take_results-take_results f_a_a_a_a r x y = refl
take_results-take_results a_a_f_a_a r x y = refl
take_results-take_results a_a_a_a_f r x y = refl

results_of-take_results :
    (type : Iterator5Type) (r x : Five Found) (ps : List (Iterator3 × Iterator3))
    → results_of type (take_results (letters5 type) r x) ps ≡ results_of type r ps
results_of-take_results type r x [] = refl
results_of-take_results type r x ((o, i) ∷ ps) =
    rw
      (
        take_results-take_results type r x (pair_values type o i),
        results_of-take_results type r x ps,
      )
      refl

after_pair-found :
    (type : Iterator5Type) (p : Five Param) (r : Five Found) (outer inner : Option Iterator3)
    (o i : Iterator3)
    → after_pair (pair_state type p r outer inner) (some (true, some o, some i))
      ≡ some (
        true,
        pair_state type p (take_results (letters5 type) r (pair_values type o i)) (some o) (some i),
      )
after_pair-found f_a_a_a_f p r outer inner o i = refl
after_pair-found a_a_f_a_f p r outer inner o i = refl
after_pair-found f_a_f_a_f p r outer inner o i = refl
after_pair-found f_a_f_a_a p r outer inner o i = refl
after_pair-found f_a_a_a_a p r outer inner o i = refl
after_pair-found a_a_f_a_a p r outer inner o i = refl
after_pair-found a_a_a_a_f p r outer inner o i = refl

outer_of-pair_state :
    (type : Iterator5Type) (p : Five Param) (r : Five Found) (outer inner : Option Iterator3)
    → (outer_of (pair_state type p r outer inner) ≡ outer)
      × (inner_of (pair_state type p r outer inner) ≡ inner)
outer_of-pair_state f_a_a_a_f p r outer inner = (refl, refl)
outer_of-pair_state a_a_f_a_f p r outer inner = (refl, refl)
outer_of-pair_state f_a_f_a_f p r outer inner = (refl, refl)
outer_of-pair_state f_a_f_a_a p r outer inner = (refl, refl)
outer_of-pair_state f_a_a_a_a p r outer inner = (refl, refl)
outer_of-pair_state a_a_f_a_a p r outer inner = (refl, refl)
outer_of-pair_state a_a_a_a_f p r outer inner = (refl, refl)

if_some : {A : Type 0} (b : Bool) (x y : A) → (if b then some x else none) ≡ some y → x ≡ y
if_some true x y e = some-injective x y e
if_some false x y e = cc

new-pair_state :
    (type : Iterator5Type) (p : Five Param) (it : Iterator5)
    → iterator5_new type p ≡ some it
    → it ≡ pair_state type p (each given (letters5 type) p) (outer_of it) none
unfolding iterator5_new first_main first_attr
new-pair_state f_a_a_a_f p it e =
    subst (λ x. x ≡ pair_state f_a_a_a_f p (each given (letters5 f_a_a_a_f) p) (outer_of x) none)
      (if_some _ _ it e) refl
new-pair_state a_a_f_a_f p it e =
    subst (λ x. x ≡ pair_state a_a_f_a_f p (each given (letters5 a_a_f_a_f) p) (outer_of x) none)
      (if_some _ _ it e) refl
new-pair_state f_a_f_a_f p it e =
    subst (λ x. x ≡ pair_state f_a_f_a_f p (each given (letters5 f_a_f_a_f) p) (outer_of x) none)
      (if_some _ _ it e) refl
new-pair_state f_a_f_a_a p it e =
    subst (λ x. x ≡ pair_state f_a_f_a_a p (each given (letters5 f_a_f_a_a) p) (outer_of x) none)
      (if_some _ _ it e) refl
new-pair_state f_a_a_a_a p it e =
    subst (λ x. x ≡ pair_state f_a_a_a_a p (each given (letters5 f_a_a_a_a) p) (outer_of x) none)
      (if_some _ _ it e) refl
new-pair_state a_a_f_a_a p it e =
    subst (λ x. x ≡ pair_state a_a_f_a_a p (each given (letters5 a_a_f_a_a) p) (outer_of x) none)
      (if_some _ _ it e) refl
new-pair_state a_a_a_a_f p it e =
    subst (λ x. x ≡ pair_state a_a_a_a_f p (each given (letters5 a_a_a_a_f) p) (outer_of x) none)
      (if_some _ _ it e) refl

-- What an element of a pair is to a client: an element that is given has the address that was
-- given, and may be accessed where the iterator may access it.
abbrev pub shown : Bool → Param → Found → Found
shown f p v = if f then record { addr = param_addr p; is_accessed = v.is_accessed } else v

abbrev pub shown_results :
    Iterator5Type → Five Param → List (Iterator3 × Iterator3) → List (Five Found)
shown_results type p [] = []
shown_results type p ((outer, inner) ∷ ps) =
    each (λ g v. g v) (each shown (letters5 type) p) (pair_values type outer inner)
    ∷ shown_results type p ps

take_results-given :
    (type : Iterator5Type) (p : Five Param) (v : Five Found)
    → take_results (letters5 type) (each given (letters5 type) p) v
      ≡ each (λ g x. g x) (each shown (letters5 type) p) v
take_results-given f_a_a_a_f p v = refl
take_results-given a_a_f_a_f p v = refl
take_results-given f_a_f_a_f p v = refl
take_results-given f_a_f_a_a p v = refl
take_results-given f_a_a_a_a p v = refl
take_results-given a_a_f_a_a p v = refl
take_results-given a_a_a_a_f p v = refl

results_of-given :
    (type : Iterator5Type) (p : Five Param) (ps : List (Iterator3 × Iterator3))
    → results_of type (each given (letters5 type) p) ps ≡ shown_results type p ps
results_of-given type p [] = refl
results_of-given type p ((o, i) ∷ ps) =
    rw (take_results-given type p (pair_values type o i), results_of-given type p ps) refl

module _ (ctx : Context) (n rounds : ℕ) (st : Storage) where
  -- A client that asks an iterator for its results until it ends reads these.
  abbrev pub FivesYield : Iterator5 → List (Five Found) → Type 0
  FivesYield it [] = (it' : Iterator5) × (iterator5_next ctx n rounds it st ≡ some (false, it'))
  FivesYield it (r ∷ rs) =
      (it' : Iterator5) × ((iterator5_next ctx n rounds it st ≡ some (true, it'))
        × ((it'.results ≡ r) × FivesYield it' rs))

  module _ (authenticated : ctx.is_authenticated ≡ true) where
    next-authenticated :
        (it : Iterator5)
        → iterator5_next ctx n rounds it st
          ≡ after_pair it
              (next_pair ctx (other_new it.type it.params) n rounds (outer_of it) (inner_of it) st)
    unfolding iterator5_next
    next-authenticated it = simp authenticated refl

    next-pair_state :
        (type : Iterator5Type) (p : Five Param) (r : Five Found) (outer inner : Option Iterator3)
        → iterator5_next ctx n rounds (pair_state type p r outer inner) st
          ≡ after_pair
              (pair_state type p r outer inner)
              (next_pair ctx (other_new type p) n rounds outer inner st)
    next-pair_state type p r outer inner =
        let (o, i) = outer_of-pair_state type p r outer inner in
        let it = pair_state type p r outer inner in
        next-authenticated it
        ∙ ap (λ x. after_pair it (next_pair ctx (other_new type p) n rounds x (inner_of it) st)) o
        ∙ ap (λ x. after_pair it (next_pair ctx (other_new type p) n rounds outer x st)) i

    pairs-FivesYield :
        (type : Iterator5Type) (p : Five Param) (r : Five Found) (outer inner : Option Iterator3)
        (ps : List (Iterator3 × Iterator3))
        → PairsYield ctx rounds st
            (other_new type p)
            n
            (next_pair ctx (other_new type p) n rounds outer inner st)
            ps
        → FivesYield (pair_state type p r outer inner) (results_of type r ps)
    pairs-FivesYield type p r outer inner [] (o, e) = (
      _,
      next-pair_state type p r outer inner ∙ ap (after_pair (pair_state type p r outer inner)) e,
    )
    pairs-FivesYield type p r outer inner ((o, i) ∷ ps) (e, rest) =
        let r' = take_results (letters5 type) r (pair_values type o i) in
        (
          pair_state type p r' (some o) (some i),
          (
            next-pair_state type p r outer inner
                ∙ ap (after_pair (pair_state type p r outer inner)) e
                ∙ after_pair-found type p r outer inner o i,
            (
              refl,
              subst (FivesYield (pair_state type p r' (some o) (some i)))
                  (results_of-take_results type r (pair_values type o i) ps)
                  (pairs-FivesYield type p r' (some o) (some i) ps rest),
            ),
          ),
        )

    -- An iterator over five elements is two loops, one in the other: where the outer iterator over triples
    -- comes to the outer parts of some levels one after another and then ends, and in each level the inner
    -- iterator made there comes to the inner parts and then ends, a client that may search reads from
    -- a new iterator the results of all pairs of an outer part with an inner part of its level, level by level,
    -- and then the iterator ends.
    pub iterator5_new-FivesYield :
        (type : Iterator5Type) (p : Five Param) (it : Iterator5) (outer : Iterator3)
        (levels : List Level)
        → length levels < n
        → iterator5_new type p ≡ some it
        → outer_of it ≡ some outer
        → LevelsYield ctx rounds st (other_new type p) outer levels
        → FivesYield it (shown_results type p (pairs levels))
    iterator5_new-FivesYield type p it outer levels l e o ls =
        let r = each given (letters5 type) p in
        subst (FivesYield it) (results_of-given type p (pairs levels)) (
          subst (λ x. FivesYield x (results_of type r (pairs levels)))
            (sym (new-pair_state type p it e ∙ ap (λ x. pair_state type p r x none) o))
            (pairs-FivesYield type p r (some outer) none (pairs levels)
              (first-PairsYield ctx rounds st (other_new type p) levels n outer l ls)))
