-- ===== src/Storage/Iterator5/Walk.antt =====
-- An iterator over five elements as two loops, one in the other.
use sc_memory_knowledge_sync.Storage.Iterator5.{next_pair}
use sc_memory_knowledge_sync.Storage.Iterator3.{Iterator3, Context}
use sc_memory_knowledge_sync.Storage.Iterator3.Next.{iterator3_next}
use sc_memory_knowledge_sync.Storage.State.{Storage}
use sc_memory_knowledge_sync.Base.{
  zero, sym, subst, ◌∙◌, arith, refl, ◌<◌, length, suc, none, true, false, [], Bool, some, ◌++◌,
  Option, ◌≡◌, ◌∷◌, ℕ, List,
}

-- What an outer iterator comes to, the inner iterator that is made there, and what that comes to.
abbrev pub Level : Type 0
Level = Iterator3 × Iterator3 × List Iterator3

abbrev pub pairs_of : Iterator3 → List Iterator3 → List (Iterator3 × Iterator3)
pairs_of outer [] = []
pairs_of outer (inner ∷ inners) = (outer, inner) ∷ pairs_of outer inners

abbrev pub pairs : List Level → List (Iterator3 × Iterator3)
pairs [] = []
pairs ((outer, _, inners) ∷ levels) = pairs_of outer inners ++ pairs levels

module _ (ctx : Context) (rounds : ℕ) (st : Storage) where
  -- The iterators that a client of an iterator over triples sees until it ends.
  abbrev pub Yields : Iterator3 → List Iterator3 → Type 0
  Yields it [] = (it' : Iterator3) × (iterator3_next ctx rounds it st ≡ some (false, it'))
  Yields it (r ∷ rs) = (iterator3_next ctx rounds it st ≡ some (true, r)) × Yields r rs

  module _ (make : Iterator3 → Option Iterator3) where
    abbrev pub LevelsYield : Iterator3 → List Level → Type 0
    LevelsYield it [] = (it' : Iterator3) × (iterator3_next ctx rounds it st ≡ some (false, it'))
    LevelsYield it ((outer, inner, inners) ∷ levels) =
        (iterator3_next ctx rounds it st ≡ some (true, outer))
        × ((make outer ≡ some inner) × (Yields inner inners × LevelsYield outer levels))

    -- From a first step on, the pairs that are found.
    abbrev pub PairsYield :
        ℕ
        → Option (Bool × Option Iterator3 × Option Iterator3)
        → List (Iterator3 × Iterator3)
        → Type 0
    PairsYield n step [] = (outer : Option Iterator3) × (step ≡ some (false, outer, none))
    PairsYield n step ((outer, inner) ∷ ps) =
        (step ≡ some (true, some outer, some inner))
        × PairsYield n (next_pair ctx make n rounds (some outer) (some inner) st) ps

    inner-goes :
        (n : ℕ) (outer : Option Iterator3) (inner inner' : Iterator3)
        → iterator3_next ctx rounds inner st ≡ some (true, inner')
        → next_pair ctx make (suc n) rounds outer (some inner) st ≡ some (true, outer, some inner')
    unfolding next_pair
    inner-goes n outer inner inner' e = rw (next_pair, e) refl

    inner-ends :
        (n : ℕ) (outer : Option Iterator3) (inner inner' : Iterator3)
        → iterator3_next ctx rounds inner st ≡ some (false, inner')
        → next_pair ctx make (suc n) rounds outer (some inner) st
          ≡ next_pair ctx make (suc n) rounds outer none st
    unfolding next_pair
    inner-ends n outer inner inner' e = rw (next_pair, e) refl

    outer-ends :
        (n : ℕ) (outer outer' : Iterator3)
        → iterator3_next ctx rounds outer st ≡ some (false, outer')
        → next_pair ctx make (suc n) rounds (some outer) none st ≡ some (false, some outer', none)
    unfolding next_pair
    outer-ends n outer outer' e = rw (next_pair, e) refl

    outer-goes :
        (n : ℕ) (outer outer' inner : Iterator3)
        → iterator3_next ctx rounds outer st ≡ some (true, outer')
        → make outer' ≡ some inner
        → next_pair ctx make (suc n) rounds (some outer) none st
          ≡ next_pair ctx make n rounds (some outer') (some inner) st
    unfolding next_pair
    outer-goes n outer outer' inner e m = rw (next_pair, e, m) refl

    next_pair-PairsYield :
        (levels : List Level) (inners : List Iterator3) (n k : ℕ) (outer inner : Iterator3)
        → length levels < n
        → length levels < k
        → LevelsYield outer levels
        → Yields inner inners
        → PairsYield n
            (next_pair ctx make k rounds (some outer) (some inner) st)
            (pairs_of outer inners ++ pairs levels)
    next_pair-PairsYield levels inners n zero outer inner l l' ls is = absurd (omega arith)
    next_pair-PairsYield levels (i ∷ inners) n (suc k) outer inner l l' ls (e, is) = (
      inner-goes k (some outer) inner i e,
      next_pair-PairsYield levels inners n n outer i l l ls is,
    )
    next_pair-PairsYield [] [] n (suc k) outer inner l l' (o, e') (i, e) =
        (some o, inner-ends k (some outer) inner i e ∙ outer-ends k outer o e')
    next_pair-PairsYield ((o, i, is') ∷ levels) [] n (suc k) outer inner l l' (e', (m, (ys, ls)))
          (i', e) =
        subst (λ step. PairsYield n step (pairs_of o is' ++ pairs levels))
          (sym (inner-ends k (some outer) inner i' e ∙ outer-goes k outer o i e' m))
          (next_pair-PairsYield levels is' n k o i (omega arith) (omega arith) ls ys)

    -- The first step, where no inner iterator was made.
    pub first-PairsYield :
        (levels : List Level) (n : ℕ) (outer : Iterator3)
        → length levels < n
        → LevelsYield outer levels
        → PairsYield n (next_pair ctx make n rounds (some outer) none st) (pairs levels)
    first-PairsYield levels zero outer l ls = absurd (omega arith)
    first-PairsYield [] (suc n) outer l (o, e) = (some o, outer-ends n outer o e)
    first-PairsYield ((o, i, is) ∷ levels) (suc n) outer l (e, (m, (ys, ls))) =
        subst (λ step. PairsYield (suc n) step (pairs_of o is ++ pairs levels))
          (sym (outer-goes n outer o i e m))
          (next_pair-PairsYield levels is (suc n) n o i (omega arith) (omega arith) ls ys)
