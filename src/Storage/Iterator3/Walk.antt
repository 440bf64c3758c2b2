-- ===== src/Storage/Iterator3/Walk.antt =====
-- What the search along the outgoing sc-connectors finds.
use sc_memory_knowledge_sync.ScAddr.{is_empty_addr, ScAddr}
use sc_memory_knowledge_sync.Storage.Iterator3.Next.{clear_if_none, iterator3_next}
use sc_memory_knowledge_sync.Storage.Iterator3.{
  no_result, iterator3_new, accessed_if, next_out, accessed, finish, Found, assigned, end_from,
  fixed, compare_type, f_a_a, is_readable, Iterator3, Context,
}
use sc_memory_knowledge_sync.Base.{
  sym, ◌∙◌, ap, inr, inl, Bool-cases, refl, ◌<◌, length, arith, true, false, zero, [], suc,
  if◌then◌else◌, ◌&&◌, some, ◌≡◌, ◌∷◌, none, Bool, List, ℕ, Option,
}
use sc_memory_knowledge_sync.Storage.State.{
  get_element_by_addr-empty, get_element_by_addr, get_element_by_addr-found, is_element, Storage,
}
use sc_memory_knowledge_sync.Storage.Lists.{OutList, OutChain}
use sc_memory_knowledge_sync.Storage.Iterator3.Outgoing.{start_out, f_a_a_next, find_out}

abbrev cons_found : ScAddr → Option (List ScAddr) → Option (List ScAddr)
cons_found c none = none
cons_found c (some cs) = some (c ∷ cs)

-- The loop of a client, `while (sc_iterator3_next(it)) ...`, that collects the sc-connectors.
unfoldable pub collect : Context → ℕ → ℕ → Iterator3 → Storage → Option (List ScAddr)
unfolding iterator3_next
collect ctx rounds zero it st = none
collect ctx rounds (suc n) it st = elim (iterator3_next ctx rounds it st) [
  | none ↦ none
  | some (false, it') ↦ some []
  | some (true, it') ↦ cons_found it'.connector_result.addr (collect ctx rounds n it' st)
]

abbrev pub collect_new : Context → ℕ → ℕ → Option Iterator3 → Storage → Option (List ScAddr)
collect_new ctx rounds n none st = none
collect_new ctx rounds n (some it) st = collect ctx rounds n it st

module _ (ctx : Context) (st : Storage) (b : ScAddr) (connector_type end_type : ℕ) where
  -- Whether a sc-connector may be read and is of the type, with an element of the type at its other
  -- side.
  abbrev pub matches : ScAddr → Bool
  matches c =
      is_readable ctx (st.elements c) c
      && (compare_type (st.elements c).type connector_type
          && compare_type (st.elements (end_from b (st.elements c))).type end_type)

  abbrev pub matching : List ScAddr → List ScAddr
  matching [] = []
  matching (c ∷ cs) = if matches c then c ∷ matching cs else matching cs

  -- The iterator while it searches.
  abbrev pub searching : Found → Found → Found → Iterator3
  searching r₁ r₂ r₃ = record {
    type = f_a_a;
    begin = fixed b;
    connector = assigned connector_type;
    end = assigned end_type;
    begin_result = r₁;
    connector_result = r₂;
    end_result = r₃;
    finished = false;
  }

  -- The first sc-connector that matches, and those after it.
  search : List ScAddr → Option (ScAddr × List ScAddr)
  search [] = none
  search (c ∷ cs) = if matches c then some (c, cs) else search cs

  search-none : (cs : List ScAddr) → search cs ≡ none → matching cs ≡ []
  unfolding search
  search-none [] e = refl
  search-none (c ∷ cs) e = ground (arith, search-none cs)

  search-some :
      (cs rest : List ScAddr) (c : ScAddr)
      → search cs ≡ some (c, rest)
      → (matching cs ≡ c ∷ matching rest) × (length rest < length cs)
  unfolding search
  search-some [] rest c e = cc
  search-some (d ∷ cs) rest c e = elim (Bool-cases (matches d)) [
    | inl m ↦ ground arith
    | inr m ↦ ground (arith, search-some cs rest c)
  ]

  search-chain :
      (cs rest : List ScAddr) (a c : ScAddr)
      → OutChain st b cs a
      → search cs ≡ some (c, rest)
      → (is_element c st ≡ true) × OutChain st b rest (next_out b (st.elements c))
  unfolding search
  search-chain [] rest a c h e = cc
  search-chain (d ∷ cs) rest a c (_, _, k, _, h) e = elim (Bool-cases (matches d)) [
    | inl m ↦ ground arith
    | inr m ↦ search-chain cs rest (next_out b (st.elements d)) c h (ground arith)
  ]

  abbrev found : Option (ScAddr × List ScAddr) → Iterator3 → Bool × Iterator3
  found none it = finish it
  found (some (c, rest)) it = (
    true,
    record it {
      connector_result = accessed c;
      end_result = accessed_if ctx (end_from b (st.elements c)) it.end_result;
    },
  )

  find_out-end :
      (rounds : ℕ) (a : ScAddr) (r₁ r₂ r₃ : Found)
      → is_empty_addr a ≡ true
      → find_out ctx (suc rounds) b a (searching r₁ r₂ r₃) st ≡ some (finish (searching r₁ r₂ r₃))
  unfolding find_out
  find_out-end rounds a r₁ r₂ r₃ h = rw h refl

  find_out-step :
      (rounds : ℕ) (c : ScAddr) (r₁ r₂ r₃ : Found)
      → is_empty_addr c ≡ false
      → is_element c st ≡ true
      → is_element (end_from b (st.elements c)) st ≡ true
      → find_out ctx (suc rounds) b c (searching r₁ r₂ r₃) st ≡ (
          if matches c
          then some (found (some (c, [])) (searching r₁ r₂ r₃))
          else find_out ctx rounds b (next_out b (st.elements c)) (searching r₁ r₂ r₃) st)
  unfolding find_out
  find_out-step rounds c r₁ r₂ r₃ some_addr k l =
      rw (some_addr, get_element_by_addr-found c st k)
        (elim (Bool-cases (is_readable ctx (st.elements c) c)) [
          | inr m ↦ rw m refl
          | inl m ↦ rw (m, get_element_by_addr-found (end_from b (st.elements c)) st l) refl
        ])

  find_out-search :
      (rounds : ℕ) (cs : List ScAddr) (a : ScAddr) (r₁ r₂ r₃ : Found)
      → length cs < rounds
      → OutChain st b cs a
      → find_out ctx rounds b a (searching r₁ r₂ r₃) st
        ≡ some (found (search cs) (searching r₁ r₂ r₃))
  unfolding search
  find_out-search zero cs a r₁ r₂ r₃ n h = absurd (omega arith)
  find_out-search (suc rounds) [] a r₁ r₂ r₃ n h = find_out-end rounds a r₁ r₂ r₃ h
  find_out-search (suc rounds) (c ∷ cs) a r₁ r₂ r₃ n (same, some_addr, k, l, h) =
      let ih = find_out-search rounds cs (next_out b (st.elements c)) r₁ r₂ r₃ (omega arith) h in
      ap (λ x. find_out ctx (suc rounds) b x (searching r₁ r₂ r₃) st) same
      ∙ find_out-step rounds c r₁ r₂ r₃ some_addr k l
      ∙ elim (Bool-cases (matches c)) [ inl m ↦ rw m refl | inr m ↦ rw m ih ]

  module _ (authenticated : ctx.is_authenticated ≡ true) (readable : ctx.can_read b ≡ true) where
    iterator3_next-search :
        (rounds : ℕ) (cs : List ScAddr) (a : ScAddr) (r₁ r₂ r₃ : Found)
        → length cs < rounds
        → start_out ctx b r₂.addr st ≡ some a
        → OutChain st b cs a
        → iterator3_next ctx rounds (searching r₁ r₂ r₃) st
          ≡ clear_if_none (
              some (
                found (search cs) (
                  searching
                    (accessed b)
                    (record { addr = r₂.addr; is_accessed = false })
                    (record { addr = r₃.addr; is_accessed = false }))))
    unfolding iterator3_next f_a_a_next
    iterator3_next-search rounds cs a r₁ r₂ r₃ n s h =
        simp (authenticated, readable, s) (ap clear_if_none (find_out-search rounds cs a _ _ _ n h))

    -- The search goes on after a sc-connector.
    start_out-after :
        (c : ScAddr)
        → is_element c st ≡ true
        → start_out ctx b c st ≡ some (next_out b (st.elements c))
    unfolding start_out
    start_out-after c k = rw (start_out, get_element_by_addr-found c st k) refl

    collect-matching_from :
        (n rounds : ℕ) (cs : List ScAddr) (a : ScAddr) (r₁ r₂ r₃ : Found)
        → length cs < n
        → length cs < rounds
        → start_out ctx b r₂.addr st ≡ some a
        → OutChain st b cs a
        → collect ctx rounds n (searching r₁ r₂ r₃) st ≡ some (matching cs)
    unfolding collect
    collect-matching_from zero rounds cs a r₁ r₂ r₃ l l' s h = absurd (omega arith)
    collect-matching_from (suc n) rounds cs a r₁ r₂ r₃ l l' s h =
        go (collect-matching_from n rounds) (search cs) refl
      where
        go :
            ((ds : List ScAddr) (d : ScAddr) (q₁ q₂ q₃ : Found)
              → length ds < n
              → length ds < rounds
              → start_out ctx b q₂.addr st ≡ some d
              → OutChain st b ds d
              → collect ctx rounds n (searching q₁ q₂ q₃) st ≡ some (matching ds))
            → (r : Option (ScAddr × List ScAddr)) → search cs ≡ r
            → collect ctx rounds (suc n) (searching r₁ r₂ r₃) st ≡ some (matching cs)
        go ih none e =
            rw (collect, iterator3_next-search rounds cs a r₁ r₂ r₃ l' s h, e)
              (ap some (sym (search-none cs e)))
        go ih (some (c, rest)) e =
            let (m, k) = search-some cs rest c e in
            let (element, h') = search-chain cs rest a c h e in
            rw (collect, iterator3_next-search rounds cs a r₁ r₂ r₃ l' s h, e)
              (ap (cons_found c) (
                  ih rest (next_out b (st.elements c)) _ (accessed c) _ (omega arith) (omega arith)
                    (start_out-after c element) h')
                ∙ ap some (sym m))

    -- A client that collects the sc-connectors of a new iterator over the outgoing sc-connectors of an
    -- element, from which it may read, gets those of the element's outgoing list that may be read,
    -- are of the type asked for and have an element of the type asked for at their other side; all
    -- of them, once and in the order of the list.
    pub collect-matching :
        (n rounds : ℕ) (cs : List ScAddr)
        → length cs < n
        → length cs < rounds
        → is_element b st ≡ true
        → OutList st b cs
        → collect_new ctx rounds n
            (iterator3_new f_a_a (fixed b) (assigned connector_type) (assigned end_type))
            st
          ≡ some (matching cs)
    unfolding iterator3_new start_out get_element_by_addr
    collect-matching n rounds cs l l' k h =
        collect-matching_from n rounds cs (st.elements b).first_out_arc no_result no_result
          no_result l l'
          (rw (start_out, get_element_by_addr-empty st, get_element_by_addr-found b st k) refl) h
