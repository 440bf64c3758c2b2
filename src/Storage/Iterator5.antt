-- ===== src/Storage/Iterator5.antt =====
-- Iterators over five elements, sc-memory/sc-core/src/sc-store/sc_iterator5.c and
-- sc-memory/sc-core/include/sc-core/sc_iterator5.h. A sc-connector of a main iterator is the end
-- of a sc-connector of an iterator over attributes.
pub mod New
pub mod Walk
pub mod Results
use sc_memory_knowledge_sync.Storage.Iterator3.{
  Param, Found, Context, Iterator3, param_addr, param_type, no_result, empty_result, fixed,
  assigned,
}
use sc_memory_knowledge_sync.Storage.Iterator3.Next.{iterator3_next}
use sc_memory_knowledge_sync.Storage.Iterator3.New.{
  f_a_a_new, a_a_f_new, f_a_f_new, a_f_a_new, is_addr, same,
}
use sc_memory_knowledge_sync.ScAddr.{empty_addr, ScAddr}
use sc_memory_knowledge_sync.Storage.State.{Storage}
use sc_memory_knowledge_sync.Base.{
  zero, suc, not, some, if◌then◌else◌, none, ◌&&◌, true, false, ℕ, Bool, Option,
}

pub data Iterator5Type : Type 0 where
  f_a_a_a_f a_a_f_a_f f_a_f_a_f f_a_f_a_a f_a_a_a_a a_a_f_a_a a_a_a_a_f : Iterator5Type

-- The parameters, or the results, of the five elements.
pub record Five (A : Type 0) : Type 0 where
  pub begin : A
  pub connector : A
  pub end : A
  pub attribute_connector : A
  pub attribute : A

-- `_sc_iterator5` but for its context; the null pointer to an iterator is `none`.
pub record Iterator5 : Type 0 where
  pub type : Iterator5Type
  pub params : Five Param
  pub results : Five Found
  pub it_main : Option Iterator3
  pub it_attr : Option Iterator3

-- The letters of the name of a kind: which elements are given by their addresses.
abbrev pub letters5 : Iterator5Type → Five Bool
letters5 f_a_a_a_f = record {
  begin = true;
  connector = false;
  end = false;
  attribute_connector = false;
  attribute = true;
}
letters5 a_a_f_a_f = record {
  begin = false;
  connector = false;
  end = true;
  attribute_connector = false;
  attribute = true;
}
letters5 f_a_f_a_f = record {
  begin = true;
  connector = false;
  end = true;
  attribute_connector = false;
  attribute = true;
}
letters5 f_a_f_a_a = record {
  begin = true;
  connector = false;
  end = true;
  attribute_connector = false;
  attribute = false;
}
letters5 f_a_a_a_a = record {
  begin = true;
  connector = false;
  end = false;
  attribute_connector = false;
  attribute = false;
}
letters5 a_a_f_a_a = record {
  begin = false;
  connector = false;
  end = true;
  attribute_connector = false;
  attribute = false;
}
letters5 a_a_a_a_f = record {
  begin = false;
  connector = false;
  end = false;
  attribute_connector = false;
  attribute = true;
}

-- One function on each of the five elements.
abbrev pub each : {A B C : Type 0} → (A → B → C) → Five A → Five B → Five C
each f p q = record {
  begin = f p.begin q.begin;
  connector = f p.connector q.connector;
  end = f p.end q.end;
  attribute_connector = f p.attribute_connector q.attribute_connector;
  attribute = f p.attribute q.attribute;
}

abbrev pub all_five : Five Bool → Bool
all_five p = p.begin && (p.connector && (p.end && (p.attribute_connector && p.attribute)))

-- The iterator that a kind begins with, of the main connectors, or of the attributes.
unfoldable pub first_main : Iterator5Type → Five Param → Option Iterator3
unfolding f_a_a_new a_a_f_new f_a_f_new
first_main f_a_a_a_f p = f_a_a_new (param_addr p.begin) (param_type p.connector) (param_type p.end)
first_main a_a_f_a_f p = a_a_f_new (param_type p.begin) (param_type p.connector) (param_addr p.end)
first_main f_a_f_a_f p = f_a_f_new (param_addr p.begin) (param_type p.connector) (param_addr p.end)
first_main f_a_f_a_a p = f_a_f_new (param_addr p.begin) (param_type p.connector) (param_addr p.end)
first_main a_a_f_a_a p = a_a_f_new (param_type p.begin) (param_type p.connector) (param_addr p.end)
first_main f_a_a_a_a p = f_a_a_new (param_addr p.begin) (param_type p.connector) (param_type p.end)
first_main a_a_a_a_f p = none

unfoldable pub first_attr : Iterator5Type → Five Param → Option Iterator3
unfolding f_a_a_new
first_attr a_a_a_a_f p =
    f_a_a_new (param_addr p.attribute) (param_type p.attribute_connector) (param_type p.connector)
first_attr _ p = none

-- The result of an element that is given has its address from the start.
abbrev pub given : Bool → Param → Found
given f p = if f then record { addr = param_addr p; is_accessed = false } else no_result

-- `sc_iterator5_new`.
unfoldable pub iterator5_new : Iterator5Type → Five Param → Option Iterator5
unfolding first_main first_attr
iterator5_new type p =
    if all_five (each same (letters5 type) (each (λ f q. is_addr q) (letters5 type) p))
    then some (record {
      type = type;
      params = p;
      results = each given (letters5 type) p;
      it_main = first_main type p;
      it_attr = first_attr type p;
    })
    else none

-- The iterator over the sc-connectors at the other iterator's result.
unfoldable pub other_new : Iterator5Type → Five Param → Iterator3 → Option Iterator3
unfolding f_a_f_new a_a_f_new a_f_a_new
other_new a_a_a_a_f p outer =
    a_f_a_new (param_type p.begin) outer.end_result.addr (param_type p.end)
other_new type p outer =
    if (letters5 type).attribute
    then f_a_f_new (param_addr p.attribute) (param_type p.attribute_connector)
        outer.connector_result.addr
    else a_a_f_new (param_type p.attribute) (param_type p.attribute_connector)
        outer.connector_result.addr

module _ (ctx : Context) where
  -- `sc_iterator3_next` of an iterator that may be null.
  abbrev pub next_or_null : ℕ → Option Iterator3 → Storage → Option (Bool × Option Iterator3)
  next_or_null rounds none st = some (false, none)
  next_or_null rounds (some it) st = elim (iterator3_next ctx rounds it st) [
    | none ↦ none
    | some (found, it') ↦ some (found, some it')
  ]

  -- The loop that the functions of all kinds have: the inner iterator goes on, and when it ends the outer
  -- one does, which gives the next inner one. `none` is a bound on the rounds that was met.
  unfoldable pub next_pair :
      (Iterator3 → Option Iterator3)
      → ℕ
      → ℕ
      → Option Iterator3
      → Option Iterator3
      → Storage
      → Option (Bool × Option Iterator3 × Option Iterator3)
  unfolding iterator3_next
  next_pair make zero rounds outer inner st = none
  next_pair make (suc n) rounds outer inner st = elim (next_or_null rounds inner st) [
    | none ↦ none
    | some (true, inner') ↦ some (true, outer, inner')
    | some (false, _) ↦ elim (next_or_null rounds outer st) [
      | some (true, some outer') ↦ elim (make outer') [
        | none ↦ some (false, some outer', none)
        | some new ↦ next_pair make n rounds (some outer') (some new) st
      ]
      | some (_, outer') ↦ some (false, outer', none)
      | none ↦ none
    ]
  ]

-- What a result becomes: an element that is given keeps its address.
abbrev pub taken : Bool → Found → Found → Found
taken f r new = if f then record { addr = r.addr; is_accessed = new.is_accessed } else new

-- A result when a search begins, and where a context may not search.
abbrev pub blank : Bool → Found → Found
blank f r = record { addr = if f then r.addr else empty_addr; is_accessed = false }

abbrev pub unread : Found → Found
unread r = record { addr = r.addr; is_accessed = false }

abbrev pub five_of : Found → Five Found
five_of r = record { begin = r; connector = r; end = r; attribute_connector = r; attribute = r }

abbrev pub values : Iterator3 → Iterator3 → Five Found
values main attr = record {
  begin = main.begin_result;
  connector = main.connector_result;
  end = main.end_result;
  attribute_connector = attr.connector_result;
  attribute = attr.begin_result;
}

abbrev pub take_results : Five Bool → Five Found → Five Found → Five Found
take_results l r new = each (λ g x. g x) (each taken l (each blank l r)) new

-- The attributes lead only where the other elements are all searched for.
abbrev pub is_by_attribute : Iterator5Type → Bool
is_by_attribute a_a_a_a_f = true
is_by_attribute _ = false

abbrev pub outer_of : Iterator5 → Option Iterator3
outer_of it = if is_by_attribute it.type then it.it_attr else it.it_main

abbrev pub inner_of : Iterator5 → Option Iterator3
inner_of it = if is_by_attribute it.type then it.it_main else it.it_attr

-- An iterator with its pair, and the results that the pair has found.
abbrev pub with_pair : Option Iterator3 → Option Iterator3 → Iterator5 → Iterator5
with_pair outer inner it = record it {
  it_main = if is_by_attribute it.type then inner else outer;
  it_attr = if is_by_attribute it.type then outer else inner;
}

abbrev pub put_results : Option Iterator3 → Option Iterator3 → Iterator5 → Iterator5
put_results (some main) (some attr) it = record it {
  results = take_results (letters5 it.type) it.results (values main attr);
}
put_results _ _ it = it

abbrev pub after_pair :
    Iterator5 → Option (Bool × Option Iterator3 × Option Iterator3) → Option (Bool × Iterator5)
after_pair it none = none
after_pair it (some (found, outer, inner)) =
    let it' = with_pair outer inner it in
    some (
      found,
      if found
          then put_results it'.it_main it'.it_attr it'
          else record it' { results = five_of empty_result },
    )

module _ (ctx : Context) where
  -- `sc_iterator5_next_ext`.
  unfoldable pub iterator5_next : ℕ → ℕ → Iterator5 → Storage → Option (Bool × Iterator5)
  unfolding next_pair other_new
  iterator5_next n rounds it st =
      if not ctx.is_authenticated
      then some
          (false, record it { results = each (λ f r. unread r) (letters5 it.type) it.results })
      else after_pair it
          (next_pair ctx (other_new it.type it.params) n rounds (outer_of it) (inner_of it) st)

-- `sc_iterator5_value_ext`, of which `none` is an error.
abbrev result5_at : ℕ → Iterator5 → Option Found
result5_at zero it = some it.results.begin
result5_at (suc zero) it = some it.results.connector
result5_at (suc (suc zero)) it = some it.results.end
result5_at (suc (suc (suc zero))) it = some it.results.attribute_connector
result5_at (suc (suc (suc (suc zero)))) it = some it.results.attribute
result5_at _ it = none

unfoldable pub iterator5_value : ℕ → Iterator5 → Option ScAddr
iterator5_value index it = elim (result5_at index it) [
  | none ↦ none
  | some r ↦ if not r.is_accessed then none else some r.addr
]
