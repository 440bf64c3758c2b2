-- ===== src/Storage/Iterator3/New.antt =====
-- The constructors of iterators over triples, `sc_iterator3_f_a_a_new` and the others.
use sc_memory_knowledge_sync.Storage.Iterator3.{
  f_f_f, a_f_f, f_f_a, a_f_a, f_a_f, a_a_f, f_a_a, Iterator3, assigned, fixed, Param, Iterator3Type,
  iterator3_new,
}
use sc_memory_knowledge_sync.Base.{arith, ◌&&◌, ◌≡◌, false, Option, not, true, ℕ, Bool}
use sc_memory_knowledge_sync.ScAddr.{ScAddr}
use sc_memory_knowledge_sync.Storage.State.{is_some}

unfoldable pub f_a_a_new : ScAddr → ℕ → ℕ → Option Iterator3
unfolding iterator3_new
f_a_a_new el arc_type end_type =
    iterator3_new f_a_a (fixed el) (assigned arc_type) (assigned end_type)

unfoldable pub a_a_f_new : ℕ → ℕ → ScAddr → Option Iterator3
unfolding iterator3_new
a_a_f_new beg_type arc_type el =
    iterator3_new a_a_f (assigned beg_type) (assigned arc_type) (fixed el)

unfoldable pub f_a_f_new : ScAddr → ℕ → ScAddr → Option Iterator3
unfolding iterator3_new
f_a_f_new el_beg arc_type el_end =
    iterator3_new f_a_f (fixed el_beg) (assigned arc_type) (fixed el_end)

unfoldable pub a_f_a_new : ℕ → ScAddr → ℕ → Option Iterator3
unfolding iterator3_new
a_f_a_new beg_type arc_addr end_type =
    iterator3_new a_f_a (assigned beg_type) (fixed arc_addr) (assigned end_type)

unfoldable pub f_f_a_new : ScAddr → ScAddr → ℕ → Option Iterator3
unfolding iterator3_new
f_f_a_new beg_addr edge_addr end_type =
    iterator3_new f_f_a (fixed beg_addr) (fixed edge_addr) (assigned end_type)

unfoldable pub a_f_f_new : ℕ → ScAddr → ScAddr → Option Iterator3
unfolding iterator3_new
a_f_f_new beg_type edge_addr end_addr =
    iterator3_new a_f_f (assigned beg_type) (fixed edge_addr) (fixed end_addr)

unfoldable pub f_f_f_new : ScAddr → ScAddr → ScAddr → Option Iterator3
unfolding iterator3_new
f_f_f_new beg_addr edge_addr end_addr =
    iterator3_new f_f_f (fixed beg_addr) (fixed edge_addr) (fixed end_addr)

-- The letters of the name of a kind of iterators: whether each parameter is an address.
abbrev pub letters : Iterator3Type → Bool × Bool × Bool
letters f_a_a = (true, false, false)
letters a_a_f = (false, false, true)
letters f_a_f = (true, false, true)
letters a_f_a = (false, true, false)
letters f_f_a = (true, true, false)
letters a_f_f = (false, true, true)
letters f_f_f = (true, true, true)

abbrev pub is_addr : Param → Bool
is_addr (fixed a) = true
is_addr (assigned t) = false

abbrev pub same : Bool → Bool → Bool
same true b = b
same false b = not b

-- An iterator is made exactly if the parameters are addresses and types as the letters of its kind
-- say.
pub iterator3_new-letters :
    (type : Iterator3Type) (p q r : Param)
    → is_some (iterator3_new type p q r) ≡ (
        same (letters type).0 (is_addr p)
        && (same (letters type).1 (is_addr q) && same (letters type).2 (is_addr r)))
unfolding iterator3_new
iterator3_new-letters type p q r = ground arith
