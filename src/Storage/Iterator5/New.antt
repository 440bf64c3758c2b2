-- ===== src/Storage/Iterator5/New.antt =====
-- The constructors of iterators over five elements.
use sc_memory_knowledge_sync.Storage.Iterator5.{
  Five, Iterator5, iterator5_new, f_a_a_a_f, a_a_f_a_f, f_a_f_a_f, f_a_f_a_a, f_a_a_a_a, a_a_f_a_a,
  a_a_a_a_f,
}
use sc_memory_knowledge_sync.Storage.Iterator3.{fixed, assigned, Param}
use sc_memory_knowledge_sync.ScAddr.{ScAddr}
use sc_memory_knowledge_sync.Base.{Option, ℕ}

abbrev five : Param → Param → Param → Param → Param → Five Param
five p1 p2 p3 p4 p5 = record {
  begin = p1;
  connector = p2;
  end = p3;
  attribute_connector = p4;
  attribute = p5;
}

unfoldable pub f_a_a_a_f_new : ScAddr → ℕ → ℕ → ℕ → ScAddr → Option Iterator5
unfolding iterator5_new
f_a_a_a_f_new p1 p2 p3 p4 p5 =
    iterator5_new f_a_a_a_f (five (fixed p1) (assigned p2) (assigned p3) (assigned p4) (fixed p5))

unfoldable pub a_a_f_a_f_new : ℕ → ℕ → ScAddr → ℕ → ScAddr → Option Iterator5
unfolding iterator5_new
a_a_f_a_f_new p1 p2 p3 p4 p5 =
    iterator5_new a_a_f_a_f (five (assigned p1) (assigned p2) (fixed p3) (assigned p4) (fixed p5))

unfoldable pub f_a_f_a_f_new : ScAddr → ℕ → ScAddr → ℕ → ScAddr → Option Iterator5
unfolding iterator5_new
f_a_f_a_f_new p1 p2 p3 p4 p5 =
    iterator5_new f_a_f_a_f (five (fixed p1) (assigned p2) (fixed p3) (assigned p4) (fixed p5))

unfoldable pub f_a_f_a_a_new : ScAddr → ℕ → ScAddr → ℕ → ℕ → Option Iterator5
unfolding iterator5_new
f_a_f_a_a_new p1 p2 p3 p4 p5 =
    iterator5_new f_a_f_a_a (five (fixed p1) (assigned p2) (fixed p3) (assigned p4) (assigned p5))

unfoldable pub f_a_a_a_a_new : ScAddr → ℕ → ℕ → ℕ → ℕ → Option Iterator5
unfolding iterator5_new
f_a_a_a_a_new p1 p2 p3 p4 p5 =
    iterator5_new f_a_a_a_a
      (five (fixed p1) (assigned p2) (assigned p3) (assigned p4) (assigned p5))

unfoldable pub a_a_f_a_a_new : ℕ → ℕ → ScAddr → ℕ → ℕ → Option Iterator5
unfolding iterator5_new
a_a_f_a_a_new p1 p2 p3 p4 p5 =
    iterator5_new a_a_f_a_a
      (five (assigned p1) (assigned p2) (fixed p3) (assigned p4) (assigned p5))

unfoldable pub a_a_a_a_f_new : ℕ → ℕ → ℕ → ℕ → ScAddr → Option Iterator5
unfolding iterator5_new
a_a_a_a_f_new p1 p2 p3 p4 p5 =
    iterator5_new a_a_a_a_f
      (five (assigned p1) (assigned p2) (assigned p3) (assigned p4) (fixed p5))
