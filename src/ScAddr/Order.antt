-- ===== src/ScAddr/Order.antt =====
-- The order of addresses.
use sc_memory_knowledge_sync.ScAddr.Hash.{IsAddr, hash_sum}
use sc_memory_knowledge_sync.ScAddr.{hash, eq_addr, ScAddr, real_addr_less, addr_less}
use sc_memory_knowledge_sync.Base.{◌⊎◌, false, arith, true, ltb, ◌≡◌}

-- Of two addresses of 16-bit words, one comes before the other exactly if its hash is smaller.
pub addr_less-hash : (a b : ScAddr) → IsAddr a → IsAddr b → addr_less a b ≡ ltb (hash a) (hash b)
unfolding addr_less real_addr_less
addr_less-hash a b h k = ground (arith, hash_sum a h, hash_sum b k, h.offset_bound, k.offset_bound)

-- An address that comes before a second one that comes before a third comes before the third.
pub addr_less_trans :
    (a b c : ScAddr) → addr_less a b ≡ true → addr_less b c ≡ true → addr_less a c ≡ true
unfolding addr_less real_addr_less
addr_less_trans a b c p q = ground arith

-- Of two addresses, either the first comes before the second, or they are equal, or the second comes
-- before the first, and only one of the three.
pub addr_less_cases :
    (a b : ScAddr)
    → ((addr_less a b ≡ true) × (eq_addr a b ≡ false) × (addr_less b a ≡ false))
      ⊎ ((addr_less a b ≡ false) × (eq_addr a b ≡ true) × (addr_less b a ≡ false))
      ⊎ ((addr_less a b ≡ false) × (eq_addr a b ≡ false) × (addr_less b a ≡ true))
unfolding addr_less real_addr_less eq_addr
addr_less_cases a b = ground arith
