-- ===== src/Tests/Addresses.antt =====
-- Addresses of sc-elements.
use sc_memory_knowledge_sync.ScAddr.{eq_addr, empty_addr, hash, addr_less, addr_of_hash, ScAddr}
use sc_memory_knowledge_sync.ScAddr.Hash.{hash-addr_of_hash, addr_of_hash-hash, IsAddr}
use sc_memory_knowledge_sync.Base.{refl, ◌⊎◌, false, true, ltb, ◌≡◌, arith}
use sc_memory_knowledge_sync.ScAddr.Order.{addr_less_cases, addr_less_trans, addr_less-hash}

abbrev first : ScAddr
first = record { seg = 1; offset = 65535 }

abbrev second : ScAddr
second = record { seg = 2; offset = 3 }

first-IsAddr : IsAddr first
first-IsAddr = record { seg_bound = omega arith; offset_bound = omega arith }

second-IsAddr : IsAddr second
second-IsAddr = record { seg_bound = omega arith; offset_bound = omega arith }

addr_of_hash-hash_example : addr_of_hash (hash second) ≡ second
addr_of_hash-hash_example = addr_of_hash-hash second second-IsAddr

hash-addr_of_hash_example : IsAddr (addr_of_hash 65539) × (hash (addr_of_hash 65539) ≡ 65539)
hash-addr_of_hash_example = hash-addr_of_hash 65539 (omega arith)

addr_less-hash_example : addr_less first second ≡ ltb (hash first) (hash second)
addr_less-hash_example = addr_less-hash first second first-IsAddr second-IsAddr

addr_less_trans_example : addr_less empty_addr second ≡ true
unfolding addr_less
addr_less_trans_example = addr_less_trans empty_addr first second refl refl

addr_less_cases_example :
    ((addr_less first second ≡ true)
      × (eq_addr first second ≡ false)
      × (addr_less second first ≡ false))
    ⊎ ((addr_less first second ≡ false)
        × (eq_addr first second ≡ true)
        × (addr_less second first ≡ false))
    ⊎ ((addr_less first second ≡ false)
        × (eq_addr first second ≡ false)
        × (addr_less second first ≡ true))
addr_less_cases_example = addr_less_cases first second
