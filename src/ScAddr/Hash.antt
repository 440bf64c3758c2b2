-- ===== src/ScAddr/Hash.antt =====
-- The hash of an address holds all of the address.
use sc_memory_knowledge_sync.Base.Words.{bit_and-low_half, bit_or-halves}
use sc_memory_knowledge_sync.ScAddr.{
  local_seg_from_int, local_to_int, addr_of_hash, local_offset_from_int, hash, ScAddr,
}
use sc_memory_knowledge_sync.Base.{◌∙◌, bit_and, ◌/◌, ◌+◌, arith, ◌%◌, ◌*◌, ◌^◌, ℕ, ◌≡◌, refl, ◌<◌}

-- Both parts are 16-bit words.
pub record IsAddr (a : ScAddr) : Type 0 where
  pub seg_bound : a.seg < 2 ^ 16
  pub offset_bound : a.offset < 2 ^ 16

pub hash_sum : (a : ScAddr) → IsAddr a → hash a ≡ a.seg * 65536 + a.offset
unfolding hash local_to_int
hash_sum a h =
    let low : bit_and a.offset 65535 ≡ a.offset =
      bit_and-low_half a.offset ∙ omega (arith, h.offset_bound) in
    rw (low, bit_or-halves a.seg a.offset h.offset_bound)
      (omega (arith, h.seg_bound, h.offset_bound))

parts : (v : ℕ) → (local_offset_from_int v ≡ v % 65536) × (local_seg_from_int v ≡ v / 65536 % 65536)
unfolding local_offset_from_int local_seg_from_int
parts v = (omega (arith, bit_and-low_half v), omega (arith, bit_and-low_half (v / 65536)))

-- An address of two 16-bit words is the one that is built from its hash.
pub addr_of_hash-hash : (a : ScAddr) → IsAddr a → addr_of_hash (hash a) ≡ a
unfolding addr_of_hash
addr_of_hash-hash a h =
    let (o, s) = parts (hash a) in
    let offset : local_offset_from_int (hash a) ≡ a.offset =
      omega (arith, o, hash_sum a h, h.offset_bound, h.seg_bound) in
    let seg : local_seg_from_int (hash a) ≡ a.seg =
      omega (arith, s, hash_sum a h, h.offset_bound, h.seg_bound) in
    rw (offset, seg) refl

-- Every 32-bit word is the hash of the address that is built from it, and that address has two
-- 16-bit words.
pub hash-addr_of_hash : (v : ℕ) → v < 2 ^ 32 → IsAddr (addr_of_hash v) × (hash (addr_of_hash v) ≡ v)
unfolding addr_of_hash
hash-addr_of_hash v h =
    let (o, s) = parts v in
    let addr : IsAddr (addr_of_hash v) = record {
      seg_bound = omega (arith, s);
      offset_bound = omega (arith, o);
    } in
    (addr, omega (arith, hash_sum (addr_of_hash v) addr, o, s, h))
