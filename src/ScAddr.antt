-- ===== src/ScAddr.antt =====
-- Addresses of sc-elements: `ScAddr` of sc-memory/sc-memory/src/sc_addr.cpp and the macros on `sc_addr`
-- of sc-memory/sc-core/include/sc-core/sc_types.h.
pub mod Hash
pub mod Order
use sc_memory_knowledge_sync.Base.{
  false, true, ltb, ◌^◌, ◌%◌, ◌*◌, ◌&&◌, if◌then◌else◌, to_string, not, ◌/◌, bit_and, bit_or, ◌==◌,
  Str, Bool, ℕ,
}

-- A segment and an offset, each a 16-bit word.
pub record ScAddr : Type 0 where
  pub seg : ℕ
  pub offset : ℕ

-- `SC_ADDR_MAKE_EMPTY`.
abbrev pub empty_addr : ScAddr
empty_addr = record { seg = 0; offset = 0 }

-- `SC_ADDR_IS_EMPTY` and `SC_ADDR_IS_EQUAL`.
abbrev pub is_empty_addr : ScAddr → Bool
is_empty_addr a = a.seg == 0 && a.offset == 0

abbrev pub is_equal_addr : ScAddr → ScAddr → Bool
is_equal_addr a b = a.seg == b.seg && a.offset == b.offset

-- `SC_ADDR_LOCAL_TO_INT`, and the two parts that it packs.
unfoldable pub local_to_int : ScAddr → ℕ
local_to_int a = bit_or (a.seg * 2 ^ 16) (bit_and a.offset 0xffff) % 2 ^ 32

unfoldable pub local_offset_from_int : ℕ → ℕ
local_offset_from_int v = bit_and v 0x0000ffff % 2 ^ 16

unfoldable pub local_seg_from_int : ℕ → ℕ
unfolding local_offset_from_int
local_seg_from_int v = local_offset_from_int (v / 2 ^ 16)

-- The constructors and the methods of `ScAddr`.
unfoldable pub addr_of_hash : ℕ → ScAddr
unfolding local_seg_from_int local_offset_from_int
addr_of_hash hash = record { seg = local_seg_from_int hash; offset = local_offset_from_int hash }

unfoldable pub is_valid_addr : ScAddr → Bool
is_valid_addr a = not (is_empty_addr a)

unfoldable pub hash : ScAddr → ℕ
unfolding local_to_int
hash a = local_to_int a

unfoldable pub eq_addr : ScAddr → ScAddr → Bool
eq_addr a b = is_equal_addr a b

unfoldable pub ne_addr : ScAddr → ScAddr → Bool
ne_addr a b = not (is_equal_addr a b)

abbrev pub addr_to_string : ScAddr → Str
addr_to_string a = to_string (hash a)

-- `RealAddrLessFunc`, and `ScAddrLessFunc` by it.
unfoldable pub real_addr_less : ScAddr → ScAddr → Bool
real_addr_less a b =
    if ltb a.seg b.seg then true else if ltb b.seg a.seg then false else ltb a.offset b.offset

unfoldable pub addr_less : ScAddr → ScAddr → Bool
unfolding real_addr_less
addr_less a b = real_addr_less a b
