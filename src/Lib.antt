-- ===== src/Lib.antt =====
-- sc-machine: the types of sc-elements, their storage and the reader of SCs-code.
--
-- sc-machine keeps a semantic network of sc-elements in a storage of segments. Every element has a
-- type, a 16-bit word of flags; a type may be made more precise later, if the storage allows it.
-- Texts in SCs-code are read by a parser: the grammar calls operations of the parser as it meets
-- identifiers, connectors, links, triples and contours, the parser collects elements and triples,
-- and the triples are handed to a generator that writes them to the memory. The parser takes the
-- designations of types from a resolver.
--
-- ScType (with Flags, Elements, Arcs, Names, Methods, Methods/Keeps): the flags and the predicates
-- of sc-memory/sc-core/include/sc-core/sc_types.h, the constants of
-- sc-memory/sc-memory/include/sc-memory/sc_type.hpp and the methods of
-- sc-memory/sc-memory/src/sc_type.cpp. A type is a number; its flags are read by bit_and and
-- bit_or, and a complement is that of a 16-bit word.
-- ScType/Extend (with Branches, Order): sc_storage_is_type_extendable_to of
-- sc-memory/sc-core/src/sc-store/sc_storage.c, a helper for each of its branches.
-- Scs/Tables (with Designations, Connectors, Keynodes) and Scs/TypeResolver (with RoundTrip,
-- Constancy): TypeResolver of sc-memory/sc-memory/src/scs/scs_types.cpp. Each table is a list of
-- its entries in the order of the source; a lookup takes the first entry of a key, and no key
-- stands twice.
-- Scs/Parser: sc-memory/sc-memory/src/scs/scs_parser.cpp and
-- sc-memory/sc-memory/include/sc-memory/scs/scs_parser.hpp. Element has ParsedElement,
-- ElementHandle and ParsedTriple. State has the fields of Parser; its operations are functions from
-- a parser to an outcome, which returns, throws or has no defined behaviour, with the parser as it
-- is by then. Append (with Known, Connectors, Placed) has AppendElement and the operations
-- that only call it, Link (with Unescape) the content of links, Triple (with Changes, Members,
-- Stored) ProcessTriple, Contour (with Members, Ordered) the begin and the end of a contour,
-- Generation (with Calls) ForEachTripleForGeneration. Store and Invariant hold the lemmas on
-- elements and handles that the proofs share.
-- Storage: sc-memory/sc-core/src/sc-store. Element has sc_element.h, State the segments and the
-- storage of sc_segment.h and sc_storage_private.h, with sc_storage_get_element_by_addr; Result
-- what an operation comes to. Allocate, Generate (with Fields, Keeps, Linked), Access and Erase
-- (with Elements, All) are the operations of sc_storage.c that allocate and release elements,
-- generate nodes, links and connectors, read an element or change its type, and erase. Iterator3
-- (with Outgoing, Incoming, Connector, New, Next, Walk) is sc_iterator3.c. Iterator5 (with New,
-- Walk, Results) is sc_iterator5.c: the functions of its seven kinds differ in which iterator over
-- triples leads and which elements are given, and are one function of the letters of the kind.
-- Statistics has the statistics of sc_segment.c. Lists says what the lists of an element are;
-- Views, Free, Incidence, Search, Refused (with Fresh, Segments, Taken, Allocated) and Bounds (with
-- Elements, Kept, Ends, Rounds, Total) hold the lemmas on elements, releases, the lists after a
-- generation and the search in them, the address that a generation takes or, where it is refused,
-- gives back, and the offsets that an allocation engages and the rounds that it needs. The elements
-- of all segments are one function of an address, and a write through a pointer changes it at an
-- address; a null pointer to a segment is none.
-- Monitor (with System, Invariant, Reachable, Safety, Several): the monitor of readers and writers,
-- sc-memory/sc-core/src/sc-store/sc-base/sc_monitor.c. What a thread does under the mutex of a
-- monitor, up to a wait on its condition or to the return, is one step; System has the steps of
-- threads in any order, wakings without a signal too, and runs of them. Several has the functions
-- that take several monitors; qsort is a parameter, on whose ordering their theorem rests.
-- Container/Queue (with Indices, Shape, Contents): the circular buffer of
-- sc-memory/sc-core/src/sc-store/sc-container/sc_queue.c, in which the monitor keeps its requests;
-- Monitor uses it as a list, which the theorems on it allow.
-- Container/Dictionary (with Prefixes, Lookup, Branch, Trees, Append, Descend, Laws, Keys, Total,
-- Entries): the prefix tree of sc-memory/sc-core/src/sc-store/sc-container/sc_dictionary.c. The
-- two-level array of the children of a node is the list of the children that are there, by their
-- numbers; the conversion of a character to its number, char_to_int, is a parameter, and the
-- conversions of sc-memory/sc-core/src/sc-store/sc-fs-memory/sc_dictionary_fs_memory_private.c are
-- uchar_number and digit_number. For a number outside of the array of children the code has no
-- defined behaviour; the numbers of uchar_number are all in it, and those of digit_number are for
-- digits.
-- ScAddr (with Hash, Order): addresses of sc-elements, sc-memory/sc-memory/src/sc_addr.cpp and the
-- macros of sc-memory/sc-core/include/sc-core/sc_types.h.
-- Base (with Lists, Bits, Words, Strings, Tables): lists, bit operations, strings and tables. A
-- string is the list of its bytes.
-- Tests: runs and the theorems at concrete inputs.
--
-- Bounds. Identifiers of elements and the counter of generated identifiers are 32-bit words and
-- wrap around; the theorems on elements ask for fewer than 2^32 elements in each container. The
-- loop of UnescapeContent runs on fuel, one round for each symbol of the content and one more, and
-- returns none if the fuel ends, which it never does.
--
-- An operation of the storage runs alone: the monitors that it acquires are left out, and so are
-- the events that it emits, which other threads handle; whether a subscriber awaits an event of an
-- erasure is a parameter. The permissions of a memory context are arguments of an iterator. The
-- loops that follow links have a bound on their rounds, as a storage may hold links in a circle;
-- where the bound is met, a search gives none, and the theorems on a search ask for more rounds
-- than the list has connectors. An iterator over five elements has a bound on the rounds of its
-- outer loop; more rounds than the outer iterator has results are enough. The two loops of an
-- allocation that follow lists of segments have a bound on their rounds as well; more rounds than
-- each list has segments are enough. The counts of the
-- connectors of an element are 32-bit words. The element at the offset 65535 of a segment, which
-- the code admits, lies behind the array and is an address like the others here.
--
-- The number of the readers of a monitor is a 32-bit word; the theorems on a monitor ask that never
-- 2^32 threads read at once. The identifiers of monitors that are taken together are below 2^31,
-- beyond which the comparison of the code is not an order. The sizes of a queue are numbers. The
-- loop of an append to a dictionary has a bound on its rounds; one more than the string has bytes
-- is enough, as every round takes a byte.
--
-- Not modelled: the grammar and its generated parser, which call the operations above; the printing
-- of a parser and of its tree; the rest of the storage (content of links, events, transactions,
-- threads, files, the visits of a dictionary, the linked list), the memory interface above it
-- (contexts, templates, agents) and the tools.
pub mod Base
pub mod Container
pub mod Monitor
pub mod ScAddr
pub mod ScType
pub mod Scs
pub mod Storage
pub mod Tests
