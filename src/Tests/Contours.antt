-- ===== src/Tests/Contours.antt =====
-- The new elements of a contour.
use sc_memory_knowledge_sync.Scs.Parser.Contour.Members.{IsPlaced}
use sc_memory_knowledge_sync.Scs.Parser.State.{empty_parser}
use sc_memory_knowledge_sync.Tests.Reader.{with_x}
use sc_memory_knowledge_sync.Scs.Parser.Append.Placed.{append_element-IsPlaced}
use sc_memory_knowledge_sync.Base.{[], false, codes}
use sc_memory_knowledge_sync.ScType.Elements.{const_node}

empty-IsPlaced : IsPlaced empty_parser
empty-IsPlaced = record { elements = tt; locals = tt }

append_element-IsPlaced_example : IsPlaced with_x
append_element-IsPlaced_example =
    append_element-IsPlaced (codes "x") const_node false [] false empty_parser empty-IsPlaced
