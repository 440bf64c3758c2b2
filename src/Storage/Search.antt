-- ===== src/Storage/Search.antt =====
-- The search for a generated sc-connector.
use sc_memory_knowledge_sync.Storage.Iterator3.{Context}
use sc_memory_knowledge_sync.ScAddr.{ScAddr}
use sc_memory_knowledge_sync.Base.{◌≡◌}
use sc_memory_knowledge_sync.Storage.Element.{Element}
use sc_memory_knowledge_sync.Storage.State.{Storage}

-- The permissions to read an element are read from its states alone.
abbrev pub ReadsStates : Context → Type 0
ReadsStates ctx =
    (y y' : Element) (a : ScAddr)
    → y.states ≡ y'.states
    → ctx.can_read_permissions y a ≡ ctx.can_read_permissions y' a
