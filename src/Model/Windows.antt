-- ===== src/Model/Windows.antt =====
-- The windows of keys that the scans of edges and of their history read.
use plugmem.Base.Bytes.{Bytes}
use plugmem.Base.Order.{◌≺◌}

-- A key that is at or above the one and below the other.
abbrev pub Between : Bytes → Bytes → Bytes → Type 0
Between low high key = (¬ (key ≺ low)) × (key ≺ high)
