-- ===== src/Node/Store.antt =====
-- The descriptors of a node as a memory: reading after a write.
use torc_lite.Common.{◌≡◌, ◌≢◌, arith}
use torc_lite.Desc.{Ptr, Desc}
use torc_lite.Node.{Node, set_desc}

pub set_desc_self : (p : Ptr) (d : Desc) (n : Node) → (set_desc p d n).desc p ≡ d
set_desc_self p d n = ground arith

pub set_desc_other : (p q : Ptr) (d : Desc) (n : Node) → q ≢ p → (set_desc p d n).desc q ≡ n.desc q
set_desc_other p q d n ne = ground arith
