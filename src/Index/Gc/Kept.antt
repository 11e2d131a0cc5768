-- ===== src/Index/Gc/Kept.antt =====
-- What a collection of segment files leaves.
use memlake.Prelude.Bytes.{Bytes}
