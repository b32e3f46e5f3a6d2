-- ===== src/Prelude/Alloc.antt =====
-- The C allocator, which the library only calls: it says for each request whether it is granted.
-- A request for raw bytes carries their number (`malloc(0)` may be refused too).
use Prim.Native.Nat.{ℕ}
use mathlib.Core.Bool.{Bool}

pub data Request : Type 0 where
  bytes : ℕ → Request
  tlv tlvlist snac msgcookie handler frame conn conn_inside snacgroup module_s rateclass snacpair
        ssi_item :
      Request

abbrev pub Allocator : Type 0
Allocator = Request → Bool
