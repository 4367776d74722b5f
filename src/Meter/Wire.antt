-- ===== src/Meter/Wire.antt =====
-- The wire table of the meters, both ways.
use libwing.Prelude.{ℕ, ◌≡◌, refl, some, arith}
use libwing.Meter.{Meter, wire, from_wire}

-- Every meter is read back from its family's opcode and its index.
pub from_wire-wire : (m : Meter) → from_wire (wire m).0 (wire m).1 ≡ some m
unfolding from_wire wire
from_wire-wire (Meter.channel n) = refl
from_wire-wire _ = refl

-- Whatever `from_wire` accepts has that opcode and that index on the wire.
pub wire-from_wire :
    (opcode index : ℕ) (m : Meter)
    → from_wire opcode index ≡ some m
    → ((wire m).0 ≡ opcode) × ((wire m).1 ≡ index)
unfolding from_wire wire
wire-from_wire opcode index (Meter.channel n) h = ground arith
wire-from_wire opcode index _ h = ground arith
