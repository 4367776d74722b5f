-- ===== src/Meter.antt =====
-- `Meter` of src/console.rs: the meter families, their wire table, and the client's encoding.
pub mod Wire
use libwing.Prelude.{
  ℕ, ◌-◌, Bool, Option, none, some, List, [], ◌∷◌, ◌++◌, ◌&&◌, leb, ◌==◌, if◌then◌else◌,
}
use libwing.Prelude.BigEndian.{Bytes}
use libwing.Outcome.{Result, ok, err, invalid_input, ok_or, bind}
use libwing.Native.Channel.{append_escaped}

pub data Meter : Type 0 where
  channel aux bus main matrix dca fx source output : ℕ → Meter
  monitor rta : Meter
  channel2 aux2 bus2 main2 matrix2 : ℕ → Meter

-- The family's opcode, the index (0 for `monitor` and `rta`), the largest index of the family.
unfoldable pub wire : Meter → ℕ × ℕ × ℕ
wire (channel n) = (0xa0, n, 40)
wire (aux n) = (0xa1, n, 8)
wire (bus n) = (0xa2, n, 16)
wire (main n) = (0xa3, n, 4)
wire (matrix n) = (0xa4, n, 8)
wire (dca n) = (0xa5, n, 16)
wire (fx n) = (0xa6, n, 16)
wire (source n) = (0xa7, n, 16)
wire (output n) = (0xa8, n, 11)
wire monitor = (0xa9, 0, 0)
wire rta = (0xaa, 0, 0)
wire (channel2 n) = (0xab, n, 40)
wire (aux2 n) = (0xac, n, 8)
wire (bus2 n) = (0xad, n, 16)
wire (main2 n) = (0xae, n, 4)
wire (matrix2 n) = (0xaf, n, 8)

unfoldable pub from_wire : ℕ → ℕ → Option Meter
from_wire opcode index =
    if opcode == 0xa0
    then some (channel index)
    else if opcode == 0xa1
    then some (aux index)
    else if opcode == 0xa2
    then some (bus index)
    else if opcode == 0xa3
    then some (main index)
    else if opcode == 0xa4
    then some (matrix index)
    else if opcode == 0xa5
    then some (dca index)
    else if opcode == 0xa6
    then some (fx index)
    else if opcode == 0xa7
    then some (source index)
    else if opcode == 0xa8
    then some (output index)
    else if opcode == 0xa9 && index == 0
    then some monitor
    else if opcode == 0xaa && index == 0
    then some rta
    else if opcode == 0xab
    then some (channel2 index)
    else if opcode == 0xac
    then some (aux2 index)
    else if opcode == 0xad
    then some (bus2 index)
    else if opcode == 0xae
    then some (main2 index)
    else if opcode == 0xaf
    then some (matrix2 index)
    else none

-- `n.checked_sub(1).filter(|_| n <= max)`.
abbrev zero_based : ℕ → ℕ → Option ℕ
zero_based n max = if leb 1 n && leb n max then some (n - 1) else none

unfoldable pub encode_meter : Bytes → Meter → Result Bytes
unfolding wire
encode_meter buf meter =
    let (opcode, n, max) = wire meter in
    if max == 0
    then ok (buf ++ opcode ∷ [])
    else bind (ok_or invalid_input (zero_based n max))
        (λ index. ok (append_escaped (buf ++ opcode ∷ []) (index ∷ [])))

-- The `for` loop over the meters of a request.
unfoldable pub encode_meters : Bytes → List Meter → Result Bytes
encode_meters buf [] = ok buf
encode_meters buf (m ∷ ms) = bind (encode_meter buf m) (λ buf'. encode_meters buf' ms)
