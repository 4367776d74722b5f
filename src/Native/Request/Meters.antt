-- ===== src/Native/Request/Meters.antt =====
-- `parse_meter`, `flush_meter_renewal` and `decode_meter_entries` of src/native.rs.
pub mod Outcomes
use libwing.Native.Request.{
  Result, NativeRequestDecoder, NativeRequest, meter_port, meter_subscribe, meter_renew, unknown,
}
use libwing.Prelude.{
  ◌+◌, take, not, get_elem?, ◌||◌, ◌++◌, ◌&&◌, take?, ltb, leb, if◌then◌else◌, ◌==◌, ◌-◌, some,
  false, none, ◌∷◌, [], length, Bool, List, drop, Option, ℕ,
}
use libwing.Outcome.{and_then, invalid_data, ok_or, err, bind, ok, Exec}
use libwing.Meter.{from_wire, Meter, wire}
use libwing.Prelude.BigEndian.{from_be, Bytes}

-- `self.meter.drain(..n)`.
abbrev pub drain_meter : ℕ → NativeRequestDecoder → NativeRequestDecoder
drain_meter n d = record d { meter = drop n d.meter }

abbrev pub MeterStep : Type 0
MeterStep = Exec NativeRequestDecoder (Option NativeRequest)

-- `Meter::from_wire(byte, 0).filter(|m| m.wire().2 == 0)`.
abbrev whole_entry : Option Meter → List Meter
whole_entry none = []
whole_entry (some m) = if (wire m).2 == 0 then m ∷ [] else []

-- One byte of the collection: the family from now on, and the meters so far.
unfoldable pub meter_entry : ℕ → Option ℕ → List Meter → Result (Option ℕ × List Meter)
unfolding wire from_wire
meter_entry byte family meters =
    if leb 0xa0 byte && leb byte 0xaf
    then ok (some byte, meters ++ whole_entry (from_wire byte 0))
    else if leb byte 0x7f
    then bind (ok_or invalid_data family) (λ f.
      bind (ok_or invalid_data (from_wire f (byte + 1))) (λ m. ok (some f, meters ++ m ∷ [])))
    else err invalid_data

unfoldable pub decode_entries_from : Bytes → ℕ → Option ℕ → List Meter → Result (List Meter)
decode_entries_from [] limit family meters = ok meters
decode_entries_from (byte ∷ raw) limit family meters =
    bind (meter_entry byte family meters) (λ (family', meters').
      let rest = decode_entries_from raw limit family' meters' in
      if ltb limit (length meters') then err invalid_data else rest)

unfoldable pub decode_meter_entries : Bytes → ℕ → Result (List Meter)
unfolding decode_entries_from
decode_meter_entries raw limit = decode_entries_from raw limit none []

-- `self.meter[end] == 0xde`.
abbrev pub byte_is : ℕ → Option ℕ → Bool
byte_is b none = false
byte_is b (some c) = c == b

abbrev pub operand : Option Bytes → (Bytes → MeterStep) → MeterStep
operand none f d = (ok none, d)
operand (some bytes) f d = f bytes d

-- The collection of a subscription. `end` is the place of the newest byte.
unfoldable pub parse_collection : ℕ → MeterStep
unfolding decode_meter_entries
parse_collection report_id d =
    let end : ℕ = length d.meter - 1 in
    if ltb end 6 || not (byte_is 0xde (get_elem? d.meter end))
    then (ok none, d)
    else and_then
        (decode_meter_entries (take (end - 6) (drop 6 d.meter)) d.limits.max_meter_entries, d)
        (λ meters s.
          and_then (ok_or invalid_data s.port, s)
            (λ port t.
              (ok (some (meter_subscribe port report_id meters)), drain_meter (end + 1) t)))

abbrev pub after_report : ℕ → Option ℕ → MeterStep
after_report report_id none d = (ok none, d)
after_report report_id (some next) d =
    if next == 0xdc
    then parse_collection report_id d
    else (ok (some (meter_renew report_id)), drain_meter 5 d)

unfoldable pub meter_token : ℕ → Bytes → MeterStep
unfolding parse_collection
meter_token op rest d =
    if op == 0xd3
    then operand (take? 2 rest)
        (λ bytes s. (
          ok (some (meter_port (from_be bytes))),
          drain_meter 3 (record s { port = some (from_be bytes) }),
        ))
        d
    else if op == 0xd4
    then operand (take? 4 rest) (λ bytes s. after_report (from_be bytes) (get_elem? s.meter 5) s) d
    else (ok (some (unknown 3 op)), drain_meter 1 d)

abbrev pub meter_first : Bytes → MeterStep
meter_first [] d = (ok none, d)
meter_first (op ∷ rest) d = meter_token op rest d

unfoldable pub parse_meter : MeterStep
unfolding meter_token
parse_meter d = meter_first d.meter d

-- `self.meter.len() == 5 && self.meter[0] == 0xd4`.
unfoldable pub flush_meter_renewal : Exec NativeRequestDecoder (List NativeRequest)
flush_meter_renewal d =
    if length d.meter == 0
    then (ok [], d)
    else if length d.meter == 5 && byte_is 0xd4 (get_elem? d.meter 0)
    then (ok (meter_renew (from_be (take 4 (drop 1 d.meter))) ∷ []), record d { meter = [] })
    else (err invalid_data, d)
