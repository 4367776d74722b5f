-- ===== src/Native/Request/Meters/Outcomes.antt =====
-- What the meter-channel parser may change.
use libwing.Native.Request.Meters.{
  byte_is, operand, meter_first, after_report, decode_meter_entries, MeterStep, flush_meter_renewal,
  meter_token, parse_collection, parse_meter,
}
use libwing.Native.Request.{NativeRequest, NativeRequestDecoder}
use libwing.Prelude.{
  not, ◌||◌, false, ltb, inr, inl, Bool-cases, List, ◌+◌, get_elem?, refl, [], none, ◌-◌, true,
  ◌&&◌, ◌∷◌, take?, some, take, length-drop, ◌≤◌, ◌==◌, if◌then◌else◌, drop, length, Bool, arith,
  Option, ◌≡◌, ℕ,
}
use libwing.Outcome.{invalid_data, ok_or, and_then, err, ok, Result}
use libwing.Prelude.BigEndian.{from_be, Bytes}

pub record MeterFramed (d s : NativeRequestDecoder) : Type 0 where
  pub limits : s.limits ≡ d.limits
  pub channels : s.channels ≡ d.channels
  pub audio : s.audio ≡ d.audio
  pub path : s.path ≡ d.path
  pub path_bytes : s.path_bytes ≡ d.path_bytes
  pub selected_id : s.selected_id ≡ d.selected_id
  pub shorter : length s.meter ≤ length d.meter

abbrev pub MeterOutcome :
    NativeRequestDecoder → Result (Option NativeRequest) × NativeRequestDecoder → Type 0
MeterOutcome d (ok o, s) = MeterFramed d s
MeterOutcome d (err e, s) = s.limits ≡ d.limits

abbrev pub FlushOutcome :
    NativeRequestDecoder → Result (List NativeRequest) × NativeRequestDecoder → Type 0
FlushOutcome d (ok o, s) = MeterFramed d s
FlushOutcome d (err e, s) = s.limits ≡ d.limits

drained :
    (n : ℕ) (p : Option ℕ) (d : NativeRequestDecoder)
    → MeterFramed d (record d { meter = drop n d.meter; port = p })
drained n p d = record {
  limits = refl;
  channels = refl;
  audio = refl;
  path = refl;
  path_bytes = refl;
  selected_id = refl;
  shorter = omega (arith, length-drop n d.meter);
}

unchanged : (d : NativeRequestDecoder) → MeterFramed d d
unchanged d = record {
  limits = refl;
  channels = refl;
  audio = refl;
  path = refl;
  path_bytes = refl;
  selected_id = refl;
  shorter = omega arith;
}

module _ (d : NativeRequestDecoder) where
  and_then-MeterOutcome :
      {A : Type 0} (r : Result A) (f : A → MeterStep)
      → ((a : A) → MeterOutcome d (f a d))
      → MeterOutcome d (and_then (r, d) f)
  and_then-MeterOutcome (ok a) f k = k a
  and_then-MeterOutcome (err e) f k = refl

  if-MeterOutcome :
      (b : Bool) (x y : Result (Option NativeRequest) × NativeRequestDecoder)
      → MeterOutcome d x
      → MeterOutcome d y
      → MeterOutcome d (if b then x else y)
  if-MeterOutcome true x y hx hy = hx
  if-MeterOutcome false x y hx hy = hy

  operand-MeterOutcome :
      (o : Option Bytes) (f : Bytes → MeterStep)
      → ((bytes : Bytes) → MeterOutcome d (f bytes d))
      → MeterOutcome d (operand o f d)
  operand-MeterOutcome none f k = unchanged d
  operand-MeterOutcome (some bytes) f k = k bytes

  collection-MeterOutcome : (report_id : ℕ) → MeterOutcome d (parse_collection report_id d)
  unfolding parse_collection
  collection-MeterOutcome report_id =
      if-MeterOutcome
        (ltb (length d.meter - 1) 6 || not (byte_is 0xde (get_elem? d.meter (length d.meter - 1))))
        _ _ (unchanged d)
        (and_then-MeterOutcome
          (decode_meter_entries (take (length d.meter - 1 - 6) (drop 6 d.meter))
            d.limits.max_meter_entries)
          _
          (λ meters.
            and_then-MeterOutcome (ok_or invalid_data d.port) _
              (λ port. drained (length d.meter - 1 + 1) d.port d)))

  report-MeterOutcome : (report_id : ℕ) (o : Option ℕ) → MeterOutcome d (after_report report_id o d)
  report-MeterOutcome report_id none = unchanged d
  report-MeterOutcome report_id (some next) =
      if-MeterOutcome (next == 0xdc) _ _ (collection-MeterOutcome report_id) (drained 5 d.port d)

  token-MeterOutcome : (op : ℕ) (rest : Bytes) → MeterOutcome d (meter_token op rest d)
  unfolding meter_token
  token-MeterOutcome op rest =
      if-MeterOutcome (op == 0xd3) _ _
        (operand-MeterOutcome (take? 2 rest) _ (λ bytes. drained 3 (some (from_be bytes)) d))
        (if-MeterOutcome (op == 0xd4) _ _
          (operand-MeterOutcome (take? 4 rest) _
            (λ bytes. report-MeterOutcome (from_be bytes) (get_elem? d.meter 5)))
          (drained 1 d.port d))

  first-MeterOutcome : (meter : Bytes) → MeterOutcome d (meter_first meter d)
  first-MeterOutcome [] = unchanged d
  first-MeterOutcome (op ∷ rest) = token-MeterOutcome op rest

  -- A pass over the meter buffer changes that buffer, which it only shortens, and the port.
  pub parse_meter-MeterOutcome : MeterOutcome d (parse_meter d)
  unfolding parse_meter
  parse_meter-MeterOutcome = first-MeterOutcome d.meter

  pub flush-FlushOutcome : FlushOutcome d (flush_meter_renewal d)
  unfolding flush_meter_renewal
  flush-FlushOutcome = elim (Bool-cases (length d.meter == 0)) [
    | inl e ↦ rw e (unchanged d)
    | inr e ↦ elim (Bool-cases (length d.meter == 5 && byte_is 0xd4 (get_elem? d.meter 0))) [
      | inl f ↦
          rw (e, f)
            (record {
              limits = refl;
              channels = refl;
              audio = refl;
              path = refl;
              path_bytes = refl;
              selected_id = refl;
              shorter = omega arith;
            })
      | inr f ↦ rw (e, f) refl
    ]
  ]
