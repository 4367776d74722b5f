-- ===== src/MeterFrame.antt =====
-- src/meters.rs: a raw meter frame split into the objects that were requested. An i16 is a ℤ.
pub mod Entries
pub mod Split
use mathlib.Core.Option
use libwing.Prelude.{
  ◌-◌, ◌&&◌, ℕ, ◌+◌, List, [], ◌∷◌, Option, none, some, not, length, leb, ◌==◌, take, drop,
  if◌then◌else◌,
}
use libwing.Prelude.Ints.{ℤ}
use libwing.Outcome.{Result, ok, err, meter_frame_length}
use libwing.Meter.{Meter}

abbrev pub Words : Type 0
Words = List ℤ

abbrev pub channel_words : ℕ
channel_words = 8

abbrev pub dca_words : ℕ
dca_words = 4

abbrev pub fx_words : ℕ
fx_words = 10

abbrev pub source_words : ℕ
source_words = 8

abbrev pub output_words : ℕ
output_words = 8

abbrev pub monitor_words : ℕ
monitor_words = 6

abbrev pub rta_words : ℕ
rta_words = 120

abbrev pub channel_v2_words : ℕ
channel_v2_words = 11

pub record ChannelMeter : Type 0 where
  pub input_l : ℤ
  pub input_r : ℤ
  pub output_l : ℤ
  pub output_r : ℤ
  pub gate_key : ℤ
  pub gate_gain : ℤ
  pub dyn_key : ℤ
  pub dyn_gain : ℤ

-- Each `from_slice` asserts the length of its slice: none is its panic.
unfoldable pub channel_from_slice : Words → Option ChannelMeter
channel_from_slice (a ∷ b ∷ c ∷ d ∷ e ∷ f ∷ g ∷ h ∷ []) = some (record {
  input_l = a;
  input_r = b;
  output_l = c;
  output_r = d;
  gate_key = e;
  gate_gain = f;
  dyn_key = g;
  dyn_gain = h;
})
channel_from_slice _ = none

pub record DcaMeter : Type 0 where
  pub pre_fader_l : ℤ
  pub pre_fader_r : ℤ
  pub post_fader_l : ℤ
  pub post_fader_r : ℤ

unfoldable pub dca_from_slice : Words → Option DcaMeter
dca_from_slice (a ∷ b ∷ c ∷ d ∷ []) =
    some (record { pre_fader_l = a; pre_fader_r = b; post_fader_l = c; post_fader_r = d })
dca_from_slice _ = none

-- `state` is the array of six.
pub record FxMeter : Type 0 where
  pub input_l : ℤ
  pub input_r : ℤ
  pub output_l : ℤ
  pub output_r : ℤ
  pub state : Words

unfoldable pub fx_from_slice : Words → Option FxMeter
fx_from_slice (a ∷ b ∷ c ∷ d ∷ s0 ∷ s1 ∷ s2 ∷ s3 ∷ s4 ∷ s5 ∷ []) = some (record {
  input_l = a;
  input_r = b;
  output_l = c;
  output_r = d;
  state = s0 ∷ s1 ∷ s2 ∷ s3 ∷ s4 ∷ s5 ∷ [];
})
fx_from_slice _ = none

pub record MonitorMeter : Type 0 where
  pub solo_l : ℤ
  pub solo_r : ℤ
  pub mon1_l : ℤ
  pub mon1_r : ℤ
  pub mon2_l : ℤ
  pub mon2_r : ℤ

unfoldable pub monitor_from_slice : Words → Option MonitorMeter
monitor_from_slice (a ∷ b ∷ c ∷ d ∷ e ∷ f ∷ []) =
    some (record { solo_l = a; solo_r = b; mon1_l = c; mon1_r = d; mon2_l = e; mon2_r = f })
monitor_from_slice _ = none

pub record ChannelMeterV2 : Type 0 where
  pub input_l : ℤ
  pub input_r : ℤ
  pub output_l : ℤ
  pub output_r : ℤ
  pub gate_key : ℤ
  pub gate_gain : ℤ
  pub gate_led : ℤ
  pub dyn_key : ℤ
  pub dyn_gain : ℤ
  pub dyn_state : ℤ
  pub automix_gain : ℤ

unfoldable pub channel_v2_from_slice : Words → Option ChannelMeterV2
channel_v2_from_slice (a ∷ b ∷ c ∷ d ∷ e ∷ f ∷ g ∷ h ∷ i ∷ j ∷ k ∷ []) = some (record {
  input_l = a;
  input_r = b;
  output_l = c;
  output_r = d;
  gate_key = e;
  gate_gain = f;
  gate_led = g;
  dyn_key = h;
  dyn_gain = i;
  dyn_state = j;
  automix_gain = k;
})
channel_v2_from_slice _ = none

pub data MeterFrameEntry : Type 0 where
  channel aux bus main matrix : ChannelMeter → MeterFrameEntry
  dca : DcaMeter → MeterFrameEntry
  fx : FxMeter → MeterFrameEntry
  source output : Words → MeterFrameEntry
  monitor : MonitorMeter → MeterFrameEntry
  rta : Words → MeterFrameEntry
  channel2 aux2 bus2 main2 matrix2 : ChannelMeterV2 → MeterFrameEntry

unfoldable pub meter_word_count : Meter → ℕ
meter_word_count (Meter.channel n) = channel_words
meter_word_count (Meter.aux n) = channel_words
meter_word_count (Meter.bus n) = channel_words
meter_word_count (Meter.main n) = channel_words
meter_word_count (Meter.matrix n) = channel_words
meter_word_count (Meter.dca n) = dca_words
meter_word_count (Meter.fx n) = fx_words
meter_word_count (Meter.source n) = source_words
meter_word_count (Meter.output n) = output_words
meter_word_count Meter.monitor = monitor_words
meter_word_count Meter.rta = rta_words
meter_word_count (Meter.channel2 n) = channel_v2_words
meter_word_count (Meter.aux2 n) = channel_v2_words
meter_word_count (Meter.bus2 n) = channel_v2_words
meter_word_count (Meter.main2 n) = channel_v2_words
meter_word_count (Meter.matrix2 n) = channel_v2_words

-- The conversion to an array of eight.
abbrev pub array8 : Words → Option Words
array8 words = if length words == 8 then some words else none

unfoldable pub decode_entry : Meter → Words → Option MeterFrameEntry
decode_entry (Meter.channel n) words = Option.map channel (channel_from_slice words)
decode_entry (Meter.aux n) words = Option.map aux (channel_from_slice words)
decode_entry (Meter.bus n) words = Option.map bus (channel_from_slice words)
decode_entry (Meter.main n) words = Option.map main (channel_from_slice words)
decode_entry (Meter.matrix n) words = Option.map matrix (channel_from_slice words)
decode_entry (Meter.dca n) words = Option.map dca (dca_from_slice words)
decode_entry (Meter.fx n) words = Option.map fx (fx_from_slice words)
decode_entry (Meter.source n) words = Option.map source (array8 words)
decode_entry (Meter.output n) words = Option.map output (array8 words)
decode_entry Meter.monitor words = Option.map monitor (monitor_from_slice words)
decode_entry Meter.rta words = some (rta words)
decode_entry (Meter.channel2 n) words = Option.map channel2 (channel_v2_from_slice words)
decode_entry (Meter.aux2 n) words = Option.map aux2 (channel_v2_from_slice words)
decode_entry (Meter.bus2 n) words = Option.map bus2 (channel_v2_from_slice words)
decode_entry (Meter.main2 n) words = Option.map main2 (channel_v2_from_slice words)
decode_entry (Meter.matrix2 n) words = Option.map matrix2 (channel_v2_from_slice words)

-- `&raw[from..to]`, which panics where it does not fit.
abbrev pub slice : Words → ℕ → ℕ → Option Words
slice raw from to =
    if leb from to && leb to (length raw) then some (take (to - from) (drop from raw)) else none

unfoldable pub expected_words : List Meter → ℕ
expected_words [] = 0
expected_words (m ∷ ms) = meter_word_count m + expected_words ms

-- `out.push`, and the rest of the loop. none is a panic of either.
abbrev pub push_entry :
    Option MeterFrameEntry → Option (List MeterFrameEntry) → Option (List MeterFrameEntry)
push_entry none rest = none
push_entry (some entry) rest = Option.map (λ entries. entry ∷ entries) rest

abbrev pub decode_slice : Meter → Option Words → Option MeterFrameEntry
decode_slice m none = none
decode_slice m (some words) = decode_entry m words

-- The loop, from an offset.
unfoldable pub decode_entries : List Meter → Words → ℕ → Option (List MeterFrameEntry)
decode_entries [] raw offset = some []
decode_entries (m ∷ ms) raw offset =
    let n = meter_word_count m in
    push_entry (decode_slice m (slice raw offset (offset + n))) (decode_entries ms raw (offset + n))

abbrev pub as_ok : Option (List MeterFrameEntry) → Option (Result (List MeterFrameEntry))
as_ok o = Option.map ok o

-- none is a panic.
unfoldable pub decode_frame : List Meter → Words → Option (Result (List MeterFrameEntry))
decode_frame request raw =
    if not (length raw == expected_words request)
    then some (err (meter_frame_length (expected_words request) (length raw)))
    else as_ok (decode_entries request raw 0)
