-- ===== src/MeterFrame/Entries.antt =====
-- Every object of a frame, against the words that it was decoded from.
use libwing.Prelude.{ℕ, ◌≡◌, refl, [], ◌∷◌, some, length, arith}
use libwing.Meter
use libwing.Meter.{Meter}
use libwing.MeterFrame.{
  Words, MeterFrameEntry, ChannelMeter, DcaMeter, FxMeter, MonitorMeter, ChannelMeterV2,
  channel_from_slice, dca_from_slice, fx_from_slice, monitor_from_slice, channel_v2_from_slice,
  decode_entry, meter_word_count,
}

abbrev channel_list : ChannelMeter → Words
channel_list m =
    m.input_l ∷ m.input_r ∷ m.output_l ∷ m.output_r ∷ m.gate_key ∷ m.gate_gain ∷ m.dyn_key
    ∷ m.dyn_gain ∷ []

channel_from_slice-list :
    (w : Words)
    → length w ≡ 8
    → (m : ChannelMeter) × (channel_from_slice w ≡ some m) × (channel_list m ≡ w)
unfolding channel_from_slice
channel_from_slice-list (a ∷ b ∷ c ∷ d ∷ e ∷ f ∷ g ∷ h ∷ []) p = (_, refl, refl)
channel_from_slice-list _ p = absurd (omega arith)

abbrev dca_list : DcaMeter → Words
dca_list m = m.pre_fader_l ∷ m.pre_fader_r ∷ m.post_fader_l ∷ m.post_fader_r ∷ []

dca_from_slice-list :
    (w : Words) → length w ≡ 4 → (m : DcaMeter) × (dca_from_slice w ≡ some m) × (dca_list m ≡ w)
unfolding dca_from_slice
dca_from_slice-list (a ∷ b ∷ c ∷ d ∷ []) p = (_, refl, refl)
dca_from_slice-list _ p = absurd (omega arith)

abbrev fx_list : FxMeter → Words
fx_list m = m.input_l ∷ m.input_r ∷ m.output_l ∷ m.output_r ∷ m.state

fx_from_slice-list :
    (w : Words) → length w ≡ 10 → (m : FxMeter) × (fx_from_slice w ≡ some m) × (fx_list m ≡ w)
unfolding fx_from_slice
fx_from_slice-list (a ∷ b ∷ c ∷ d ∷ e ∷ f ∷ g ∷ h ∷ i ∷ j ∷ []) p = (_, refl, refl)
fx_from_slice-list _ p = absurd (omega arith)

abbrev monitor_list : MonitorMeter → Words
monitor_list m = m.solo_l ∷ m.solo_r ∷ m.mon1_l ∷ m.mon1_r ∷ m.mon2_l ∷ m.mon2_r ∷ []

monitor_from_slice-list :
    (w : Words)
    → length w ≡ 6
    → (m : MonitorMeter) × (monitor_from_slice w ≡ some m) × (monitor_list m ≡ w)
unfolding monitor_from_slice
monitor_from_slice-list (a ∷ b ∷ c ∷ d ∷ e ∷ f ∷ []) p = (_, refl, refl)
monitor_from_slice-list _ p = absurd (omega arith)

abbrev channel_v2_list : ChannelMeterV2 → Words
channel_v2_list m =
    m.input_l ∷ m.input_r ∷ m.output_l ∷ m.output_r ∷ m.gate_key ∷ m.gate_gain ∷ m.gate_led
    ∷ m.dyn_key ∷ m.dyn_gain ∷ m.dyn_state ∷ m.automix_gain ∷ []

channel_v2_from_slice-list :
    (w : Words)
    → length w ≡ 11
    → (m : ChannelMeterV2) × (channel_v2_from_slice w ≡ some m) × (channel_v2_list m ≡ w)
unfolding channel_v2_from_slice
channel_v2_from_slice-list (a ∷ b ∷ c ∷ d ∷ e ∷ f ∷ g ∷ h ∷ i ∷ j ∷ k ∷ []) p = (_, refl, refl)
channel_v2_from_slice-list _ p = absurd (omega arith)

-- All the words of an object, in the order of the frame.
unfoldable pub words : MeterFrameEntry → Words
words (MeterFrameEntry.channel m) = channel_list m
words (MeterFrameEntry.aux m) = channel_list m
words (MeterFrameEntry.bus m) = channel_list m
words (MeterFrameEntry.main m) = channel_list m
words (MeterFrameEntry.matrix m) = channel_list m
words (MeterFrameEntry.dca m) = dca_list m
words (MeterFrameEntry.fx m) = fx_list m
words (MeterFrameEntry.source m) = m
words (MeterFrameEntry.output m) = m
words (MeterFrameEntry.monitor m) = monitor_list m
words (MeterFrameEntry.rta m) = m
words (MeterFrameEntry.channel2 m) = channel_v2_list m
words (MeterFrameEntry.aux2 m) = channel_v2_list m
words (MeterFrameEntry.bus2 m) = channel_v2_list m
words (MeterFrameEntry.main2 m) = channel_v2_list m
words (MeterFrameEntry.matrix2 m) = channel_v2_list m

-- The family of an object, by the opcode of its meter.
unfoldable pub opcode : MeterFrameEntry → ℕ
opcode (MeterFrameEntry.channel m) = 0xa0
opcode (MeterFrameEntry.aux m) = 0xa1
opcode (MeterFrameEntry.bus m) = 0xa2
opcode (MeterFrameEntry.main m) = 0xa3
opcode (MeterFrameEntry.matrix m) = 0xa4
opcode (MeterFrameEntry.dca m) = 0xa5
opcode (MeterFrameEntry.fx m) = 0xa6
opcode (MeterFrameEntry.source m) = 0xa7
opcode (MeterFrameEntry.output m) = 0xa8
opcode (MeterFrameEntry.monitor m) = 0xa9
opcode (MeterFrameEntry.rta m) = 0xaa
opcode (MeterFrameEntry.channel2 m) = 0xab
opcode (MeterFrameEntry.aux2 m) = 0xac
opcode (MeterFrameEntry.bus2 m) = 0xad
opcode (MeterFrameEntry.main2 m) = 0xae
opcode (MeterFrameEntry.matrix2 m) = 0xaf

abbrev pub Decoded : Meter → Words → Type 0
Decoded m w =
    (e : MeterFrameEntry) × (decode_entry m w ≡ some e)
    × (words e ≡ w)
    × (opcode e ≡ (Meter.wire m).0)

-- The words of a meter's family decode to an object of that family with exactly those words.
pub decode_entry-Decoded : (m : Meter) (w : Words) → length w ≡ meter_word_count m → Decoded m w
unfolding decode_entry words opcode meter_word_count Meter.wire
decode_entry-Decoded (Meter.channel n) w h =
    let (m, e, l) = channel_from_slice-list w h in (MeterFrameEntry.channel m, rw e, l, refl)
decode_entry-Decoded (Meter.aux n) w h =
    let (m, e, l) = channel_from_slice-list w h in (MeterFrameEntry.aux m, rw e, l, refl)
decode_entry-Decoded (Meter.bus n) w h =
    let (m, e, l) = channel_from_slice-list w h in (MeterFrameEntry.bus m, rw e, l, refl)
decode_entry-Decoded (Meter.main n) w h =
    let (m, e, l) = channel_from_slice-list w h in (MeterFrameEntry.main m, rw e, l, refl)
decode_entry-Decoded (Meter.matrix n) w h =
    let (m, e, l) = channel_from_slice-list w h in (MeterFrameEntry.matrix m, rw e, l, refl)
decode_entry-Decoded (Meter.dca n) w h =
    let (m, e, l) = dca_from_slice-list w h in (MeterFrameEntry.dca m, rw e, l, refl)
decode_entry-Decoded (Meter.fx n) w h =
    let (m, e, l) = fx_from_slice-list w h in (MeterFrameEntry.fx m, rw e, l, refl)
decode_entry-Decoded (Meter.source n) w h = (MeterFrameEntry.source w, rw h, refl, refl)
decode_entry-Decoded (Meter.output n) w h = (MeterFrameEntry.output w, rw h, refl, refl)
decode_entry-Decoded Meter.monitor w h =
    let (m, e, l) = monitor_from_slice-list w h in (MeterFrameEntry.monitor m, rw e, l, refl)
decode_entry-Decoded Meter.rta w h = (MeterFrameEntry.rta w, refl, refl, refl)
decode_entry-Decoded (Meter.channel2 n) w h =
    let (m, e, l) = channel_v2_from_slice-list w h in (MeterFrameEntry.channel2 m, rw e, l, refl)
decode_entry-Decoded (Meter.aux2 n) w h =
    let (m, e, l) = channel_v2_from_slice-list w h in (MeterFrameEntry.aux2 m, rw e, l, refl)
decode_entry-Decoded (Meter.bus2 n) w h =
    let (m, e, l) = channel_v2_from_slice-list w h in (MeterFrameEntry.bus2 m, rw e, l, refl)
decode_entry-Decoded (Meter.main2 n) w h =
    let (m, e, l) = channel_v2_from_slice-list w h in (MeterFrameEntry.main2 m, rw e, l, refl)
decode_entry-Decoded (Meter.matrix2 n) w h =
    let (m, e, l) = channel_v2_from_slice-list w h in (MeterFrameEntry.matrix2 m, rw e, l, refl)
