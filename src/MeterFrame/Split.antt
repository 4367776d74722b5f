-- ===== src/MeterFrame/Split.antt =====
-- A frame of the expected length is split without loss into the requested objects.
use libwing.Prelude.{
  eqb→eq, ◌⊎◌, ◌≢◌, false, ◌-◌, ℕ, ◌+◌, ◌≡◌, ◌≤◌, refl, ap, List, [], ◌∷◌, ◌++◌, some, length, map,
  arith, inl, inr, append_assoc, length-append, take-append, drop-append, le→leb, Bool-cases, ◌==◌,
  zero, suc,
}
use mathlib.Core.Path.{subst₂, subst⁻¹}
use libwing.Outcome.{ok, err, meter_frame_length}
use libwing.Meter
use libwing.Meter.{Meter}
use libwing.MeterFrame.{
  Words, MeterFrameEntry, slice, decode_entries, expected_words, decode_frame, meter_word_count,
}
use libwing.MeterFrame.Entries.{words, opcode, Decoded, decode_entry-Decoded}

-- The words of the objects, one object after the other.
unfoldable pub all_words : List MeterFrameEntry → Words
all_words [] = []
all_words (e ∷ es) = words e ++ all_words es

split_at :
    (n : ℕ) (raw : Words)
    → n ≤ length raw
    → (w : Words) × (r : Words) × (raw ≡ w ++ r) × (length w ≡ n)
split_at zero raw h = ([], raw, refl, refl)
split_at (suc n) [] h = absurd (omega arith)
split_at (suc n) (x ∷ raw) h =
    let (w, r, e, l) = split_at n raw (omega arith) in
    (x ∷ w, r, ap (λ (t : Words). x ∷ t) e, omega (arith, l))

slice-append :
    (before w r : Words) (n : ℕ)
    → length w ≡ n
    → slice (before ++ (w ++ r)) (length before) (length before + n) ≡ some w
slice-append before w r n h = rw (
  le→leb (length before) (length before + n) (omega arith),
  le→leb (length before + n) (length (before ++ (w ++ r)))
      (omega (arith, h, length-append before (w ++ r), length-append w r)),
  drop-append before (w ++ r),
  same,
  take-append w r,
)
  where
    same : (length before + n) - length before ≡ length w
    same = omega (arith, h)

-- The loop from the end of `before`, on the rest of the frame.
abbrev SplitFrom : List Meter → Words → Words → Type 0
SplitFrom ms before rest =
    (es : List MeterFrameEntry) × (decode_entries ms (before ++ rest) (length before) ≡ some es)
    × (all_words es ≡ rest)
    × (map opcode es ≡ map (λ m. (Meter.wire m).0) ms)

SplitFrom-cons :
    (m : Meter) (ms : List Meter) (before w r : Words)
    → length w ≡ meter_word_count m
    → Decoded m w
    → SplitFrom ms (before ++ w) r
    → SplitFrom (m ∷ ms) before (w ++ r)
unfolding decode_entries all_words
SplitFrom-cons m ms before w r l (entry, d, wd, op) (es, ds, wds, ops) = (
  entry ∷ es,
  rw (slice-append before w r (meter_word_count m) l, ds', d),
  rw (wd, wds),
  rw (op, ops),
)
  where
    ds' : decode_entries ms (before ++ (w ++ r)) (length before + meter_word_count m) ≡ some es
    ds' =
        subst₂ (λ raw o. decode_entries ms raw o ≡ some es) (append_assoc before w r)
          (omega (arith, l, length-append before w)) ds

decode_entries-SplitFrom :
    (ms : List Meter) (before rest : Words)
    → length rest ≡ expected_words ms
    → SplitFrom ms before rest
unfolding decode_entries expected_words all_words
decode_entries-SplitFrom [] before [] h = ([], refl, refl, refl)
decode_entries-SplitFrom [] before (x ∷ rest) h = absurd (omega arith)
decode_entries-SplitFrom (m ∷ ms) before rest h =
    let (w, r, e, l) = split_at (meter_word_count m) rest (omega arith) in
    subst⁻¹ (SplitFrom (m ∷ ms) before) e (
      SplitFrom-cons m ms before w r l (decode_entry-Decoded m w l) (
        decode_entries-SplitFrom ms (before ++ w) r
          (omega (arith, ap length e, length-append w r))))

ne_of_eqb_false : (a b : ℕ) → (a == b) ≡ false → a ≢ b
ne_of_eqb_false a b h same = ground arith

-- `decode_frame` does not panic. Where the frame has another length than the request, it returns
-- the error with both lengths; where it has that length, it returns one object for each meter, in
-- the order of the request and of the meter's family, and the words of the objects in order are
-- the words of the frame.
pub decode_frame-split :
    (request : List Meter) (raw : Words)
    → ((length raw ≢ expected_words request)
        × (decode_frame request raw
            ≡ some (err (meter_frame_length (expected_words request) (length raw)))))
      ⊎ ((es : List MeterFrameEntry) × (decode_frame request raw ≡ some (ok es))
          × (all_words es ≡ raw)
          × (map opcode es ≡ map (λ m. (Meter.wire m).0) request))
unfolding decode_frame
decode_frame-split request raw = elim (Bool-cases (length raw == expected_words request)) [
  | inl e ↦
      let (es, ds, ws, ops) =
        decode_entries-SplitFrom request [] raw (eqb→eq (length raw) (expected_words request) e) in
      inr (es, rw (e, ds), ws, ops)
  | inr e ↦ inl ((λ same. ne_of_eqb_false (length raw) (expected_words request) e same), rw e)
]
