-- ===== src/Node/Items.antt =====
-- The items of an enum definition, written and read back.
use libwing.Node.Readers.{short_form, push_short_string-ok, read_short_string-form, read_f32-be}
use libwing.Node.{StringEnumItem, FloatEnumItem}
use libwing.Node.Decode.{read_string_items, read_float_items, Reader}
use libwing.Prelude.Utf8.{IsStr}
use libwing.Prelude.{
  refl, [], ◌∷◌, append-nil, append_assoc, ap, ◌∙◌, sym, length, ◌++◌, All, none, List, ◌≡◌, some,
  ◌^◌, Option, ◌<◌,
}
use libwing.Node.Encode.{push_short_string, write_string_items, write_float_items}
use libwing.Prelude.BigEndian.{Bytes, u32_to_be}
use libwing.Outcome.{bind-eq-ok, ok-injective, ok}

abbrev pub ItemOk : StringEnumItem → Type 0
ItemOk i = IsStr i.item × IsStr i.long_item

abbrev pub FloatItemOk : FloatEnumItem → Type 0
FloatItemOk i = (i.item < 2 ^ 32) × IsStr i.long_item

-- What the Rust types of the fields guarantee.
abbrev pub OptionAll {ℓ κ} : {A : Type ℓ} → (A → Type κ) → Option A → Type κ
OptionAll P none = Unit
OptionAll P (some a) = P a

-- The bytes `w` appended to a buffer, and that they read back as `a`.
abbrev pub Written {ℓ} : {A : Type ℓ} → Reader A → A → Bytes → Bytes → Type ℓ
Written r a raw raw' =
    (w : Bytes) × (raw' ≡ raw ++ w) × ((rest : Bytes) → r (w ++ rest) ≡ ok (a, rest))

-- A string in front of what was written before.
pub short_string-append :
    (raw s w : Bytes) {raw1 raw2 : Bytes}
    → push_short_string raw s ≡ ok raw1
    → raw2 ≡ raw1 ++ w
    → raw2 ≡ raw ++ (short_form s ++ w)
short_string-append raw s w e e2 =
    e2 ∙ ap (λ r. r ++ w) (push_short_string-ok raw s e).1 ∙ append_assoc raw (short_form s) w

pub string_items-Written :
    (items : List StringEnumItem) (raw : Bytes) {raw' : Bytes}
    → All ItemOk items
    → write_string_items raw items ≡ ok raw'
    → Written (read_string_items (length items)) items raw raw'
unfolding write_string_items read_string_items
string_items-Written [] raw h e = ([], sym (ok-injective e) ∙ sym (append-nil raw), λ rest. refl)
string_items-Written (i ∷ items) raw h e =
    let (raw1, e1, k1) = bind-eq-ok (push_short_string raw i.item) _ e in
    let (raw2, e2, k2) = bind-eq-ok (push_short_string raw1 i.long_item) _ k1 in
    let (w, ew, back) = string_items-Written items raw2 h.1 k2 in
    (
      short_form i.item ++ (short_form i.long_item ++ w),
      short_string-append raw i.item (short_form i.long_item ++ w) e1
          (short_string-append raw1 i.long_item w e2 ew),
      λ rest. rw (
        append_assoc (short_form i.item) (short_form i.long_item ++ w) rest,
        append_assoc (short_form i.long_item) w rest,
        read_short_string-form i.item (short_form i.long_item ++ (w ++ rest)) h.0.0,
        read_short_string-form i.long_item (w ++ rest) h.0.1,
        back rest,
      ),
    )

pub float_items-Written :
    (items : List FloatEnumItem) (raw : Bytes) {raw' : Bytes}
    → All FloatItemOk items
    → write_float_items raw items ≡ ok raw'
    → Written (read_float_items (length items)) items raw raw'
unfolding write_float_items read_float_items
float_items-Written [] raw h e = ([], sym (ok-injective e) ∙ sym (append-nil raw), λ rest. refl)
float_items-Written (i ∷ items) raw h e =
    let (raw1, e1, k1) = bind-eq-ok (push_short_string (raw ++ u32_to_be i.item) i.long_item) _ e in
    let (w, ew, back) = float_items-Written items raw1 h.1 k1 in
    (
      u32_to_be i.item ++ (short_form i.long_item ++ w),
      short_string-append (raw ++ u32_to_be i.item) i.long_item w e1 ew
          ∙ append_assoc raw (u32_to_be i.item) (short_form i.long_item ++ w),
      λ rest. rw (
        append_assoc (u32_to_be i.item) (short_form i.long_item ++ w) rest,
        append_assoc (short_form i.long_item) w rest,
        read_f32-be i.item (short_form i.long_item ++ (w ++ rest)) h.0.0,
        read_short_string-form i.long_item (w ++ rest) h.0.1,
        back rest,
      ),
    )
