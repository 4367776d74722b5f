-- ===== src/Osc/Pairs.antt =====
-- `parse_node_dump` of src/osc.rs after `node_set_local`.
use libwing.Prelude.{
  ℕ, ◌≡◌, refl, sym, ap, ◌∙◌, Bool, true, false, some, List, [], ◌∷◌, ◌++◌, ◌==◌, eqb_refl,
  if◌then◌else◌,
}
use libwing.Prelude.BigEndian.{Bytes}
use libwing.Osc.{Result, ok, err, bind, malformed, OscMessage, contains}
use libwing.Osc.RoundTrip.{or_eq_false}
use libwing.Osc.Requests.{
  Pairs, is_empty, bad_name, bad_value, separators, contains_any, format_pair, format_pairs, join,
  format_node_pairs, validate_address_path, node_set_local,
}
use libwing.Osc.Replies.{split, split_once, pairs_of, dump_of, parse_node_dump}
use libwing.Osc.Encoded.{ok-injective, err-ne-ok}

bind-eq-ok {ℓ κ} :
    {A : Type ℓ} {B : Type κ} (m : Result A) (f : A → Result B) {b : B}
    → bind m f ≡ ok b
    → (a : A) × (m ≡ ok a) × (f a ≡ ok b)
bind-eq-ok (ok a) f h = (a, refl, h)
bind-eq-ok (err e) f h = absurd (err-ne-ok h)

-- A part without the separator, alone and before another.
split-one : (c : ℕ) (part : Bytes) → contains part c ≡ false → split c part ≡ part ∷ []
unfolding split contains
split-one c [] h = refl
split-one c (b ∷ part) h = rw (
  (or_eq_false (b == c) (contains part c) h).0,
  split-one c part (or_eq_false (b == c) (contains part c) h).1,
)

split-first :
    (c : ℕ) (part rest : Bytes)
    → contains part c ≡ false
    → split c (part ++ c ∷ rest) ≡ part ∷ split c rest
unfolding split contains
split-first c [] rest h = rw (eqb_refl c)
split-first c (b ∷ part) rest h = rw (
  (or_eq_false (b == c) (contains part c) h).0,
  split-first c part rest (or_eq_false (b == c) (contains part c) h).1,
)

split_once-first :
    (c : ℕ) (key value : Bytes)
    → contains key c ≡ false
    → split_once c (key ++ c ∷ value) ≡ some (key, value)
unfolding split_once contains
split_once-first c [] value h = rw (eqb_refl c)
split_once-first c (b ∷ key) value h = rw (
  (or_eq_false (b == c) (contains key c) h).0,
  split_once-first c key value (or_eq_false (b == c) (contains key c) h).1,
)

contains-append :
    (c : ℕ) (s t : Bytes)
    → contains s c ≡ false
    → contains t c ≡ false
    → contains (s ++ t) c ≡ false
unfolding contains
contains-append c [] t h k = k
contains-append c (b ∷ s) t h k =
    rw ((or_eq_false (b == c) (contains s c) h).0)
      (contains-append c s t (or_eq_false (b == c) (contains s c) h).1 k)

-- A pair whose text has been written.
record Written (name value text : Bytes) : Type 0 where
  same : text ≡ name ++ 0x3d ∷ value
  no_comma : contains text 0x2c ≡ false
  no_equals : contains name 0x3d ≡ false

format_pair-Written :
    (name value text : Bytes) → format_pair (name, value) ≡ ok text → Written name value text
unfolding format_pair contains_any contains
format_pair-Written name value text e = by_name (bad_name name) refl e
  where
    good :
        bad_name name ≡ false
        → bad_value value ≡ false
        → ok (name ++ 0x3d ∷ value) ≡ ok text
        → Written name value text
    good hn hv p =
        let n₁ = (or_eq_false (is_empty name) _ hn).1 in
        let n₂ = (or_eq_false (contains_any name separators) _ n₁).0 in
        let n₃ = (or_eq_false (contains name 0x2f) _ n₂).1 in
        let n₄ = (or_eq_false (contains name 0x2e) _ n₃).1 in
        let (comma, n₅) = or_eq_false (contains name 0x2c) _ n₄ in
        let same = sym (ok-injective p) in
        record {
          same = same;
          no_comma =
              ap (λ (t : Bytes). contains t 0x2c) same
              ∙ contains-append 0x2c name (0x3d ∷ value) comma
                  (or_eq_false (contains value 0x2c) _ hv).0;
          no_equals = (or_eq_false (contains name 0x3d) _ n₅).0;
        }

    by_value :
        (b : Bool)
        → bad_value value ≡ b
        → bad_name name ≡ false
        → (if b then err malformed else ok (name ++ 0x3d ∷ value)) ≡ ok text
        → Written name value text
    by_value true h hn p = absurd (err-ne-ok p)
    by_value false h hn p = good hn h p

    by_name :
        (b : Bool)
        → bad_name name ≡ b
        → (if b
            then err malformed
            else (if bad_value value then err malformed else ok (name ++ 0x3d ∷ value)))
          ≡ ok text
        → Written name value text
    by_name true h p = absurd (err-ne-ok p)
    by_name false h p = by_value (bad_value value) refl h p

pairs_of-Written :
    (name value text : Bytes) (parts : List Bytes)
    → Written name value text
    → pairs_of (text ∷ parts) ≡ (name, value) ∷ pairs_of parts
unfolding pairs_of
pairs_of-Written name value text parts w =
    ap (λ (t : Bytes). pairs_of (t ∷ parts)) w.same ∙ go name w.no_equals
  where
    go :
        (key : Bytes)
        → contains key 0x3d ≡ false
        → pairs_of ((key ++ 0x3d ∷ value) ∷ parts) ≡ (key, value) ∷ pairs_of parts
    go [] h = rw (split_once-first 0x3d [] value h)
    go (b ∷ key) h = rw (split_once-first 0x3d (b ∷ key) value h)

-- What is read back from the texts of some pairs.
Reads : Pairs → List Bytes → Type 0
Reads pairs texts = pairs_of (split 0x2c (join texts)) ≡ pairs

join-first :
    (name value text : Bytes) (pairs : Pairs) (texts : List Bytes)
    → Written name value text
    → format_pairs pairs ≡ ok texts
    → Reads pairs texts
    → Reads ((name, value) ∷ pairs) (text ∷ texts)
unfolding Reads join format_pairs pairs_of
join-first name value text [] [] w e h =
    ap pairs_of (split-one 0x2c text w.no_comma) ∙ pairs_of-Written name value text [] w
join-first name value text (p ∷ pairs) [] w e h =
    let (t, e₁, e₂) = bind-eq-ok (format_pair p) _ e in
    let (ts, e₃, e₄) = bind-eq-ok (format_pairs pairs) _ e₂ in absurd cc
join-first name value text pairs (t ∷ ts) w e h =
    ap pairs_of (split-first 0x2c text (join (t ∷ ts)) w.no_comma)
    ∙ pairs_of-Written name value text (split 0x2c (join (t ∷ ts))) w
    ∙ ap (λ (ps : Pairs). (name, value) ∷ ps) h

format_pairs-Reads :
    (pairs : Pairs) (texts : List Bytes) → format_pairs pairs ≡ ok texts → Reads pairs texts
unfolding Reads format_pairs split pairs_of join
format_pairs-Reads [] texts e =
    ap (λ (ts : List Bytes). pairs_of (split 0x2c (join ts))) (sym (ok-injective e))
format_pairs-Reads ((name, value) ∷ pairs) texts e =
    let (t, e₁, e₂) = bind-eq-ok (format_pair (name, value)) _ e in
    let (ts, e₃, e₄) = bind-eq-ok (format_pairs pairs) _ e₂ in
    ap (λ (ts : List Bytes). pairs_of (split 0x2c (join ts))) (sym (ok-injective e₄))
    ∙ join-first name value t pairs ts (format_pair-Written name value t e₁) e₃
        (format_pairs-Reads pairs ts e₃)

-- Whatever pairs `node_set_local` accepts, `parse_node_dump` reads from its message, in order.
pub parse_node_dump-node_set_local :
    (node_path : Bytes) (pairs : Pairs) (msg : OscMessage)
    → node_set_local node_path pairs ≡ ok msg
    → parse_node_dump msg ≡ ok pairs
unfolding parse_node_dump node_set_local format_node_pairs Reads
parse_node_dump-node_set_local node_path pairs msg e =
    let (u, e₁, e₂) = bind-eq-ok (validate_address_path node_path) _ e in
    let (text, e₃, e₄) = bind-eq-ok (format_node_pairs pairs) _ e₂ in
    let (texts, e₅, e₆) = bind-eq-ok (format_pairs pairs) _ e₃ in
    ap (λ (m : OscMessage). dump_of m.args) (sym (ok-injective e₄))
    ∙ ap (λ (t : Bytes). ok (pairs_of (split 0x2c t))) (sym (ok-injective e₆))
    ∙ ap ok (format_pairs-Reads pairs texts e₅)
