-- ===== src/Osc/RoundTrip.antt =====
-- The readers of src/osc.rs on what its `push_` functions write.
use libwing.Prelude.{
  ℕ, zero, suc, ◌-◌, ◌%◌, ◌^◌, ◌<◌, ◌≡◌, refl, sym, ap, ◌∙◌, Bool, true, false, some, List, [], ◌∷◌,
  ◌++◌, append_assoc, append-nil, ◌||◌, ltb, ◌==◌, length, length-append, map, take, drop, take?,
  take?-append, take-append, drop-append, arith, All, le→ltb_false,
}
use libwing.Prelude.Ints.{ℤ, pos, as_i32, as_u32, IsI32, as_i32-as_u32, as_u32-lt}
use libwing.Prelude.BigEndian.{Bytes, u32_to_be, from_be-u32}
use libwing.Prelude.Utf8.{from_utf8, IsStr}
use libwing.Osc.{
  ok, bind, OscArg, int, float, str, blob, contains, zeros, padded, blob_padding, any_nul,
  str_with_nul, tag_of, push_arg, push_args, nul_position, read_osc_string, read_i32, read_f32,
  blob_content, read_blob, read_arg, read_args, Read,
}

-- The bytes that one string and one argument add.
abbrev pub string_form : Bytes → Bytes
string_form s = s ++ zeros (padded (length s) - length s)

abbrev pub arg_form : OscArg → Bytes
arg_form (int v) = u32_to_be (as_u32 v)
arg_form (float v) = u32_to_be v
arg_form (str v) = string_form v
arg_form (blob v) = u32_to_be (length v % 2 ^ 32) ++ (v ++ zeros (blob_padding (length v)))

unfoldable pub args_form : List OscArg → Bytes
args_form [] = []
args_form (arg ∷ args) = arg_form arg ++ args_form args

push_arg-form : (buf : Bytes) (arg : OscArg) → push_arg buf arg ≡ buf ++ arg_form arg
push_arg-form buf (int v) = refl
push_arg-form buf (float v) = refl
push_arg-form buf (str v) = append_assoc buf v _
push_arg-form buf (blob v) =
    append_assoc (buf ++ u32_to_be (length v % 2 ^ 32)) v _
    ∙ append_assoc buf (u32_to_be (length v % 2 ^ 32)) _

pub push_args-form : (buf : Bytes) (args : List OscArg) → push_args buf args ≡ buf ++ args_form args
unfolding push_args args_form
push_args-form buf [] = sym (append-nil buf)
push_args-form buf (arg ∷ args) =
    ap (λ (t : Bytes). push_args t args) (push_arg-form buf arg)
    ∙ push_args-form (buf ++ arg_form arg) args
    ∙ append_assoc buf (arg_form arg) (args_form args)

length-zeros : (n : ℕ) → length (zeros n) ≡ n
unfolding zeros
length-zeros zero = refl
length-zeros (suc n) = ap suc (length-zeros n)

pub or_eq_false : (a b : Bool) → (a || b) ≡ false → (a ≡ false) × (b ≡ false)
or_eq_false true b h = absurd cc
or_eq_false false b h = (refl, h)

-- The first NUL is the terminator.
nul_position-string :
    (s rest : Bytes) → contains s 0 ≡ false → nul_position (s ++ 0 ∷ rest) ≡ some (length s)
unfolding contains nul_position
nul_position-string [] rest h = refl
nul_position-string (b ∷ s) rest h = rw (
  (or_eq_false (b == 0) (contains s 0) h).0,
  nul_position-string s rest (or_eq_false (b == 0) (contains s 0) h).1,
)

padding : (n : ℕ) → (k : ℕ) × (padded n - n ≡ suc k)
padding n = (padded n - n - 1, omega arith)

pub read_osc_string-form :
    (s rest : Bytes)
    → contains s 0 ≡ false
    → IsStr s
    → read_osc_string (string_form s ++ rest) ≡ ok (s, rest)
unfolding read_osc_string from_utf8 zeros
read_osc_string-form s rest h hs = rw (found, cut, hs, enough, dropped)
  where
    bytes : Bytes
    bytes = string_form s ++ rest

    formed : bytes ≡ s ++ 0 ∷ (zeros ((padding (length s)).0) ++ rest)
    formed =
        append_assoc s (zeros (padded (length s) - length s)) rest
        ∙ ap (λ n. s ++ (zeros n ++ rest)) ((padding (length s)).1)

    found : nul_position bytes ≡ some (length s)
    found =
        ap nul_position formed ∙ nul_position-string s (zeros ((padding (length s)).0) ++ rest) h

    cut : take (length s) bytes ≡ s
    cut = ap (take (length s)) formed ∙ take-append s (0 ∷ (zeros ((padding (length s)).0) ++ rest))

    size : length (string_form s) ≡ padded (length s)
    size = omega (
      arith,
      length-append s (zeros (padded (length s) - length s)),
      length-zeros (padded (length s) - length s),
    )

    enough : ltb (length bytes) (padded (length s)) ≡ false
    enough =
        le→ltb_false (length bytes) (padded (length s))
          (omega (arith, size, length-append (string_form s) rest))

    dropped : drop (padded (length s)) bytes ≡ rest
    dropped = ap (λ n. drop n bytes) (sym size) ∙ drop-append (string_form s) rest

-- What the Rust types guarantee of an argument.
abbrev pub IsArg : OscArg → Type 0
IsArg (int v) = IsI32 v
IsArg (float v) = v < 2 ^ 32
IsArg (str v) = IsStr v
IsArg (blob v) = Unit

read_word :
    (n : ℕ) (rest : Bytes)
    → (take? 4 (u32_to_be n ++ rest) ≡ some (u32_to_be n)) × (drop 4 (u32_to_be n ++ rest) ≡ rest)
read_word n rest = (take?-append (u32_to_be n) rest, drop-append (u32_to_be n) rest)

read_i32-word :
    (v : ℤ) (rest : Bytes) → IsI32 v → read_i32 (u32_to_be (as_u32 v) ++ rest) ≡ ok (v, rest)
unfolding read_i32
read_i32-word v rest h =
    ap (λ n. ok (as_i32 n, rest)) (from_be-u32 (as_u32 v) (as_u32-lt v h))
    ∙ ap (λ w. ok (w, rest)) (as_i32-as_u32 v h)

read_f32-word : (v : ℕ) (rest : Bytes) → v < 2 ^ 32 → read_f32 (u32_to_be v ++ rest) ≡ ok (v, rest)
unfolding read_f32
read_f32-word v rest h = ap (λ n. ok (n, rest)) (from_be-u32 v h)

blob_content-form :
    (v rest : Bytes)
    → blob_content (pos (length v)) (v ++ (zeros (blob_padding (length v)) ++ rest)) ≡ ok (v, rest)
blob_content-form v rest =
    rw (take?-append v padded_rest, drop-append v padded_rest, enough)
      (ap (λ (t : Bytes). ok (v, t)) dropped)
  where
    padded_rest : Bytes
    padded_rest = zeros (blob_padding (length v)) ++ rest

    enough : ltb (length padded_rest) (blob_padding (length v)) ≡ false
    enough = le→ltb_false (length padded_rest) (blob_padding (length v)) (
        omega (
          arith,
          length-append (zeros (blob_padding (length v))) rest,
          length-zeros (blob_padding (length v)),
        ))

    dropped : drop (blob_padding (length v)) padded_rest ≡ rest
    dropped =
        ap (λ n. drop n padded_rest) (sym (length-zeros (blob_padding (length v))))
        ∙ drop-append (zeros (blob_padding (length v))) rest

read_blob-form :
    (v rest : Bytes) → length v < 2 ^ 31 → read_blob (arg_form (blob v) ++ rest) ≡ ok (v, rest)
unfolding read_blob
read_blob-form v rest h =
    ap read_blob shape
    ∙ ap (λ (r : Read ℤ). bind r (λ (size, rest'). blob_content size rest')) word
    ∙ blob_content-form v rest
  where
    tail : Bytes
    tail = v ++ (zeros (blob_padding (length v)) ++ rest)

    same : length v % 2 ^ 32 ≡ length v
    same = omega arith

    shape : arg_form (blob v) ++ rest ≡ u32_to_be (as_u32 (pos (length v))) ++ tail
    shape =
        append_assoc (u32_to_be (length v % 2 ^ 32)) (v ++ zeros (blob_padding (length v))) rest
        ∙ ap (λ n. u32_to_be n ++ ((v ++ zeros (blob_padding (length v))) ++ rest)) same
        ∙ ap (λ (t : Bytes). u32_to_be (length v) ++ t)
            (append_assoc v (zeros (blob_padding (length v))) rest)

    word : read_i32 (u32_to_be (as_u32 (pos (length v))) ++ tail) ≡ ok (pos (length v), tail)
    word = read_i32-word (pos (length v)) tail h

read_arg-form :
    (arg : OscArg) (rest : Bytes)
    → IsArg arg
    → str_with_nul arg ≡ false
    → length (arg_form arg) < 2 ^ 31
    → read_arg (tag_of arg) (arg_form arg ++ rest) ≡ ok (arg, rest)
unfolding read_arg
read_arg-form (int v) rest h n l = rw (read_i32-word v rest h)
read_arg-form (float v) rest h n l = rw (read_f32-word v rest h)
read_arg-form (str v) rest h n l = rw (read_osc_string-form v rest n h)
read_arg-form (blob v) rest h n l = rw (
    read_blob-form v rest (
      omega (
        arith,
        l,
        length-append (u32_to_be (length v % 2 ^ 32)) (v ++ zeros (blob_padding (length v))),
        length-append v (zeros (blob_padding (length v))),
      )))

pub read_args-form :
    (args : List OscArg)
    → All IsArg args
    → any_nul args ≡ false
    → length (args_form args) < 2 ^ 31
    → read_args (map tag_of args) (args_form args) ≡ ok (args, [])
unfolding read_args args_form any_nul
read_args-form [] h n l = refl
read_args-form (arg ∷ args) (ha, hs) n l =
    let (n₁, n₂) = or_eq_false (str_with_nul arg) (any_nul args) n in
    rw (
      read_arg-form arg (args_form args) ha n₁
          (omega (arith, l, length-append (arg_form arg) (args_form args))),
      read_args-form args hs n₂ (omega (arith, l, length-append (arg_form arg) (args_form args))),
    )
