-- ===== src/Osc.antt =====
-- src/osc.rs: messages, `encode` and `decode`. A String is its UTF-8 bytes, an f32 its bit pattern, the
-- cursor `i` of `decode` the list of the bytes from `i` on.
pub mod RoundTrip
pub mod Encoded
pub mod Requests
pub mod Replies
pub mod Events
pub mod Classified
pub mod Pairs
pub mod Matching
pub mod ReplyPort
pub mod Client
pub mod Subscription
pub mod Retries
pub mod Renewals
pub mod Unsolicited
use libwing.Prelude.{
  ℕ, zero, suc, ◌+◌, ◌-◌, ◌*◌, ◌/◌, ◌%◌, ◌^◌, Bool, true, false, Option, none, some, List, [], ◌∷◌,
  ◌++◌, ◌||◌, ltb, leb, ◌==◌, length, map, take, drop, take?, if◌then◌else◌,
}
use libwing.Prelude.Ints.{ℤ, pos, negsuc, as_i32, as_u32}
use libwing.Prelude.BigEndian.{Bytes, u32_to_be, from_be}
use libwing.Prelude.Utf8.{from_utf8}

pub data OscNodeError : Type 0 where
  node_not_found value_error buffer_overflow node_is_not_par incomplete_data stack_empty :
      OscNodeError

-- The text of `Malformed` is left out.
pub data OscError : Type 0 where
  io malformed timeout : OscError
  too_large retries_exhausted : ℕ → OscError
  node : OscNodeError → OscError

pub data Result {ℓ} (A : Type ℓ) : Type ℓ where
  ok : A → Result A
  err : OscError → Result A

abbrev pub bind {ℓ κ} : {A : Type ℓ} {B : Type κ} → Result A → (A → Result B) → Result B
bind (ok a) f = f a
bind (err e) f = err e

-- `ok_or(OscError::Malformed(..))`.
abbrev pub or_malformed {ℓ} : {A : Type ℓ} → Option A → Result A
or_malformed none = err malformed
or_malformed (some a) = ok a

pub data OscArg : Type 0 where
  int : ℤ → OscArg
  float : ℕ → OscArg
  str blob : Bytes → OscArg

pub record OscMessage : Type 0 where
  pub addr : Bytes
  pub args : List OscArg

abbrev pub max_packet_bytes : ℕ
max_packet_bytes = 32 * 1024

-- `contains(&0)` on bytes, and what a list of characters has to do with a string.
unfoldable pub contains : Bytes → ℕ → Bool
contains [] c = false
contains (b ∷ bs) c = (b == c) || contains bs c

unfoldable pub zeros : ℕ → Bytes
zeros zero = []
zeros (suc n) = 0 ∷ zeros n

-- `(n + 1).div_ceil(4) * 4`, and the padding of a blob.
abbrev pub padded : ℕ → ℕ
padded n = (n + 1 + 3) / 4 * 4

abbrev pub blob_padding : ℕ → ℕ
blob_padding n = (4 - n % 4) % 4

abbrev pub push_osc_string : Bytes → Bytes → Bytes
push_osc_string buf s = (buf ++ s) ++ zeros (padded (length s) - length s)

abbrev pub push_osc_blob : Bytes → Bytes → Bytes
push_osc_blob buf content =
    ((buf ++ u32_to_be (length content % 2 ^ 32)) ++ content)
    ++ zeros (blob_padding (length content))

abbrev pub str_with_nul : OscArg → Bool
str_with_nul (str value) = contains value 0
str_with_nul _ = false

unfoldable pub any_nul : List OscArg → Bool
any_nul [] = false
any_nul (arg ∷ args) = str_with_nul arg || any_nul args

-- 'i', 'f', 's' and 'b'.
abbrev pub tag_of : OscArg → ℕ
tag_of (int v) = 0x69
tag_of (float v) = 0x66
tag_of (str v) = 0x73
tag_of (blob v) = 0x62

abbrev pub push_arg : Bytes → OscArg → Bytes
push_arg buf (int v) = buf ++ u32_to_be (as_u32 v)
push_arg buf (float v) = buf ++ u32_to_be v
push_arg buf (str v) = push_osc_string buf v
push_arg buf (blob v) = push_osc_blob buf v

unfoldable pub push_args : Bytes → List OscArg → Bytes
push_args buf [] = buf
push_args buf (arg ∷ args) = push_args (push_arg buf arg) args

-- A message without arguments has no tag string.
unfoldable pub encode_args : Bytes → List OscArg → Bytes
encode_args buf [] = buf
encode_args buf (arg ∷ args) =
    push_args (push_osc_string buf (0x2c ∷ map tag_of (arg ∷ args))) (arg ∷ args)

unfoldable pub encode : OscMessage → Result Bytes
encode msg =
    if contains msg.addr 0 || any_nul msg.args
    then err malformed
    else (let buf = encode_args (push_osc_string [] msg.addr) msg.args in
        if ltb max_packet_bytes (length buf) then err (too_large (length buf)) else ok buf)

-- `position(|&b| b == 0)`.
abbrev pub next_position : Option ℕ → Option ℕ
next_position none = none
next_position (some n) = some (suc n)

unfoldable pub nul_position : Bytes → Option ℕ
nul_position [] = none
nul_position (b ∷ bs) = if b == 0 then some 0 else next_position (nul_position bs)

abbrev pub Read {ℓ} : Type ℓ → Type ℓ
Read A = Result (A × Bytes)

unfoldable pub read_osc_string : Bytes → Read Bytes
read_osc_string bytes = bind (or_malformed (nul_position bytes)) (λ nul.
    bind (or_malformed (from_utf8 (take nul bytes))) (λ s.
      if ltb (length bytes) (padded nul) then err malformed else ok (s, drop (padded nul) bytes)))

unfoldable pub read_i32 : Bytes → Read ℤ
read_i32 bytes =
    bind (or_malformed (take? 4 bytes)) (λ chunk. ok (as_i32 (from_be chunk), drop 4 bytes))

unfoldable pub read_f32 : Bytes → Read ℕ
read_f32 bytes = bind (or_malformed (take? 4 bytes)) (λ chunk. ok (from_be chunk, drop 4 bytes))

-- The bytes after the length.
abbrev pub blob_content : ℤ → Bytes → Read Bytes
blob_content (negsuc n) bytes = err malformed
blob_content (pos size) bytes = bind (or_malformed (take? size bytes)) (λ content.
    if ltb (length (drop size bytes)) (blob_padding size)
    then err malformed
    else ok (content, drop (blob_padding size) (drop size bytes)))

unfoldable pub read_blob : Bytes → Read Bytes
read_blob bytes = bind (read_i32 bytes) (λ (size, rest). blob_content size rest)

abbrev pub arg_with {ℓ} : {A : Type ℓ} → (A → OscArg) → Read A → Read OscArg
arg_with f (ok (a, rest)) = ok (f a, rest)
arg_with f (err e) = err e

unfoldable pub read_arg : ℕ → Bytes → Read OscArg
read_arg tag bytes =
    if tag == 0x69
    then arg_with int (read_i32 bytes)
    else if tag == 0x66
    then arg_with float (read_f32 bytes)
    else if tag == 0x73
    then arg_with str (read_osc_string bytes)
    else if tag == 0x62
    then arg_with blob (read_blob bytes)
    else err malformed

-- A character above 0x7f is no tag, and neither is the first of its bytes.
unfoldable pub read_args : Bytes → Bytes → Read (List OscArg)
read_args [] bytes = ok ([], bytes)
read_args (tag ∷ tags) bytes =
    bind (read_arg tag bytes)
      (λ (arg, rest). bind (read_args tags rest) (λ (args, rest'). ok (arg ∷ args, rest')))

abbrev pub finish_decode : Bytes → List OscArg × Bytes → Result OscMessage
finish_decode addr (args, []) = ok (record { addr = addr; args = args })
finish_decode addr (args, b ∷ bytes) = err malformed

abbrev pub decode_tagged : Bytes → Bytes × Bytes → Result OscMessage
decode_tagged addr ([], bytes) = err malformed
decode_tagged addr (c ∷ tags, bytes) =
    if c == 0x2c then bind (read_args tags bytes) (finish_decode addr) else err malformed

abbrev pub decode_rest : Bytes → Bytes → Result OscMessage
decode_rest addr [] = ok (record { addr = addr; args = [] })
decode_rest addr (b ∷ bytes) = bind (read_osc_string (b ∷ bytes)) (decode_tagged addr)

abbrev pub starts_with : Bytes → ℕ → Bool
starts_with [] c = false
starts_with (b ∷ bs) c = b == c

unfoldable pub decode : Bytes → Result OscMessage
decode bytes =
    bind (read_osc_string bytes)
      (λ (addr, rest). if starts_with addr 0x2f then decode_rest addr rest else err malformed)
