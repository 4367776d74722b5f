-- ===== src/Osc/Matching.antt =====
-- Which messages of src/osc.rs are equal, relative writes or replies to a request.
use libwing.Prelude.{
  ℕ, suc, ◌+◌, ◌-◌, ◌*◌, ◌%◌, ◌^◌, Bool, true, false, not, Option, none, some, List, [], ◌∷◌, ◌||◌,
  ◌&&◌, ltb, leb, ◌==◌, length, take, drop, if◌then◌else◌,
}
use libwing.Prelude.Ints.{ℤ, negsuc, int_eq, as_i32}
use libwing.Prelude.BigEndian.{Bytes}
use libwing.Osc.{OscArg, int, float, str, blob, OscMessage, starts_with}
use libwing.Osc.Requests.{bytes_eq}
use libwing.Osc.Replies.{ends_with}

-- `==` of f32 and of messages.
abbrev pub is_nan : ℕ → Bool
is_nan bits = ltb 0x7f80_0000 (bits % 2 ^ 31)

abbrev pub float_eq : ℕ → ℕ → Bool
float_eq a b =
    not (is_nan a) && (not (is_nan b) && ((a == b) || ((a % 2 ^ 31 == 0) && (b % 2 ^ 31 == 0))))

abbrev pub arg_eq : OscArg → OscArg → Bool
arg_eq (int a) (int b) = int_eq a b
arg_eq (float a) (float b) = float_eq a b
arg_eq (str a) (str b) = bytes_eq a b
arg_eq (blob a) (blob b) = bytes_eq a b
arg_eq _ _ = false

unfoldable pub args_eq : List OscArg → List OscArg → Bool
args_eq [] [] = true
args_eq (a ∷ x) (b ∷ y) = arg_eq a b && args_eq x y
args_eq _ _ = false

abbrev pub message_eq : OscMessage → OscMessage → Bool
message_eq a b = bytes_eq a.addr b.addr && args_eq a.args b.args

abbrev pub is_relative : List OscArg → Bool
is_relative (int v ∷ []) = int_eq v (negsuc 0)
is_relative _ = false

abbrev pub is_relative_write : OscMessage → Bool
is_relative_write msg = is_relative msg.args

unfoldable pub strip_prefix : Bytes → Bytes → Option Bytes
strip_prefix [] s = some s
strip_prefix (c ∷ cs) [] = none
strip_prefix (c ∷ cs) (b ∷ bs) = let rest = strip_prefix cs bs in if c == b then rest else none

-- The digits at the start, counted, and what follows them.
abbrev pub is_digit : ℕ → Bool
is_digit b = leb 0x30 b && leb b 0x39

unfoldable pub digits : Bytes → ℕ
digits [] = 0
digits (b ∷ bs) = let rest = digits bs in if is_digit b then suc rest else 0

abbrev pub after_port : Bytes → Option Bytes → Bytes
after_port addr none = addr
after_port addr (some rest) =
    if ltb 0 (digits rest) && starts_with (drop (digits rest) rest) 0x2f
    then drop (digits rest) rest
    else addr

unfoldable pub strip_reply_port : Bytes → Bytes
strip_reply_port addr = after_port addr (strip_prefix (0x2f ∷ 0x25 ∷ []) addr)

-- `u32::from_str_radix(hex, 16)`.
abbrev pub hex_value : ℕ → Option ℕ
hex_value b =
    if is_digit b
    then some (b - 0x30)
    else if leb 0x61 b && leb b 0x66
    then some (b - 0x57)
    else if leb 0x41 b && leb b 0x46
    then some (b - 0x37)
    else none

abbrev pub hex_step : ℕ → Option ℕ → Option ℕ
hex_step acc none = none
hex_step acc (some d) = if ltb (acc * 16 + d) (2 ^ 32) then some (acc * 16 + d) else none

abbrev pub hex_next : Option ℕ → (ℕ → Option ℕ) → Option ℕ
hex_next none more = none
hex_next (some acc) more = more acc

unfoldable pub hex_digits : Bytes → ℕ → Option ℕ
hex_digits [] acc = some acc
hex_digits (b ∷ bs) acc = hex_next (hex_step acc (hex_value b)) (hex_digits bs)

abbrev pub parse_hex : Bytes → Option ℕ
parse_hex [] = none
parse_hex (b ∷ []) = hex_digits (b ∷ []) 0
parse_hex (b ∷ c ∷ bs) = if b == 0x2b then hex_digits (c ∷ bs) 0 else hex_digits (b ∷ c ∷ bs) 0

unfoldable pub any_eq : Bytes → List Bytes → Bool
any_eq reply [] = false
any_eq reply (name ∷ names) = bytes_eq name reply || any_eq reply names

-- `names` is `id_to_defs_iter`, the property map's names of an id.
abbrev pub named : (ℤ → List Bytes) → Bytes → Option ℕ → Bool
named names reply none = false
named names reply (some id) = any_eq reply (names (as_i32 id))

abbrev pub hashed : (ℤ → List Bytes) → Bytes → Option Bytes → Bool
hashed names reply none = false
hashed names reply (some hex) = named names reply (parse_hex hex)

abbrev pub strip_ack : Bytes → Bytes
strip_ack reply = if ends_with reply 0x2a then take (length reply - 1) reply else reply

unfoldable pub reply_matches : (ℤ → List Bytes) → Bytes → Bytes → Bool
reply_matches names request reply =
    bytes_eq (strip_ack reply) (strip_reply_port request)
    || hashed names (strip_ack reply) (strip_prefix (0x2f ∷ 0x23 ∷ []) (strip_reply_port request))
