-- ===== src/Native/Request/Audio/Token.antt =====
-- How many bytes the token at the front of the audio buffer has, and that one pass of `parse_audio`
-- waits for exactly these and takes exactly these.
use libwing.Prelude.{
  List, ℕ, ◌+◌, ◌-◌, ◌≤◌, ◌<◌, ◌≡◌, [], ◌∷◌, leb, ◌==◌, if◌then◌else◌, length, drop,
}
use libwing.Prelude.BigEndian.{Bytes}
use libwing.Outcome.{Result, ok, err}
use libwing.Native.Request.{index, name, PathElement, NativeLimits, NativeRequestDecoder}
use libwing.Native.Request.Audio.{AudioStep, wait, again, request}

abbrev pub long_len : Bytes → ℕ
long_len [] = 2
long_len (l ∷ _) = l + 3

unfoldable pub op_len : ℕ → Bytes → ℕ
op_len op rest =
    if op == 0xd7
    then 5
    else if leb op 0x7f
    then 1
    else if leb op 0xbf
    then op - 0x7f + 1
    else if leb op 0xcf
    then op - 0xbf + 1
    else if op == 0xd0
    then 1
    else if op == 0xd1
    then long_len rest
    else if leb op 0xd3
    then 3
    else if leb op 0xd6
    then 5
    else if op == 0xd9
    then 2
    else 1

-- The length of the token that starts with these bytes; of nothing, 1.
abbrev pub token_len : Bytes → ℕ
token_len [] = 1
token_len (op ∷ rest) = op_len op rest

-- The bytes of the names on a path.
unfoldable pub name_bytes : List PathElement → ℕ
name_bytes [] = 0
name_bytes (name n ∷ path) = length n + name_bytes path
name_bytes (index i ∷ path) = name_bytes path

-- The path is within the limits, and `path_bytes` counts the bytes of its names.
pub record PathFits (limits : NativeLimits) (path : List PathElement) (bytes : ℕ) : Type 0 where
  pub counted : bytes ≡ name_bytes path
  pub elements : length path ≤ limits.max_path_elements
  pub within : bytes ≤ limits.max_path_bytes

abbrev pub PathOk : NativeRequestDecoder → Type 0
PathOk d = PathFits d.limits d.path d.path_bytes

-- What a pass may change: the audio buffer, of which the token is taken, the selection, the path.
pub record Framed (need : ℕ) (d s : NativeRequestDecoder) : Type 0 where
  pub complete : need ≤ length d.audio
  pub audio : s.audio ≡ drop need d.audio
  pub limits : s.limits ≡ d.limits
  pub meter : s.meter ≡ d.meter
  pub channels : s.channels ≡ d.channels
  pub path : PathOk d → PathOk s

abbrev pub Outcome : ℕ → NativeRequestDecoder → Result AudioStep × NativeRequestDecoder → Type 0
Outcome need d (ok wait, s) = (s ≡ d) × (length d.audio < need)
Outcome need d (ok again, s) = Framed need d s
Outcome need d (ok (request r), s) = Framed need d s
Outcome need d (err e, s) = (need ≤ length d.audio) × (s.limits ≡ d.limits)
