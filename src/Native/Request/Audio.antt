-- ===== src/Native/Request/Audio.antt =====
-- `parse_audio` of src/native.rs and its helpers: one token of the Audio Engine channel.
pub mod Token
pub mod Path
pub mod Rules
pub mod Step
pub mod Loop
pub mod Prefix
pub mod Encoded
use libwing.Prelude.{
  ℕ, zero, suc, ◌+◌, ◌-◌, ◌≤◌, ◌<◌, Bool, Option, none, some, List, [], ◌∷◌, ◌++◌, ◌&&◌, ltb, leb,
  ◌==◌, if◌then◌else◌, length, take, drop, take?, usize_max,
}
use libwing.Prelude.Ints.{ℤ, pos, as_i8, as_i16, as_i32}
use libwing.Prelude.BigEndian.{Bytes, from_be}
use libwing.Prelude.Utf8.{from_utf8}
use libwing.Outcome.{Result, ok, err, invalid_data, ok_or, Exec, continue, and_then}
use libwing.Native.Value.{NativeValue, integer, float, raw_float, string}
use libwing.Native.Request.{
  NativeLimits, PathElement, name, index, NativeRequest, NativeRequestDecoder, get, definition, set,
  toggle, step, bulk_data, bulk_definition, unknown,
}

-- What one pass through the body of `parse_audio` comes to: `Ok(None)`, the tail call
-- `return self.parse_audio()`, or `Ok(Some(request))`.
pub data AudioStep : Type 0 where
  wait again : AudioStep
  request : NativeRequest → AudioStep

-- `self.audio.drain(..n)`.
abbrev pub drain : ℕ → NativeRequestDecoder → NativeRequestDecoder
drain n d = record d { audio = drop n d.audio }

abbrev pub Step : Type 0
Step = Exec NativeRequestDecoder AudioStep

abbrev pub set_value : ℕ → NativeValue → Step
set_value used value d =
    and_then (ok_or invalid_data d.selected_id, d)
      (λ id s. (ok (request (set id value)), drain used s))

abbrev pub parse_string_token : ℕ → ℕ → Step
parse_string_token len header d =
    if ltb d.limits.max_string_bytes len
    then (err invalid_data, d)
    else and_then (ok_or invalid_data (from_utf8 (take len (drop header d.audio))), d)
        (λ value. set_value (header + len) (string value))

-- `checked_add` on usize, and the two limits.
abbrev pub path_room : ℕ → NativeRequestDecoder → Bool
path_room name_bytes d =
    ltb (length d.path) d.limits.max_path_elements
    && (leb (d.path_bytes + name_bytes) usize_max
        && leb (d.path_bytes + name_bytes) d.limits.max_path_bytes)

abbrev pub push_path_index : ℕ → ℕ → Step
push_path_index used i d =
    if path_room 0 d
    then (ok again, drain used (record d { path = d.path ++ index i ∷ [] }))
    else (err invalid_data, d)

abbrev pub push_path_name : ℕ → Step
push_path_name len d =
    if path_room len d
    then and_then (ok_or invalid_data (from_utf8 (take len (drop 1 d.audio))), d)
        (λ value s. (
          ok again,
          drain (len + 1)
              (record s { path_bytes = s.path_bytes + len; path = s.path ++ name value ∷ [] }),
        ))
    else (err invalid_data, d)

-- `Vec::pop`.
abbrev pub pop : List PathElement → Option PathElement × List PathElement
pop [] = (none, [])
pop (x ∷ []) = (some x, [])
pop (x ∷ y ∷ rest) = let (last, front) = pop (y ∷ rest) in (last, x ∷ front)

abbrev pub popped_bytes : Option PathElement → ℕ
popped_bytes (some (name n)) = length n
popped_bytes _ = 0

abbrev pub path_up : Step
path_up d =
    let (last, front) = pop d.path in
    (
      ok again,
      drain 1 (record d {
        selected_id = none;
        path = front;
        path_bytes = d.path_bytes - popped_bytes last;
      }),
    )

abbrev pub query : ℕ → Option ℤ → List PathElement → NativeRequest
query opcode (some id) path = if opcode == 0xdc then get id else definition id
query opcode none path = if opcode == 0xdc then bulk_data path else bulk_definition path

-- Tokens whose operand has a fixed number of bytes: `None` is `Ok(None)`.
abbrev pub with_operand : Option Bytes → (Bytes → Step) → Step
with_operand none f d = (ok wait, d)
with_operand (some bytes) f d = f bytes d

abbrev pub select_id : Bytes → Step
select_id bytes d = (ok again, drain 5 (record d { selected_id = some (as_i32 (from_be bytes)) }))

-- The opcodes 0x00..=0xcf, but for the operand that a string or a name still waits for.
unfoldable pub low_token : ℕ → Step
low_token op d =
    if leb op 0x3f
    then set_value 1 (integer (pos op)) d
    else if leb op 0x7f
    then push_path_index 1 (op - 0x3f) d
    else if leb op 0xbf
    then (if ltb (length d.audio) (op - 0x7f + 1)
        then (ok wait, d)
        else parse_string_token (op - 0x7f) 1 d)
    else if ltb (length d.audio) (op - 0xbf + 1)
    then (ok wait, d)
    else push_path_name (op - 0xbf) d

abbrev pub long_string : ℕ → Step
long_string encoded_len d =
    if ltb (length d.audio) (encoded_len + 1 + 2)
    then (ok wait, d)
    else parse_string_token (encoded_len + 1) 2 d

abbrev pub float_value : ℕ → ℕ → NativeValue
float_value op bits = if op == 0xd5 then float bits else raw_float bits

-- The opcodes 0xd0..=0xd6.
unfoldable pub value_token : ℕ → Bytes → Step
value_token op rest d =
    if op == 0xd0
    then set_value 1 (string []) d
    else if op == 0xd1
    then with_operand (take? 1 rest) (λ bytes. long_string (from_be bytes)) d
    else if op == 0xd2
    then with_operand (take? 2 rest) (λ bytes. push_path_index 3 (from_be bytes + 1)) d
    else if op == 0xd3
    then with_operand (take? 2 rest) (λ bytes. set_value 3 (integer (as_i16 (from_be bytes)))) d
    else if op == 0xd4
    then with_operand (take? 4 rest) (λ bytes. set_value 5 (integer (as_i32 (from_be bytes)))) d
    else with_operand (take? 4 rest) (λ bytes. set_value 5 (float_value op (from_be bytes))) d

-- The opcodes 0xd8..=0xff.
unfoldable pub command_token : ℕ → Bytes → Step
command_token op rest d =
    if op == 0xd8
    then and_then (ok_or invalid_data d.selected_id, d)
        (λ id s. (ok (request (toggle id)), drain 1 s))
    else if op == 0xd9
    then with_operand (take? 1 rest)
        (λ bytes s.
          and_then (ok_or invalid_data s.selected_id, s)
            (λ id t. (ok (request (step id (as_i8 (from_be bytes)))), drain 2 t)))
        d
    else if op == 0xda
    then (ok again, drain 1 (record d { selected_id = none; path = []; path_bytes = 0 }))
    else if op == 0xdb
    then path_up d
    else if op == 0xdc
    then (ok (request (query op d.selected_id d.path)), drain 1 d)
    else if op == 0xdd
    then (ok (request (query op d.selected_id d.path)), drain 1 d)
    else (ok (request (unknown 1 op)), drain 1 d)

-- The `match` of `parse_audio`: `rest` is `audio[1..]`.
unfoldable pub audio_token : ℕ → Bytes → Step
unfolding low_token value_token command_token
audio_token op rest d =
    if op == 0xd7
    then with_operand (take? 4 rest) select_id d
    else if leb op 0xcf
    then low_token op d
    else if leb op 0xd6
    then value_token op rest d
    else command_token op rest d

abbrev audio_first : Bytes → Step
audio_first [] d = (ok wait, d)
audio_first (op ∷ rest) d = audio_token op rest d

unfoldable pub audio_step : Step
unfolding audio_token
audio_step d = audio_first d.audio d

-- The three ways on from a pass; `more` is the tail call.
abbrev pub after_step :
    Exec NativeRequestDecoder (Option NativeRequest)
    → AudioStep
    → Exec NativeRequestDecoder (Option NativeRequest)
after_step more wait s = (ok none, s)
after_step more again s = more s
after_step more (request r) s = (ok (some r), s)

-- The tail calls. Each takes a byte at least, so `length audio` passes are enough; with no byte
-- left the answer is `Ok(None)`.
unfoldable pub parse_audio_loop : ℕ → Exec NativeRequestDecoder (Option NativeRequest)
parse_audio_loop zero d = (ok none, d)
parse_audio_loop (suc fuel) d = and_then (audio_step d) (after_step (parse_audio_loop fuel))

unfoldable pub parse_audio : Exec NativeRequestDecoder (Option NativeRequest)
unfolding parse_audio_loop
parse_audio d = parse_audio_loop (length d.audio) d
