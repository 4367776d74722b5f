-- ===== src/Reader/Response.antt =====
-- `read` of src/console.rs: one response off the stream, with the replay after a timeout.
use libwing.Prelude.{
  ℕ, zero, suc, ◌+◌, ◌-◌, ◌*◌, Bool, true, false, Option, none, some, List, [], ◌∷◌, ◌++◌, ◌||◌,
  leb, ltb, ◌==◌, length, if◌then◌else◌,
}
use libwing.Prelude.Ints.{ℤ, pos}
use libwing.Outcome.{Error, ok, err, invalid_data, connection_error, timeout, reconnecting, io}
use libwing.NodeValue.{WingNodeData, with_i32, with_string, with_float}
use libwing.Node.Decode.{from_bytes}
use libwing.Reader.{
  Main, Poll, ReadOutcome, received, Run, blocked, done, Reader, pure, ◌>>=◌, WingResponse,
  request_end, node_def, node_data,
}
use libwing.Reader.Decode.{
  decode_next, read_bytes, read_u8, read_i8, read_u16, read_i16, read_u32, read_i32, read_f,
  read_string, lift,
}

abbrev pub max_node_def_bytes : ℕ
max_node_def_bytes = 1024 * 1024

-- What a token comes to: a response, or none where the loop goes on.
abbrev pub Step : Type 0
Step = Reader (Option WingResponse)

abbrev pub skip : Step
skip = pure none

abbrev pub value : WingNodeData → Step
value v m = done (ok (some (node_data m.current_node_id v))) m

abbrev pub select : ℤ → Step
select id m = done (ok none) (record m { current_node_id = id })

-- The length 0 stands for one that does not fit in 16 bits.
abbrev pub definition_length : ℕ → Reader ℕ
definition_length len = if len == 0 then read_u32 else pure len

abbrev pub definition : ℕ → Step
definition len =
    if ltb max_node_def_bytes len
    then lift (err invalid_data)
    else read_bytes len >>= λ raw. lift (from_bytes raw) >>= λ def. pure (some (node_def def))

-- The opcodes from 0xd0 on.
unfoldable pub high_token : ℕ → Step
high_token cmd =
    if cmd == 0xd0
    then value (with_string [])
    else if cmd == 0xd1
    then (read_u8 >>= λ len. read_string (len + 1) >>= λ v. value (with_string v))
    else if cmd == 0xd2
    then (read_u16 >>= λ _. skip)
    else if cmd == 0xd3
    then (read_i16 >>= λ v. value (with_i32 v))
    else if cmd == 0xd4
    then (read_i32 >>= λ v. value (with_i32 v))
    else if (cmd == 0xd5) || (cmd == 0xd6)
    then (read_f >>= λ v. value (with_float v))
    else if cmd == 0xd7
    then (read_i32 >>= λ id. select id)
    else if cmd == 0xd8
    then skip
    else if cmd == 0xd9
    then (read_i8 >>= λ _. skip)
    else if leb cmd 0xdd
    then skip
    else if cmd == 0xde
    then pure (some request_end)
    else if cmd == 0xdf
    then (read_u16 >>= λ len. definition_length len >>= λ n. definition n)
    else lift (err invalid_data)

unfoldable pub token : ℕ → Step
token cmd =
    if leb cmd 0x3f
    then value (with_i32 (pos cmd))
    else if leb cmd 0x7f
    then skip
    else if leb cmd 0xbf
    then (read_string (cmd - 0x80 + 1) >>= λ v. value (with_string v))
    else if leb cmd 0xcf
    then (read_bytes (cmd - 0xc0 + 1) >>= λ _. skip)
    else high_token cmd

abbrev pub arriving : ReadOutcome → ℕ
arriving (received bytes) = 2 * length bytes
arriving _ = 0

abbrev pub arriving_all : List Poll → ℕ
arriving_all [] = 0
arriving_all (p ∷ ps) = arriving p.outcome + arriving_all ps

-- No less than the number of bytes that `decode_next` can still return.
abbrev pub budget : Main → ℕ
budget m = length m.replay + length m.rx_events + 2 * length m.rx_buf + arriving_all m.polls

abbrev pub after_token : Reader WingResponse → Option WingResponse → Reader WingResponse
after_token more none = more
after_token more (some response) = pure response

-- The `loop`. Each round takes a byte, so that `budget` and one are enough.
unfoldable pub read_loop : ℕ → Reader WingResponse
read_loop zero m = blocked m
read_loop (suc fuel) m = (decode_next >>= λ cmd. token cmd >>= after_token (read_loop fuel)) m

unfoldable pub read_inner : Reader WingResponse
read_inner m = read_loop (suc (budget m)) m

-- An error that another clone's reconnect explains.
abbrev pub explained : Error → Main → Error
explained io m = if m.reconnecting then reconnecting else io
explained connection_error m = if m.reconnecting then reconnecting else connection_error
explained e m = e

abbrev pub settle : ℤ → Error → Main → Run WingResponse
settle previous_node_id timeout m = done (err timeout) (record m {
  replay = m.read_capture ++ m.replay;
  read_capture = [];
  current_node_id = previous_node_id;
})
settle previous_node_id e m = done (err (explained e m)) (record m { read_capture = [] })

abbrev pub finish_read : ℤ → Run WingResponse → Run WingResponse
finish_read previous_node_id (blocked m) = blocked m
finish_read previous_node_id (done (ok response) m) =
    done (ok response) (record m { read_capture = [] })
finish_read previous_node_id (done (err e) m) = settle previous_node_id e m

abbrev pub from_pending : List WingResponse → Reader WingResponse
from_pending (response ∷ rest) m = done (ok response) (record m { pending = rest })
from_pending [] m = finish_read m.current_node_id (read_inner (record m { read_capture = [] }))

unfoldable pub read_locked : Reader WingResponse
read_locked m =
    if m.tainted
    then done (err connection_error) m
    else if m.reconnecting
    then done (err reconnecting) m
    else from_pending m.pending m

-- `set_op_deadline` around a call.
abbrev pub set_bounded {ℓ} : {A : Type ℓ} → Bool → Run A → Run A
set_bounded b (blocked m) = blocked m
set_bounded b (done r m) = done r (record m { bounded = b })

abbrev pub with_deadline {ℓ} : {A : Type ℓ} → Reader A → Reader A
with_deadline r m = set_bounded false (r (record m { bounded = true }))

unfoldable pub read_timeout : Reader WingResponse
read_timeout = with_deadline read_locked
