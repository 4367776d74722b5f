-- ===== src/Reader/Timeout.antt =====
-- `read` of src/console.rs and a deadline that passes: nothing of the stream is lost.
use libwing.Prelude.{
  if◌then◌else◌, ◌≢◌, ◌||◌, ◌-◌, ◌+◌, zero, leb, ltb, ◌==◌, suc, ℕ, ◌≡◌, refl, sym, ap, ◌∙◌, inl,
  inr, Bool, true, false, Option, none, some, List, [], ◌∷◌, ◌++◌, append_assoc,
}
use libwing.Reader.{
  request_end, node_def, WingResponse, pure, ◌>>=◌, Reader, Main, Run, blocked, done,
}
use libwing.Outcome.{
  connection_error, reconnecting, io, timeout, ok, ok_or, invalid_data, err, Result, Error,
}
use libwing.Reader.Backlog.{
  arrived, audio, queued, backlog, Kept-trans, Conserves, Kept, bind-Keeps, Keeps,
}
use libwing.Reader.Decode.{
  read_string, lift, read_i32, read_u16, decode_next, read_u8, read_f, read_u32, read_i16, read_i8,
  read_bytes,
}
use libwing.NodeValue.{with_float, with_i32, with_string, WingNodeData}
use libwing.Prelude.Ints.{pos, as_i32, as_i16, as_i8, ℤ}
use libwing.Reader.Response.{
  skip, read_locked, from_pending, finish_read, max_node_def_bytes, budget, after_token, token,
  high_token, definition, definition_length, select, value, read_inner, read_loop,
}
use libwing.Prelude.BigEndian.{Bytes, from_be}
use libwing.Reader.Waits.{decode_next-Keeps}
use libwing.Reader.Kept.{if-Keeps}
use libwing.Prelude.Utf8.{from_utf8}
use libwing.Node.Decode.{from_bytes}
use libwing.Node.{WingNodeDef}
use mathlib.Core.Path.{subst}

pure-Keeps {ℓ} : {A : Type ℓ} (a : A) → Keeps (pure a)
pure-Keeps a m = (refl, refl)

lift-Keeps {ℓ} : {A : Type ℓ} (r : Result A) → Keeps (lift r)
lift-Keeps (ok a) m = (refl, refl)
lift-Keeps (err e) m = inr (refl, refl)

read_bytes-Keeps : (n : ℕ) → Keeps (read_bytes n)
unfolding read_bytes
read_bytes-Keeps zero = pure-Keeps {A = Bytes} []
read_bytes-Keeps (suc n) =
    bind-Keeps decode_next _ decode_next-Keeps (λ byte.
      bind-Keeps (read_bytes n) _ (read_bytes-Keeps n) (λ bytes. pure-Keeps (byte ∷ bytes)))

map-Keeps {ℓ κ} :
    {A : Type ℓ} {B : Type κ} (r : Reader A) (f : A → B) → Keeps r → Keeps (r >>= λ a. pure (f a))
map-Keeps r f h = bind-Keeps r _ h (λ a. pure-Keeps (f a))

read_u8-Keeps : Keeps read_u8
unfolding read_u8
read_u8-Keeps = decode_next-Keeps

read_i8-Keeps : Keeps read_i8
unfolding read_i8
read_i8-Keeps = map-Keeps decode_next as_i8 decode_next-Keeps

read_u16-Keeps : Keeps read_u16
unfolding read_u16
read_u16-Keeps = map-Keeps (read_bytes 2) from_be (read_bytes-Keeps 2)

read_i16-Keeps : Keeps read_i16
unfolding read_i16
read_i16-Keeps = map-Keeps read_u16 as_i16 read_u16-Keeps

read_u32-Keeps : Keeps read_u32
unfolding read_u32
read_u32-Keeps = map-Keeps (read_bytes 4) from_be (read_bytes-Keeps 4)

read_i32-Keeps : Keeps read_i32
unfolding read_i32
read_i32-Keeps = map-Keeps read_u32 as_i32 read_u32-Keeps

read_f-Keeps : Keeps read_f
unfolding read_f
read_f-Keeps = map-Keeps (read_bytes 4) from_be (read_bytes-Keeps 4)

read_string-Keeps : (len : ℕ) → Keeps (read_string len)
unfolding read_string
read_string-Keeps len =
    bind-Keeps (read_bytes len) _ (read_bytes-Keeps len)
      (λ bytes. lift-Keeps (ok_or invalid_data (from_utf8 bytes)))

value-Keeps : (v : WingNodeData) → Keeps (value v)
value-Keeps v m = (refl, refl)

skip-Keeps : Keeps skip
skip-Keeps m = (refl, refl)

select-Keeps : (id : ℤ) → Keeps (select id)
select-Keeps id m = (refl, refl)

definition_length-Keeps : (len : ℕ) → Keeps (definition_length len)
definition_length-Keeps len = if-Keeps (len == 0) _ _ read_u32-Keeps (pure-Keeps len)

definition-Keeps : (len : ℕ) → Keeps (definition len)
definition-Keeps len =
    if-Keeps (ltb max_node_def_bytes len) _ _
      (lift-Keeps {A = Option WingResponse} (err invalid_data))
      (bind-Keeps (read_bytes len) _ (read_bytes-Keeps len) (λ raw.
        bind-Keeps {A = WingNodeDef} (lift (from_bytes raw)) _ (lift-Keeps (from_bytes raw))
          (λ def. pure-Keeps (some (node_def def)))))

high_token-Keeps : (cmd : ℕ) → Keeps (high_token cmd)
unfolding high_token
high_token-Keeps cmd = if-Keeps (cmd == 0xd0) _ _ (value-Keeps (with_string [])) (
    if-Keeps (cmd == 0xd1) _ _
      (bind-Keeps read_u8 _ read_u8-Keeps (λ len.
        bind-Keeps (read_string (len + 1)) _ (read_string-Keeps (len + 1))
          (λ v. value-Keeps (with_string v))))
      (if-Keeps (cmd == 0xd2) _ _ (bind-Keeps read_u16 _ read_u16-Keeps (λ _. skip-Keeps)) (
        if-Keeps (cmd == 0xd3) _ _
          (bind-Keeps read_i16 _ read_i16-Keeps (λ v. value-Keeps (with_i32 v)))
          (if-Keeps (cmd == 0xd4) _ _
            (bind-Keeps read_i32 _ read_i32-Keeps (λ v. value-Keeps (with_i32 v)))
            (if-Keeps ((cmd == 0xd5) || (cmd == 0xd6)) _ _
              (bind-Keeps read_f _ read_f-Keeps (λ v. value-Keeps (with_float v)))
              (if-Keeps (cmd == 0xd7) _ _
                (bind-Keeps read_i32 _ read_i32-Keeps (λ id. select-Keeps id))
                (if-Keeps (cmd == 0xd8) _ _ (skip-Keeps) (
                  if-Keeps (cmd == 0xd9) _ _ (bind-Keeps read_i8 _ read_i8-Keeps (λ _. skip-Keeps))
                    (if-Keeps (leb cmd 0xdd) _ _ (skip-Keeps) (
                      if-Keeps (cmd == 0xde) _ _ (pure-Keeps (some request_end)) (
                        if-Keeps (cmd == 0xdf) _ _
                          (bind-Keeps read_u16 _ read_u16-Keeps (λ len.
                            bind-Keeps (definition_length len) definition
                              (definition_length-Keeps len) (λ n. definition-Keeps n)))
                          (lift-Keeps {A = Option WingResponse} (err invalid_data)))))))))))))

token-Keeps : (cmd : ℕ) → Keeps (token cmd)
unfolding token
token-Keeps cmd = if-Keeps (leb cmd 0x3f) _ _ (value-Keeps (with_i32 (pos cmd))) (
    if-Keeps (leb cmd 0x7f) _ _ (skip-Keeps) (
      if-Keeps (leb cmd 0xbf) _ _
        (bind-Keeps (read_string (cmd - 0x80 + 1)) _ (read_string-Keeps (cmd - 0x80 + 1))
          (λ v. value-Keeps (with_string v)))
        (if-Keeps (leb cmd 0xcf) _ _
          (bind-Keeps (read_bytes (cmd - 0xc0 + 1)) _ (read_bytes-Keeps (cmd - 0xc0 + 1))
            (λ _. skip-Keeps))
          (high_token-Keeps cmd))))

after_token-Keeps :
    (more : Reader WingResponse) (o : Option WingResponse) → Keeps more → Keeps (after_token more o)
after_token-Keeps more none h = h
after_token-Keeps more (some response) h = pure-Keeps response

read_loop-Keeps : (fuel : ℕ) → Keeps (read_loop fuel)
unfolding read_loop
read_loop-Keeps zero = λ m. (refl, refl)
read_loop-Keeps (suc fuel) = bind-Keeps decode_next _ decode_next-Keeps (λ cmd.
    bind-Keeps (token cmd) _ (token-Keeps cmd)
      (λ o. after_token-Keeps (read_loop fuel) o (read_loop-Keeps fuel)))

read_inner-Keeps : Keeps read_inner
unfolding read_inner
read_inner-Keeps m = read_loop-Keeps (suc (budget m)) m

-- What a call leaves that comes back with a timeout.
unfoldable Rewinds : ℤ → Main → Run WingResponse → Type 0
Rewinds node m (done (err timeout) s) =
    (s.current_node_id ≡ node) × (s.read_capture ≡ []) × Conserves m s
Rewinds node m _ = Unit {0}

explained-Rewinds :
    (node : ℤ) (m s : Main) (b : Bool) (e : Error)
    → e ≢ timeout
    → Rewinds node m (done (err (if b then reconnecting else e)) s)
unfolding Rewinds
explained-Rewinds node m s true e h = tt
explained-Rewinds node m s false timeout h = absurd (h refl)
explained-Rewinds node m s false _ h = tt

finish_read-Rewinds :
    (node : ℤ) (m : Main) (r : Run WingResponse) → Kept m r → Rewinds node m (finish_read node r)
unfolding Rewinds
finish_read-Rewinds node m (blocked s) k = tt
finish_read-Rewinds node m (done (ok response) s) k = tt
finish_read-Rewinds node m (done (err timeout) s) (inl p) = absurd cc
finish_read-Rewinds node m (done (err timeout) s) (inr k) =
    (refl, refl, (k.0, k.1 ∙ sym (append_assoc s.read_capture s.replay _)))
finish_read-Rewinds node m (done (err io) s) k =
    explained-Rewinds node m _ s.reconnecting io (λ p. cc)
finish_read-Rewinds node m (done (err connection_error) s) k =
    explained-Rewinds node m _ s.reconnecting connection_error (λ p. cc)
finish_read-Rewinds node m (done (err _) s) k = tt

from_pending-Rewinds :
    (pending : List WingResponse) (m : Main)
    → m.read_capture ≡ []
    → Rewinds m.current_node_id m (from_pending pending m)
unfolding Rewinds
from_pending-Rewinds (response ∷ rest) m h = tt
from_pending-Rewinds [] m h =
    finish_read-Rewinds m.current_node_id m (read_inner (record m { read_capture = [] })) (
      Kept-trans m (record m { read_capture = [] }) _
        (
          refl,
          ap
              (λ (t : Bytes).
                t
                ++ (m.replay
                    ++ (queued m.rx_events ++ audio (m.rx_buf ++ arrived m.polls) m.rx_channels)))
              h,
        )
        (read_inner-Keeps (record m { read_capture = [] })))

if-Rewinds :
    (node : ℤ) (m : Main) (b : Bool) (x y : Run WingResponse)
    → Rewinds node m x
    → Rewinds node m y
    → Rewinds node m (if b then x else y)
if-Rewinds node m true x y hx hy = hx
if-Rewinds node m false x y hx hy = hy

read_locked-Rewinds : (m : Main) → m.read_capture ≡ [] → Rewinds m.current_node_id m (read_locked m)
unfolding Rewinds read_locked
read_locked-Rewinds m h =
    if-Rewinds m.current_node_id m m.tainted _ _ tt
      (if-Rewinds m.current_node_id m m.reconnecting _ _ tt (from_pending-Rewinds m.pending m h))

-- Where `read` times out between two calls that hold nothing back for a replay, the selected node
-- and the pending responses are as before, nothing is held back, and the bytes still to be read
-- are the same, in the same order: those that the call had already taken are read again.
pub read_locked-timeout :
    (m s : Main)
    → m.read_capture ≡ []
    → read_locked m ≡ done (err timeout) s
    → (s.current_node_id ≡ m.current_node_id)
      × (s.read_capture ≡ [])
      × ((m.pending ≡ s.pending) × (backlog m ≡ backlog s))
unfolding Rewinds
read_locked-timeout m s h e = subst (Rewinds m.current_node_id m) e (read_locked-Rewinds m h)
