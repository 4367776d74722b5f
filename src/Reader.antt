-- ===== src/Reader.antt =====
-- The client's side of the stream in src/console.rs: `_WingConsoleMain`, and what its readers run in.
pub mod Decode
pub mod Response
pub mod Attended
pub mod Backlog
pub mod Kept
pub mod Waits
pub mod Timeout
pub mod Answered
pub mod Progress
pub mod Next
pub mod Gives
pub mod Tokens
pub mod Definition
pub mod Delivery
pub mod Batch
pub mod Size
use libwing.Prelude.{ℕ, Bool, Option, List}
use libwing.Prelude.Ints.{ℤ}
use libwing.Prelude.BigEndian.{Bytes}
use libwing.Outcome.{Result, ok, err}
use libwing.Native.Channel.{ChannelDecoder, ChannelEvent}
use libwing.Node.{WingNodeDef}
use libwing.NodeValue.{WingNodeData}

-- src/lib.rs.
pub data WingResponse : Type 0 where
  request_end : WingResponse
  node_def : WingNodeDef → WingResponse
  node_data : ℤ → WingNodeData → WingResponse

-- How a `read` of the socket comes back: with no byte in time (and whether the deadline has passed
-- by then), with bytes (none at the end of the stream), or with another I/O error, of the read, of
-- the keepalive before it or of setting its timeout.
pub data ReadOutcome : Type 0 where
  quiet : Bool → ReadOutcome
  received : Bytes → ReadOutcome
  broken : ReadOutcome

-- One wait for the socket: whether the deadline has passed before it, and whether another clone has
-- begun to reconnect when it ends. The reader holds the lock all the while, so other clones change
-- nothing else.
pub record Poll : Type 0 where
  pub late : Bool
  pub reconnects : Bool
  pub outcome : ReadOutcome

-- The state that the clones of a console share, with what the environment has in store: `polls`
-- for the waits, `clock` for the deadline checks of the attended loops (an empty one: not passed).
-- `replay` and `read_capture` leave out the channel of their bytes, which is always 1. `rx_buf` is
-- the part not yet read. `bounded`: there is an `op_deadline`.
pub record Main : Type 0 where
  pub current_node_id : ℤ
  pub pending : List WingResponse
  pub replay : Bytes
  pub read_capture : Bytes
  pub capture : Option Bytes
  pub rx_events : List ChannelEvent
  pub rx_channels : ChannelDecoder
  pub rx_buf : Bytes
  pub bounded : Bool
  pub tainted : Bool
  pub reconnecting : Bool
  pub writable : Bool
  pub sent : Bytes
  pub polls : List Poll
  pub clock : List Bool

-- A call that has returned, or one that still waits when `polls` has run out.
pub data Run {ℓ} (A : Type ℓ) : Type ℓ where
  blocked : Main → Run A
  done : Result A → Main → Run A

abbrev pub Reader {ℓ} : Type ℓ → Type ℓ
Reader A = Main → Run A

abbrev pub pure {ℓ} : {A : Type ℓ} → A → Reader A
pure a m = done (ok a) m

abbrev pub and_then {ℓ κ} : {A : Type ℓ} {B : Type κ} → Run A → (A → Reader B) → Run B
and_then (blocked m) f = blocked m
and_then (done (ok a) m) f = f a m
and_then (done (err e) m) f = done (err e) m

infixl 5 ◌>>=◌
abbrev pub ◌>>=◌ {ℓ κ} : {A : Type ℓ} {B : Type κ} → Reader A → (A → Reader B) → Reader B
◌>>=◌ r f m = and_then (r m) f
