-- ===== src/Reader/Attended.antt =====
-- The attended reads of src/console.rs: a request, and reads until its answer comes.
use libwing.Prelude.{
  ◌*◌, ℕ, zero, suc, Bool, true, false, Option, none, some, List, [], ◌∷◌, ◌++◌, ◌||◌, leb, ltb,
  length, if◌then◌else◌,
}
use libwing.Prelude.Ints.{ℤ, int_eq}
use libwing.Prelude.BigEndian.{Bytes}
use libwing.Outcome.{Error, Result, ok, err, invalid_data, connection_error, timeout, io}
use libwing.NodeValue.{WingNodeData}
use libwing.Node.{WingNodeDef}
use libwing.Messages.{data_message, definition_message}
use libwing.Reader.{
  Main, Run, blocked, done, Reader, ◌>>=◌, WingResponse, request_end, node_def, node_data,
}
use libwing.Reader.Response.{read_locked, with_deadline, budget}

abbrev pub max_attended_buffered : ℕ
max_attended_buffered = 64 * 1024

abbrev pub requeue : List WingResponse → Main → Main
requeue responses m = record m { pending = responses ++ m.pending }

-- `ensure_stream_usable()?` and the write.
unfoldable pub send : Bytes → Reader (Unit {0})
send message m =
    if m.tainted
    then done (err connection_error) m
    else if m.writable
    then done (ok tt) (record m { sent = m.sent ++ message })
    else done (err io) m

-- `Instant::now() >= deadline`.
abbrev pub tick : List Bool → Main → Bool × Main
tick [] m = (false, m)
tick (passed ∷ clock) m = (passed, record m { clock = clock })

abbrev pub Matcher {ℓ} : Type ℓ → Type ℓ
Matcher T = WingResponse → Option T

abbrev pub is_timeout : Error → Bool
is_timeout timeout = true
is_timeout _ = false

-- The end of the loop without a match.
abbrev pub give_up {ℓ} : {A : Type ℓ} → Error → List WingResponse → Main → Run A
give_up e buffered m = done (err e) (if is_timeout e then requeue buffered m else m)

abbrev pub after_check {ℓ} : {A : Type ℓ} → Reader A → List WingResponse → Bool × Main → Run A
after_check more buffered (true, m) = give_up timeout buffered m
after_check more buffered (false, m) = more m

module _ {ℓ} {T : Type ℓ} (matcher : Matcher T) where
  -- A response that does not match: `more` is the loop with it buffered.
  abbrev pub unrelated :
      List WingResponse
      → WingResponse
      → Reader (T × List WingResponse)
      → Reader (T × List WingResponse)
  unrelated buffered response more m =
      if leb max_attended_buffered (length buffered)
      then give_up invalid_data buffered m
      else after_check more (buffered ++ response ∷ []) (tick m.clock m)

  abbrev pub matched :
      Option T
      → List WingResponse
      → WingResponse
      → Reader (T × List WingResponse)
      → Reader (T × List WingResponse)
  matched (some t) buffered response more m = done (ok (t, buffered)) m
  matched none buffered response more m = unrelated buffered response more m

  abbrev pub after_response :
      List WingResponse
      → (WingResponse → Reader (T × List WingResponse))
      → Run WingResponse
      → Run (T × List WingResponse)
  after_response buffered more (blocked m) = blocked m
  after_response buffered more (done (err e) m) = give_up e buffered m
  after_response buffered more (done (ok response) m) =
      matched (matcher response) buffered response (more response) m

  -- The loop. It ends at `max_attended_buffered` buffered responses, so that as many rounds and one
  -- are enough.
  unfoldable pub attended_loop : ℕ → List WingResponse → Reader (T × List WingResponse)
  attended_loop zero buffered m = blocked m
  attended_loop (suc fuel) buffered m =
      after_response buffered (λ response. attended_loop fuel (buffered ++ response ∷ []))
        (read_locked m)

  unfoldable pub attended_read_until : Reader (T × List WingResponse)
  attended_read_until = attended_loop (suc max_attended_buffered) []

abbrev pub data_of : ℤ → Matcher WingNodeData
data_of id (node_data rid value) = if int_eq rid id then some value else none
data_of id _ = none

abbrev pub definition_of : ℤ → Matcher WingNodeDef
definition_of id (node_def def) = if int_eq def.id id then some def else none
definition_of id _ = none

unfoldable pub get_node_data : ℤ → Reader (WingNodeData × List WingResponse)
get_node_data id = send (data_message id) >>= λ _. with_deadline (attended_read_until (data_of id))

unfoldable pub get_node_definition : ℤ → Reader (WingNodeDef × List WingResponse)
get_node_definition id =
    send (definition_message id) >>= λ _. with_deadline (attended_read_until (definition_of id))

-- `HashSet::contains`.
unfoldable pub contains : List ℤ → ℤ → Bool
contains [] id = false
contains (i ∷ ids) id = int_eq i id || contains ids id

-- What one response is to `get_node_definitions`.
pub data Arrival : Type 0 where
  belongs : WingNodeDef → Arrival
  ends other : Arrival

abbrev pub arrival : List ℤ → List WingNodeDef → WingResponse → Arrival
arrival ids definitions (node_def def) =
    if contains ids def.id || contains ids def.parent_id then belongs def else other
arrival ids [] request_end = other
arrival ids (d ∷ ds) request_end = ends
arrival ids definitions (node_data id value) = other

-- The state at the end of the loop: the result, and what was buffered.
abbrev pub Gathered : Type 0
Gathered = Result (List WingNodeDef) × List WingResponse

abbrev pub checked : Reader Gathered → List WingResponse → Bool × Main → Run Gathered
checked more buffered (true, m) = done (ok (err timeout, buffered)) m
checked more buffered (false, m) = more m

abbrev pub gathered :
    (List ℤ → List WingNodeDef → List WingResponse → Reader Gathered)
    → List ℤ
    → List WingNodeDef
    → List WingResponse
    → WingResponse
    → Arrival
    → Reader Gathered
gathered more ids definitions buffered response (belongs def) m =
    checked (more (def.id ∷ ids) (definitions ++ def ∷ []) buffered) buffered (tick m.clock m)
gathered more ids definitions buffered response ends m = done (ok (ok definitions, buffered)) m
gathered more ids definitions buffered response other m =
    if ltb (length buffered) max_attended_buffered
    then checked (more ids definitions (buffered ++ response ∷ [])) (buffered ++ response ∷ [])
        (tick m.clock m)
    else done (ok (err invalid_data, buffered)) m

abbrev pub gather_next :
    (List ℤ → List WingNodeDef → List WingResponse → Reader Gathered)
    → List ℤ
    → List WingNodeDef
    → List WingResponse
    → Run WingResponse
    → Run Gathered
gather_next more ids definitions buffered (blocked m) = blocked m
gather_next more ids definitions buffered (done (err e) m) = done (ok (err e, buffered)) m
gather_next more ids definitions buffered (done (ok response) m) =
    gathered more ids definitions buffered response (arrival ids definitions response) m

-- The loop. A round reads a response, and with it a byte at least.
unfoldable pub gather_loop : ℕ → List ℤ → List WingNodeDef → List WingResponse → Reader Gathered
gather_loop zero ids definitions buffered m = blocked m
gather_loop (suc fuel) ids definitions buffered m =
    gather_next (gather_loop fuel) ids definitions buffered (read_locked m)

abbrev pub settle_gathered : List WingResponse → Run Gathered → Run (List WingNodeDef)
settle_gathered earlier (blocked m) = blocked m
settle_gathered earlier (done (err e) m) = done (err e) m
settle_gathered earlier (done (ok (r, buffered)) m) = done r (requeue (earlier ++ buffered) m)

abbrev pub after_request : ℤ → List WingResponse → Run (Unit {0}) → Run (List WingNodeDef)
after_request root_id earlier (blocked m) = blocked m
after_request root_id earlier (done (err e) m) = done (err e) (requeue earlier m)
after_request root_id earlier (done (ok _) m) =
    settle_gathered earlier (with_deadline (gather_loop (suc (budget m)) (root_id ∷ []) [] []) m)

unfoldable pub get_node_definitions : ℤ → Reader (List WingNodeDef)
get_node_definitions root_id m =
    after_request root_id m.pending (send (definition_message root_id) (record m { pending = [] }))
