-- ===== src/Examples/Client.antt =====
-- The theorems on the client's reader of src/console.rs at concrete inputs.
use libwing.Prelude.{◌≡◌, refl, Bool, true, false, none, some, List, [], ◌∷◌, arith, All}
use libwing.Prelude.BigEndian.{Bytes}
use libwing.Prelude.Ints.{pos}
use libwing.Outcome.{ok, err, timeout}
use libwing.Native.Channel
use libwing.Native.Value.{integer}
use libwing.Native.Response.{NativeResponse, encode_responses_bounded}
use libwing.Reader.{Main, Poll, ReadOutcome, quiet, received, Run, done, WingResponse}
use libwing.Reader.Batch.{
  read_locked-encode_response, read_all-encode_responses_bounded, AllReadAs, read_all, Brings,
}
use libwing.Reader.Progress.{Calm}
use libwing.Reader.Delivery.{ReadAs, IsResponse}
use libwing.Reader.Response.{read_locked}
use libwing.Reader.Backlog.{backlog}
use libwing.Reader.Answered.{attended_read_until-Answered, Answered}
use libwing.Reader.Next.{decode_next-next, held, Returns}
use libwing.Reader.Timeout.{read_locked-timeout}
use libwing.Reader.Attended.{attended_read_until, data_of}
use libwing.Reader.Decode.{decode_next}

-- Node 5 is 300, and the end of the request.
abbrev batch : List NativeResponse
batch = NativeResponse.node_data (pos 5) (integer (pos 300)) ∷ NativeResponse.request_end ∷ []

abbrev batch_wire : Bytes
batch_wire = 0xdf ∷ 0xd1 ∷ 0xd7 ∷ 0 ∷ 0 ∷ 0 ∷ 5 ∷ 0xd3 ∷ 1 ∷ 44 ∷ 0xde ∷ []

abbrev brings : ReadOutcome → Poll
brings o = record { late = false; reconnects = false; outcome = o }

abbrev console : Bool → List Poll → Main
console bounded polls = record {
  current_node_id = pos 0;
  pending = [];
  replay = [];
  read_capture = [];
  capture = none;
  rx_events = [];
  rx_channels = record { escaped = false; channel = some 1 };
  rx_buf = [];
  bounded = bounded;
  tainted = false;
  reconnecting = false;
  writable = true;
  sent = [];
  polls = polls;
  clock = [];
}

-- The batch in two pieces, with a pause between them.
abbrev pieces : List Poll
pieces =
    brings (received (0xdf ∷ 0xd1 ∷ 0xd7 ∷ 0 ∷ []))
    ∷ brings (quiet false)
    ∷ brings (received (0 ∷ 0 ∷ 5 ∷ 0xd3 ∷ 1 ∷ 44 ∷ 0xde ∷ []))
    ∷ []

pieces-Brings : Brings batch_wire (console false pieces)
pieces-Brings = (
  (refl, refl, refl, refl, refl),
  ((refl, tt), ((refl, tt), ((refl, tt), tt))),
  refl,
  refl,
  refl,
  refl,
)

pieces-Calm : Calm (console false pieces)
unfolding Channel.push_byte
pieces-Calm = ((refl, refl, refl, refl, refl), ((refl, tt), ((refl, tt), ((refl, tt), tt))), tt)

batch-IsResponse : All IsResponse batch
batch-IsResponse = ((omega arith, omega arith), (tt, tt))

batch-wire : encode_responses_bounded batch 64 ≡ ok batch_wire
unfolding encode_responses_bounded libwing.Native.Response.push_all libwing.Native.Response.push
    libwing.Native.Response.encode_response libwing.Native.Value.encode_value
    libwing.Native.Response.escaped_len libwing.Native.Response.finish Channel.append_escaped
batch-wire = refl

read_all-encode_responses_bounded_example :
    (ws : List WingResponse) × (s : Main) × (read_all 2 (console false pieces) ≡ done (ok ws) s)
    × AllReadAs batch ws
    × Calm s
    × (held s ≡ [])
read_all-encode_responses_bounded_example =
    read_all-encode_responses_bounded batch 64 batch_wire (console false pieces) (omega arith)
      batch-IsResponse batch-wire pieces-Brings

-- The selection of channel 1, a select token and no more, and then a deadline.
abbrev cut_short : List Poll
cut_short = brings (received (0xdf ∷ 0xd1 ∷ 0xd7 ∷ 0 ∷ [])) ∷ brings (quiet true) ∷ []

abbrev rewound : Main
rewound = record (console true []) {
  replay = 0xd7 ∷ 0 ∷ [];
  rx_channels = record { escaped = false; channel = some 1 };
}

cut_short-timeout : read_locked (console true cut_short) ≡ done (err timeout) rewound
unfolding read_locked libwing.Reader.Response.read_inner libwing.Reader.Response.read_loop
    decode_next libwing.Reader.Decode.decode_next_inner libwing.Reader.Decode.pop_event
    libwing.Reader.Decode.from_buffer libwing.Reader.Decode.wait Channel.push_byte
    libwing.Reader.Decode.emit libwing.Reader.Response.token libwing.Reader.Response.high_token
    libwing.Reader.Decode.read_i32 libwing.Reader.Decode.read_u32 libwing.Reader.Decode.read_bytes
cut_short-timeout = refl

read_locked-timeout_example :
    (pos 0 ≡ pos 0)
    × (rewound.read_capture ≡ [])
    × (((console true cut_short).pending ≡ rewound.pending)
        × (backlog (console true cut_short) ≡ backlog rewound))
read_locked-timeout_example =
    read_locked-timeout (console true cut_short) rewound refl cut_short-timeout

attended_read_until-Answered_example :
    Answered
      (data_of (pos 5))
      []
      (console false pieces)
      (attended_read_until (data_of (pos 5)) (console false pieces))
attended_read_until-Answered_example =
    attended_read_until-Answered (data_of (pos 5)) (console false pieces)

-- The first byte of the batch, before any is read.
abbrev later_bytes : Bytes
later_bytes = 0 ∷ 0 ∷ 0 ∷ 5 ∷ 0xd3 ∷ 1 ∷ 44 ∷ 0xde ∷ []

decode_next-next_example :
    Returns (console false pieces) (0xd7 ∷ []) 0xd7 later_bytes (decode_next (console false pieces))
unfolding Channel.push_byte
decode_next-next_example =
    decode_next-next (console false pieces) 0xd7 later_bytes (omega arith) pieces-Calm refl

read_locked-encode_response_example :
    (w : WingResponse) × (s : Main) × (read_locked (console false pieces) ≡ done (ok w) s)
    × ReadAs (NativeResponse.node_data (pos 5) (integer (pos 300))) w
    × Calm s
    × (held s ≡ 0xde ∷ [])
unfolding Channel.push_byte libwing.Native.Response.encode_response
    libwing.Native.Value.encode_value
read_locked-encode_response_example =
    read_locked-encode_response (NativeResponse.node_data (pos 5) (integer (pos 300)))
      (0xd7 ∷ 0 ∷ 0 ∷ 0 ∷ 5 ∷ 0xd3 ∷ 1 ∷ 44 ∷ []) (0xde ∷ []) (console false pieces)
      (omega arith, omega arith) refl pieces-Calm refl
