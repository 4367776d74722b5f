-- ===== src/Lib.antt =====
-- libwing: a Rust library for the Native protocol of WING mixing consoles.
--
-- A client writes commands to a TCP stream and a console answers on it. The stream is cut into
-- channels by an escape byte; channel 1 (Audio Engine) carries tokens that select a node of the
-- console's tree and set, query or toggle it, channel 3 carries meter subscriptions, whose samples
-- come back as UDP frames. src/native.rs has both the server's side (the request decoder and the
-- response encoder) and what the client shares with it; src/console.rs is the client; src/node.rs
-- has the definitions of nodes; src/meters.rs reads the frames of samples. src/osc.rs is a second
-- client, of the console's OSC interface over UDP; src/safety.rs classes operations by their risk.
--
--   Prelude, Prelude/*      Boolean tests and lists over the native numbers, the integers with their
--                           wrap-around, big-endian words, UTF-8, masks
--   Outcome                 src/lib.rs: Error and Result; fallible methods with their object
--   Native/Channel          src/native.rs: ChannelDecoder, encode_channel, append_escaped;
--                           Native/Channel/Grammar has the grammar of the escaped stream
--   Native/Value            src/native.rs: NativeValue, encode_value
--   Native/Request          src/native.rs: NativeLimits, NativeRequest, NativeRequestDecoder
--   Native/Request/Audio    src/native.rs: parse_audio and the helpers it calls
--   Native/Request/Meters   src/native.rs: parse_meter, flush_meter_renewal, decode_meter_entries
--   Native/Request/Push     src/native.rs: push, push_events, flush, finish, reset
--   Native/Response         src/native.rs: BoundedResponseEncoder, encode_responses_bounded
--   Meter                   src/console.rs: Meter with its wire table, encode_meter
--   Messages                src/console.rs: the bytes of set_*, toggle, request_node_* and
--                           request_meter
--   Node                    src/node.rs: WingNodeDef, to_wire_bytes, from_bytes
--   NodeValue               src/node.rs: WingNodeData; src/helpers.rs: encode_enum, decode_enum
--   MeterFrame              src/meters.rs: decode_frame and the objects it splits a frame into
--   BinaryValues            src/console.rs: parse_binary_values, encode_binary_values
--   Reader                  src/console.rs: _WingConsoleMain, with what its socket has in store
--   Reader/Decode           src/console.rs: decode_next and the readers of numbers and strings
--   Reader/Response         src/console.rs: read_locked, read_inner, read_timeout
--   Reader/Attended         src/console.rs: attended_read_until, get_node_data,
--                           get_node_definition, get_node_definitions, requeue
--   Osc                     src/osc.rs: OscMessage, encode, decode
--   Osc/Requests            src/osc.rs: the request builders
--   Osc/Replies             src/osc.rs: the reply parsers, classify_event; src/console.rs:
--                           DiscoveryInfo::parse
--   Osc/Matching            src/osc.rs: is_relative_write, strip_reply_port, reply_matches
--   Osc/Client              src/osc.rs: WingOscClient with what its socket has in store; request,
--                           request_with_policy
--   Osc/Subscription        src/osc.rs: subscribe, subscribe_with_renewal, renew, poll_event, with
--                           the readings of the clock
--   Safety                  src/safety.rs: risk_class, ensure_allowed
--   Examples                the theorems at concrete inputs
--
-- Bytes and words are native numbers, a buffer is a list of them, a String its UTF-8 bytes, an f32
-- its bit pattern, an i32 an integer of the Prelude. usize has 64 bits. A method that changes its
-- object and may fail returns the object beside its result, so what it wrote before an error stays
-- written. The cursor of the definition reader is the list of the bytes that are left. A panic of a
-- slice or an assertion is none.
--
-- A console's main state goes through the reader's calls. What the socket and the clock will do is
-- part of that state: a list of the waits for the socket, each with the bytes that it brings, a
-- timeout or an error, and with what other clones of the console do meanwhile, and a list for the
-- looks at the clock. A call that has used up the waits is still blocked.
--
-- The tail calls of parse_audio run on fuel, as many as the bytes in the buffer, and so do the two
-- loops that drain a buffer and the loop of parse_binary_values: a round that goes on has taken a
-- byte at least, so the fuel does not run out. The loop of read_inner and that of
-- get_node_definitions run on the number of bytes that can still be read, the attended loop on the
-- number of responses that it may buffer.
--
-- Not modelled: the session and reconnects of src/console.rs, its keepalives, meter sockets and bulk
-- operations; src/schema.rs, src/propindex.rs and src/icons.rs; the
-- tools. They are sockets, threads, locks and clocks, or need the property map that a build
-- embeds. level_db and fx_band_gr_db of src/meters.rs are f32 arithmetic. Parameters stand for the
-- standard library's rendering of numbers, for String::from_utf8_lossy and for the names that the
-- property map has for an id. The texts of OscError::Malformed are left out.
pub mod Prelude
pub mod Outcome
pub mod Native
pub mod Meter
pub mod Messages
pub mod Node
pub mod NodeValue
pub mod Reader
pub mod Osc
pub mod Safety
pub mod MeterFrame
pub mod BinaryValues
pub mod Examples
