-- ===== src/Native/Request.antt =====
-- `NativeRequestDecoder` of src/native.rs: its types and state. The children hold the audio-channel
-- parser, the meter-channel parser and the decoder that drives both.
pub mod Audio
pub mod Meters
pub mod Push
use libwing.Prelude.{
  ℕ, ◌+◌, ◌*◌, List, [], Option, none, some, length, Bool, ltb, usize_max, if◌then◌else◌,
}
use libwing.Prelude.Ints.{ℤ}
use libwing.Prelude.BigEndian.{Bytes}
use libwing.Outcome.{Result, ok, err, invalid_data}
use libwing.Native.Channel
use libwing.Native.Channel.{ChannelDecoder}
use libwing.Native.Value.{NativeValue}
use libwing.Meter.{Meter}

pub record NativeLimits : Type 0 where
  pub max_buffered_bytes : ℕ
  pub max_string_bytes : ℕ
  pub max_path_elements : ℕ
  pub max_path_bytes : ℕ
  pub max_definition_bytes : ℕ
  pub max_batch_requests : ℕ
  pub max_meter_entries : ℕ

abbrev pub default_limits : NativeLimits
default_limits = record {
  max_buffered_bytes = 64 * 1024;
  max_string_bytes = 256;
  max_path_elements = 256;
  max_path_bytes = 4096;
  max_definition_bytes = 1024 * 1024;
  max_batch_requests = 4096;
  max_meter_entries = 512;
}

pub data PathElement : Type 0 where
  name : Bytes → PathElement
  index : ℕ → PathElement

pub data NativeRequest : Type 0 where
  keep_alive : ℕ → NativeRequest
  get definition : ℤ → NativeRequest
  set : ℤ → NativeValue → NativeRequest
  toggle : ℤ → NativeRequest
  step : ℤ → ℤ → NativeRequest
  bulk_data bulk_definition : List PathElement → NativeRequest
  meter_port : ℕ → NativeRequest
  meter_subscribe : ℕ → ℕ → List Meter → NativeRequest
  meter_renew : ℕ → NativeRequest
  unknown : ℕ → ℕ → NativeRequest

pub record NativeRequestDecoder : Type 0 where
  pub channels : ChannelDecoder
  pub limits : NativeLimits
  pub audio : Bytes
  pub meter : Bytes
  pub selected_id : Option ℤ
  pub path : List PathElement
  pub path_bytes : ℕ
  pub port : Option ℕ

abbrev pub new : NativeLimits → NativeRequestDecoder
new limits = record {
  channels = Channel.default;
  limits = limits;
  audio = [];
  meter = [];
  selected_id = none;
  path = [];
  path_bytes = 0;
  port = none;
}
