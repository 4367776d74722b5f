-- ===== src/Native/Request/Push/Invariant.antt =====
-- What holds of a request decoder between two calls, whatever the bytes it was given.
use libwing.Native.Request.Audio.Token.{name_bytes, PathOk}
use libwing.Native.Channel.Stream.{push-Kept, Kept}
use libwing.Native.Channel.Stream
use libwing.Native.Channel
use libwing.Native.Request.{new, NativeRequest, NativeLimits, NativeRequestDecoder}
use libwing.Native.Request.Audio.Loop.{Pending}
use libwing.Native.Channel.{payload, selected, ChannelEvent, ChannelDecoder}
use libwing.Prelude.{refl, usize_max, ◌<◌, [], arith, List, ◌≤◌, ◌+◌, ◌≡◌, length}
use libwing.Outcome.{and_then, err, ok, Result}
use libwing.Native.Request.Push.{push, reset, reset_on_error, push_loop}
use libwing.Prelude.BigEndian.{Bytes}
use libwing.Native.Request.Push.Sound.{KeptSound, push_loop-Sound}

-- The channel is one of the 14, the audio buffer holds an incomplete token and no more, the path is
-- within its limits and its bytes are counted, and the buffers are within theirs.
pub record IsValid (d : NativeRequestDecoder) : Type 0 where
  pub channel : Stream.IsValid d.channels
  pub waiting : Pending d
  pub path : PathOk d
  pub bounded : length d.audio + length d.meter ≤ d.limits.max_buffered_bytes

pub new-IsValid : (limits : NativeLimits) → IsValid (new limits)
new-IsValid limits = record {
  channel = tt;
  waiting = omega arith;
  path = record {
    counted = unfold name_bytes in refl;
    elements = omega arith;
    within = omega arith;
  };
  bounded = omega arith;
}

-- The events that the channel layer hands over.
pushed :
    (d : NativeRequestDecoder) (r : Result (List ChannelEvent) × ChannelDecoder)
    → d.limits.max_buffered_bytes < usize_max
    → IsValid d
    → Kept r
    → (IsValid
        (reset_on_error
          (and_then (r.0, record d { channels = r.1 }) (λ es s. push_loop es [] s))).1)
      × ((reset_on_error
            (and_then (r.0, record d { channels = r.1 }) (λ es s. push_loop es [] s))).1.limits
          ≡ d.limits)
unfolding reset
pushed d (ok events, channels) fits v k =
    done (push_loop events [] (record d { channels = channels })) (
      push_loop-Sound d.limits channels fits events [] (record d { channels = channels })
        (record {
          same_limits = refl;
          same_channels = refl;
          waiting = v.waiting;
          path = v.path;
          bounded = v.bounded;
        }))
  where
    done :
        (r : Result (List NativeRequest) × NativeRequestDecoder)
        → KeptSound d.limits channels r
        → IsValid (reset_on_error r).1 × ((reset_on_error r).1.limits ≡ d.limits)
    done (ok rs, s) h = (
      record {
        channel = rw h.same_channels k.0;
        waiting = h.waiting;
        path = h.path;
        bounded = rw h.same_limits h.bounded;
      },
      h.same_limits,
    )
    done (err e, s) h = (new-IsValid s.limits, h)
pushed d (err e, channels) fits v k = (new-IsValid d.limits, refl)

-- Whatever the bytes, `push` keeps the decoder valid, after a success as after an error, and keeps
-- its limits, provided that the limit on the buffers is below the largest usize: the channel is one
-- of the 14, the audio buffer holds at most one incomplete token, the path and the buffers are
-- within their limits, and `path_bytes` is the number of bytes of the names on the path.
pub push-IsValid :
    (input : Bytes) (d : NativeRequestDecoder)
    → d.limits.max_buffered_bytes < usize_max
    → IsValid d
    → IsValid (push input d).1 × ((push input d).1.limits ≡ d.limits)
unfolding push
push-IsValid input d fits v =
    pushed d (Channel.push input d.channels) fits v (push-Kept input d.channels v.channel)
