-- ===== src/Publishing.antt =====
-- backend/src/argus/inference/publisher.py: the publishers of telemetry frames. Times are
-- microseconds. The asynchronous queue is its list of pending items, where `none` is
-- the marker that ends the worker.
pub mod Queue
pub mod Batches
mod Examples
use vision.Common.{
  ℕ, ◌+◌, ◌-◌, Bool, true, false, not, ◌&&◌, Option, none, some, List, [], ◌∷◌, ◌++◌, length, drop,
  if◌then◌else◌, ltb, leb,
}

pub data Worker : Type 0 where
  absent active done : Worker

-- The publishers never look into a frame: it is a number.
abbrev pub TelemetryFrame : Type 0
TelemetryFrame = ℕ

-- `BufferedTelemetryPublisher`. `handed` is what the worker passed to the wrapped publisher, and
-- `delivered` is that of it for which the wrapped publisher returned.
pub record Buffered : Type 0 where
  pub max_queue_size : ℕ
  pub queue : List (Option TelemetryFrame)
  pub dropped_frames : ℕ
  pub worker : Worker
  pub closed : Bool
  pub handed : List TelemetryFrame
  pub delivered : List TelemetryFrame

-- The constructor; a size of zero is a `ValueError`.
unfoldable pub init_buffered : ℕ → Option Buffered
init_buffered max_queue_size =
    if ltb max_queue_size 1
    then none
    else some (record {
      max_queue_size = max_queue_size;
      queue = [];
      dropped_frames = 0;
      worker = absent;
      closed = false;
      handed = [];
      delivered = [];
    })

-- `put_nowait`, or `none` for `QueueFull`.
unfoldable pub put_nowait : Buffered → TelemetryFrame → Option Buffered
put_nowait b frame =
    if ltb (length b.queue) b.max_queue_size
    then some (record b { queue = b.queue ++ some frame ∷ [] })
    else none

unfoldable pub ensure_worker : Buffered → Buffered
ensure_worker b = record b { worker = active }

abbrev pub drop_first : Buffered → List (Option TelemetryFrame) → Buffered
drop_first b [] = b
drop_first b (none ∷ rest) = record b { queue = rest }
drop_first b (some frame ∷ rest) = record b { queue = rest; dropped_frames = b.dropped_frames + 1 }

unfoldable pub drop_oldest_pending : Buffered → Buffered
drop_oldest_pending b = drop_first b b.queue

abbrev pub or_dropped : Buffered → Option Buffered → Buffered
or_dropped b none = record b { dropped_frames = b.dropped_frames + 1 }
or_dropped b (some b') = b'

-- After a full queue: the oldest item goes, and the frame is tried again.
unfoldable pub put_again : Buffered → TelemetryFrame → Buffered
unfolding drop_oldest_pending put_nowait
put_again b frame = let b' = drop_oldest_pending b in or_dropped b' (put_nowait b' frame)

unfoldable pub or_again : Buffered → TelemetryFrame → Option Buffered → Buffered
unfolding put_again
or_again b frame none = put_again b frame
or_again b frame (some b') = b'

unfoldable pub publish : Buffered → TelemetryFrame → Buffered
unfolding ensure_worker put_nowait or_again
publish b frame =
    let awake = ensure_worker b in
    if b.closed then b else or_again awake frame (put_nowait awake frame)

-- How the wrapped publisher's call ends; a call that times out is cancelled.
pub data Outcome : Type 0 where
  returned raised_error timed_out : Outcome

abbrev pub delivered_by : TelemetryFrame → Outcome → List TelemetryFrame
delivered_by frame returned = frame ∷ []
delivered_by frame raised_error = []
delivered_by frame timed_out = []

-- One turn of `_drain`, which waits while nothing is pending: an exception or a timeout of the wrapped
-- publisher is logged, and the loop goes on.
unfoldable pub drain_turn : Buffered → List (Option TelemetryFrame) → Outcome → Buffered
drain_turn b [] outcome = b
drain_turn b (none ∷ rest) outcome = record b { queue = rest; worker = done }
drain_turn b (some frame ∷ rest) outcome = record b {
  queue = rest;
  handed = b.handed ++ frame ∷ [];
  delivered = b.delivered ++ delivered_by frame outcome;
}

-- `HttpPublisher`. `sent` is the frames that the server took, each as often as it took it.
pub record Http : Type 0 where
  pub flush_interval : ℕ
  pub max_buffer_size : Option ℕ
  pub batch_started_at : Option ℕ
  pub buffer : List TelemetryFrame
  pub sent : List TelemetryFrame

-- How the awaited request of a flush ends, with the frames that other calls of `publish` append while it
-- runs: with an accepting status, for which the server took the frames, or by an exception (an error
-- status raises, too), in which case the server may have taken them or not.
pub data Response : Type 0 where
  accepted : (appended : List TelemetryFrame) → Response
  raised : (taken : Bool) (appended : List TelemetryFrame) → Response

-- `buffer[-size:]`, for a size of at least one.
unfoldable pub last_frames : Option ℕ → List TelemetryFrame → List TelemetryFrame
last_frames none buffer = buffer
last_frames (some size) buffer = drop (length buffer - size) buffer

abbrev pub started_at : Option ℕ → ℕ → ℕ
started_at none now = now
started_at (some at) now = at

-- `flush`; the second part is whether it raised. What was appended meanwhile is cleared with the buffer.
-- Another flush that starts before the request ends is outside the model.
unfoldable pub flush : Http → Response → Http × Bool
unfolding last_frames
flush h response = elim h.buffer [
  | [] ↦ (h, false)
  | frame ∷ rest ↦ elim response [
    | raised taken appended ↦ (
      record h {
        buffer = last_frames h.max_buffer_size (h.buffer ++ appended);
        sent = if taken then h.sent ++ h.buffer else h.sent;
      },
      true,
    )
    | accepted appended ↦
        (record h { buffer = []; batch_started_at = none; sent = h.sent ++ h.buffer }, false)
  ]
]

unfoldable pub append_frame : Http → ℕ → TelemetryFrame → Http
unfolding last_frames
append_frame h now frame = record h {
  batch_started_at = some (started_at h.batch_started_at now);
  buffer = last_frames h.max_buffer_size (h.buffer ++ frame ∷ []);
}

-- `HttpPublisher.publish` at the time `now`, which is not before the batch began.
unfoldable pub publish_http : Http → ℕ → TelemetryFrame → Response → Http × Bool
unfolding append_frame flush
publish_http h now frame response =
    let appended = append_frame h now frame in
    if leb h.flush_interval (now - started_at h.batch_started_at now)
    then flush appended response
    else (appended, false)
