-- ===== src/Publishing/Queue.antt =====
-- The bounded queue: its bound, and where the published frames are.
use vision.Common.{
  ℕ, ◌+◌, ◌≤◌, ◌≡◌, refl, ap, subst, sym, ◌∙◌, Bool, true, false, Option, none, some, List, [], ◌∷◌,
  ◌++◌, length, length-append, if◌then◌else◌, ltb, arith, Bool-cases, inl, inr,
}
use vision.Publishing.{
  drain_turn, TelemetryFrame, Buffered, Outcome, returned, raised_error, timed_out, active, absent,
  done, put_nowait, ensure_worker, drop_oldest_pending, put_again, or_again, or_dropped, drop_first,
  publish,
}

-- The frames among the pending items, without end markers.
unfoldable pub frames : List (Option TelemetryFrame) → ℕ
frames [] = 0
frames (none ∷ rest) = frames rest
frames (some frame ∷ rest) = frames rest + 1

frames-append : (xs ys : List (Option TelemetryFrame)) → frames (xs ++ ys) ≡ frames xs + frames ys
unfolding frames
frames-append [] ys = omega arith
frames-append (none ∷ xs) ys = frames-append xs ys
frames-append (some x ∷ xs) ys = omega (arith, frames-append xs ys)

-- The frame is the newest pending item.
abbrev pub IsNewest : TelemetryFrame → List (Option TelemetryFrame) → Type 0
IsNewest frame queue = (older : List (Option TelemetryFrame)) × (queue ≡ older ++ some frame ∷ [])

pub record IsQueued (b : Buffered) (frame : TelemetryFrame) (b' : Buffered) : Type 0 where
  pub bounded : length b'.queue ≤ b'.max_queue_size
  pub same_size : b'.max_queue_size ≡ b.max_queue_size
  pub newest : IsNewest frame b'.queue
  pub counted : frames b'.queue + b'.dropped_frames ≡ frames b.queue + b.dropped_frames + 1
  pub same_handed : b'.handed ≡ b.handed
  pub awake : b'.worker ≡ active

put-IsQueued :
    (b c : Buffered) (frame : TelemetryFrame)
    → ltb (length c.queue) c.max_queue_size ≡ true
    → c.max_queue_size ≡ b.max_queue_size
    → frames c.queue + c.dropped_frames ≡ frames b.queue + b.dropped_frames
    → c.handed ≡ b.handed
    → c.worker ≡ active
    → IsQueued b frame (record c { queue = c.queue ++ some frame ∷ [] })
unfolding frames
put-IsQueued b c frame room size count handed awake = record {
  bounded = ground (arith, length-append c.queue (some frame ∷ []));
  same_size = size;
  newest = (c.queue, refl);
  counted = omega (arith, frames-append c.queue (some frame ∷ []), count);
  same_handed = handed;
  awake = awake;
}

again-IsQueued :
    (b : Buffered) (frame : TelemetryFrame)
    → b.worker ≡ active
    → 1 ≤ b.max_queue_size
    → length b.queue ≤ b.max_queue_size
    → ltb (length b.queue) b.max_queue_size ≡ false
    → IsQueued b frame (put_again b frame)
unfolding put_again put_nowait drop_oldest_pending frames
again-IsQueued b frame awake size bound full = byQueue b.queue refl
  where
    room :
        (c : Buffered)
        → ltb (length c.queue) c.max_queue_size ≡ true
        → or_dropped c (put_nowait c frame) ≡ record c { queue = c.queue ++ some frame ∷ [] }
    room c free = rw (free, put_nowait) refl

    byQueue :
        (queue : List (Option TelemetryFrame))
        → b.queue ≡ queue
        → IsQueued b frame (or_dropped (drop_first b queue) (put_nowait (drop_first b queue) frame))
    byQueue [] e = ground arith
    byQueue (none ∷ rest) e =
        let free : ltb (length rest) b.max_queue_size ≡ true = ground arith in
        rw (room (record b { queue = rest }) free) (
          put-IsQueued b (record b { queue = rest }) frame free refl (ground (arith, e)) refl awake)
    byQueue (some oldest ∷ rest) e =
        let free : ltb (length rest) b.max_queue_size ≡ true = ground arith in
        let c : Buffered = record b { queue = rest; dropped_frames = b.dropped_frames + 1 } in
        rw (room c free) (put-IsQueued b c frame free refl (ground (arith, e)) refl awake)

-- If the queue has room for at least one item and holds no more than it may, a frame that is
-- published before the close becomes the newest pending item, the worker runs, and the queue keeps
-- its bound; the pending and the dropped frames together are one more than before.
pub publish-IsQueued :
    (b : Buffered) (frame : TelemetryFrame)
    → b.closed ≡ false
    → 1 ≤ b.max_queue_size
    → length b.queue ≤ b.max_queue_size
    → IsQueued b frame (publish b frame)
unfolding publish ensure_worker put_nowait or_again
publish-IsQueued b frame running size bound =
    let awake = ensure_worker b in
    let started =
      ap (λ c. if c then b else or_again awake frame (put_nowait awake frame)) running in
    let tried = λ (t : Bool).
      or_again awake frame
        (if t then some (record awake { queue = b.queue ++ some frame ∷ [] }) else none) in
    elim (Bool-cases (ltb (length b.queue) b.max_queue_size)) [
      | inl room ↦
          subst (IsQueued b frame) (sym (started ∙ ap tried room))
            (put-IsQueued b awake frame room refl refl refl refl)
      | inr full ↦
          let q = again-IsQueued awake frame refl size bound full in
          subst (IsQueued b frame) (sym (started ∙ ap tried full)) (record {
            bounded = q.bounded;
            same_size = q.same_size;
            newest = q.newest;
            counted = q.counted;
            same_handed = q.same_handed;
            awake = q.awake;
          })
    ]

-- The worker's loop, with how each call of the wrapped publisher ends; it ends with the end marker.
unfoldable pub drain_turns : Buffered → List Outcome → Buffered
drain_turns b [] = b
drain_turns b (outcome ∷ outcomes) = elim b.worker [
  | done ↦ b
  | absent ↦ b
  | active ↦ drain_turns (drain_turn b b.queue outcome) outcomes
]

-- The frames for which the wrapped publisher returned.
abbrev pub delivered_of : List (TelemetryFrame × Outcome) → List TelemetryFrame
delivered_of [] = []
delivered_of ((frame, returned) ∷ turns) = frame ∷ delivered_of turns
delivered_of ((frame, raised_error) ∷ turns) = delivered_of turns
delivered_of ((frame, timed_out) ∷ turns) = delivered_of turns
