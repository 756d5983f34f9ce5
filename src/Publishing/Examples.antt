-- ===== src/Publishing/Examples.antt =====
-- The theorems of the publishers at concrete inputs.
use vision.Common.{ℕ, refl, false, true, none, some, List, [], ◌∷◌, arith}
use vision.Publishing.{TelemetryFrame, Buffered, Http, Response, active, accepted, raised, publish}
use vision.Publishing.Queue.{IsQueued, publish-IsQueued}
use vision.Publishing.Batches.{IsAccounted, publish_all, publish_all_lem}

-- A full queue of two frames.
abbrev full : Buffered
full = record {
  max_queue_size = 2;
  queue = some 1 ∷ some 2 ∷ [];
  dropped_frames = 0;
  worker = active;
  closed = false;
  handed = [];
  delivered = [];
}

publish-IsQueued_example : IsQueued full 3 (publish full 3)
publish-IsQueued_example = publish-IsQueued full 3 refl (omega arith) (omega arith)

abbrev http : Http
http = record {
  flush_interval = 500000;
  max_buffer_size = none;
  batch_started_at = none;
  buffer = [];
  sent = [];
}

-- The second request times out after the server took its frames.
abbrev calls : List (ℕ × TelemetryFrame × Response)
calls =
    (0, 1, accepted [])
    ∷ (600000, 2, raised true [])
    ∷ (700000, 3, accepted [])
    ∷ (700001, 4, accepted [])
    ∷ []

publish_all_lem_example : IsAccounted (1 ∷ 2 ∷ 3 ∷ 4 ∷ []) (publish_all http calls)
publish_all_lem_example = publish_all_lem http calls refl (refl, (refl, (refl, (refl, tt))))

-- A running worker with two frames and the end marker.
abbrev closing : Buffered
closing = record full { queue = some 1 ∷ some 2 ∷ none ∷ []; closed = true }
