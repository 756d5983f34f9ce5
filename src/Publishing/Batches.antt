-- ===== src/Publishing/Batches.antt =====
-- Which frames a server has got, and which wait.
use vision.Common.{
  ℕ, ◌-◌, ◌≡◌, refl, ◌∙◌, ap, none, List, [], ◌∷◌, ◌++◌, map, append_assoc, append-nil, leb,
  Bool-cases, inl, inr, sym, true, false, All, All-imp, All-append, contains, compare_nat, arith,
  nat_beq_iff, subst,
}
use vision.Publishing.{
  TelemetryFrame, Http, Response, accepted, raised, last_frames, flush, append_frame, started_at,
  publish_http,
}

-- The server took the frame.
abbrev pub IsTaken : List TelemetryFrame → TelemetryFrame → Type 0
IsTaken sent frame = contains sent frame ≡ true

contains-left :
    (xs ys : List TelemetryFrame) (x : TelemetryFrame) → IsTaken xs x → IsTaken (xs ++ ys) x
unfolding contains
contains-left [] ys x h = cc
contains-left (z ∷ xs) ys x h = ground (arith, contains-left xs ys x)

contains-right :
    (xs ys : List TelemetryFrame) (x : TelemetryFrame) → IsTaken ys x → IsTaken (xs ++ ys) x
unfolding contains
contains-right [] ys x h = h
contains-right (z ∷ xs) ys x h = ground (arith, contains-right xs ys x h)

contains_self : (xs : List TelemetryFrame) → All (IsTaken xs) xs
unfolding contains
contains_self [] = tt
contains_self (x ∷ xs) = (
  ground (arith, nat_beq_iff x x),
  All-imp (IsTaken xs) (IsTaken (x ∷ xs)) xs (contains-right (x ∷ []) xs) (contains_self xs),
)

-- Of the published frames the server took the earlier ones, and the later ones wait in the buffer.
pub record IsAccounted (published : List TelemetryFrame) (h : Http) : Type 0 where
  pub earlier : List TelemetryFrame
  pub split : published ≡ earlier ++ h.buffer
  pub taken : All (IsTaken h.sent) earlier
  pub unlimited : h.max_buffer_size ≡ none

-- No other call of `publish` runs during the request.
abbrev pub IsAlone : Response → Type 0
IsAlone (accepted appended) = appended ≡ []
IsAlone (raised taken appended) = appended ≡ []

flush-IsAccounted :
    (published : List TelemetryFrame) (h : Http) (response : Response)
    → IsAlone response
    → IsAccounted published h
    → IsAccounted published (flush h response).0
unfolding flush last_frames
flush-IsAccounted published h response alone a = by_buffer h.buffer refl response alone
  where
    grown : (buffer : List TelemetryFrame) → All (IsTaken (h.sent ++ buffer)) a.earlier
    grown buffer =
        All-imp (IsTaken h.sent) (IsTaken (h.sent ++ buffer)) a.earlier
          (contains-left h.sent buffer) a.taken

    waiting :
        (frame : TelemetryFrame) (rest appended : List TelemetryFrame)
        → h.buffer ≡ frame ∷ rest
        → appended ≡ []
        → published ≡ a.earlier ++ last_frames h.max_buffer_size ((frame ∷ rest) ++ appended)
    waiting frame rest appended e alone' =
        let kept : last_frames h.max_buffer_size ((frame ∷ rest) ++ appended) ≡ frame ∷ rest =
          ap (λ m. last_frames m ((frame ∷ rest) ++ appended)) a.unlimited
          ∙ ap (λ xs. (frame ∷ rest) ++ xs) alone'
          ∙ append-nil (frame ∷ rest) in
        a.split ∙ ap (λ b. a.earlier ++ b) (e ∙ sym kept)

    by_buffer :
        (buffer : List TelemetryFrame)
        → h.buffer ≡ buffer
        → (response : Response) → IsAlone response
        → IsAccounted published (flush (record h { buffer = buffer }) response).0
    by_buffer [] e response' alone' = record {
      earlier = a.earlier;
      split = a.split ∙ ap (λ b. a.earlier ++ b) e;
      taken = a.taken;
      unlimited = a.unlimited;
    }
    by_buffer (frame ∷ rest) e (accepted appended) alone' = record {
      earlier = a.earlier ++ frame ∷ rest;
      split = a.split ∙ ap (λ b. a.earlier ++ b) e ∙ sym (append-nil (a.earlier ++ frame ∷ rest));
      taken =
          All-append (IsTaken (h.sent ++ frame ∷ rest)) a.earlier (frame ∷ rest)
            (grown (frame ∷ rest))
            (All-imp (IsTaken (frame ∷ rest)) (IsTaken (h.sent ++ frame ∷ rest)) (frame ∷ rest)
              (contains-right h.sent (frame ∷ rest)) (contains_self (frame ∷ rest)));
      unlimited = a.unlimited;
    }
    by_buffer (frame ∷ rest) e (raised true appended) alone' = record {
      earlier = a.earlier;
      split = waiting frame rest appended e alone';
      taken = grown (frame ∷ rest);
      unlimited = a.unlimited;
    }
    by_buffer (frame ∷ rest) e (raised false appended) alone' = record {
      earlier = a.earlier;
      split = waiting frame rest appended e alone';
      taken = a.taken;
      unlimited = a.unlimited;
    }

publish_http-IsAccounted :
    (published : List TelemetryFrame) (h : Http) (now : ℕ) (frame : TelemetryFrame)
    (response : Response)
    → IsAlone response
    → IsAccounted published h
    → IsAccounted (published ++ frame ∷ []) (publish_http h now frame response).0
unfolding publish_http append_frame last_frames
publish_http-IsAccounted published h now frame response alone a =
    let appended = append_frame h now frame in
    let waits : IsAccounted (published ++ frame ∷ []) appended = record {
      earlier = a.earlier;
      split =
          ap (λ xs. xs ++ frame ∷ []) a.split
          ∙ append_assoc a.earlier h.buffer (frame ∷ [])
          ∙ ap (λ m. a.earlier ++ last_frames m (h.buffer ++ frame ∷ [])) (sym a.unlimited);
      taken = a.taken;
      unlimited = a.unlimited;
    } in
    elim (Bool-cases (leb h.flush_interval (now - started_at h.batch_started_at now))) [
      | inl due ↦
          rw (due, publish_http)
            (flush-IsAccounted (published ++ frame ∷ []) appended response alone waits)
      | inr early ↦ rw (early, publish_http) waits
    ]

-- Calls of `publish`, each with its time and how the request ends.
unfoldable pub publish_all : Http → List (ℕ × TelemetryFrame × Response) → Http
publish_all h [] = h
publish_all h ((now, frame, response) ∷ calls) =
    publish_all (publish_http h now frame response).0 calls

publish_all-kept :
    (published : List TelemetryFrame) (h : Http) (calls : List (ℕ × TelemetryFrame × Response))
    → All (λ c. IsAlone c.2) calls
    → IsAccounted published h
    → IsAccounted (published ++ map (λ c. c.1) calls) (publish_all h calls)
unfolding publish_all
publish_all-kept published h [] alone a =
    subst (λ xs. IsAccounted xs h) (sym (append-nil published)) a
publish_all-kept published h ((now, frame, response) ∷ calls) alone a =
    let next = (publish_http h now frame response).0 in
    subst (λ xs. IsAccounted xs (publish_all next calls))
      (append_assoc published (frame ∷ []) (map (λ c. c.1) calls))
      (publish_all-kept (published ++ frame ∷ []) next calls alone.1
        (publish_http-IsAccounted published h now frame response alone.0 a))

-- Without a limit on the buffer and without another call during a request, no published frame is lost,
-- whichever requests raise: those that waited before, followed by the published ones, are frames that the
-- server took, followed by those that wait. A frame of a request that raised waits on, so that the
-- server may take it twice.
pub publish_all_lem :
    (h : Http) (calls : List (ℕ × TelemetryFrame × Response))
    → h.max_buffer_size ≡ none
    → All (λ c. IsAlone c.2) calls
    → IsAccounted (h.buffer ++ map (λ c. c.1) calls) (publish_all h calls)
publish_all_lem h calls unlimited alone =
    publish_all-kept h.buffer h calls alone
      (record { earlier = []; split = refl; taken = tt; unlimited = unlimited })
