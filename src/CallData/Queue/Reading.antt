-- ===== src/CallData/Queue/Reading.antt =====
-- The streams that only read: ownership of the object, and which messages reach the handler.
use ommo_sdk_external.Prelude.{
  if◌then◌else◌, ◌≡◌, refl, sym, ap, ◌∙◌, inl, inr, ◌≢◌, Bool, true, false, none, some, List, [],
  ◌∷◌, ◌++◌, append_assoc, append-nil, arith, Bool-cases, map,
}
use mathlib.Core.Path.{subst}
use ommo_sdk_external.CallData.{
  processing, waiting, read_op, Action, start_call, start_read, start_write, deliver, try_cancel,
  new_call_data, proceed_reader, stop, cancel_call,
}
use ommo_sdk_external.CallData.Queue.{
  Event, Outcome, process_event, run_events, opened, after_event, delivered,
}

-- Only reads are reported to an object that starts nothing else.
abbrev pub AllReads : {R : Type 0} → List (Event R) → Type 0
AllReads [] = Unit {0}
AllReads (e ∷ es) = (e.op_type ≡ read_op) × AllReads es

-- The event of a read that brought `m`, and that of the call's start.
abbrev pub arrival : {R : Type 0} → R → Event R
arrival m = record { op_type = read_op; ok = true; message = some m }

abbrev pub started : {R : Type 0} → Event R
started = record { op_type = read_op; ok = true; message = none }

module _ {R : Type 0} (W : Type 0) where
  -- Exactly one operation is owed while the object lives, and none once it is deleted; no write is
  -- ever started, and the state is never `waiting`.
  pub record IsOwned (o : Outcome R W) : Type 0 where
    pub one_read : o.reads ≡ (if o.alive then 1 else 0)
    pub no_write : o.writes ≡ 0
    pub no_waiting : o.call.status ≢ waiting

  opened-IsOwned :
      (blank : R) (handler : Bool) → IsOwned (opened (new_call_data {W = W} blank handler))
  unfolding new_call_data
  opened-IsOwned blank handler = ground arith

  event-IsOwned :
      (o : Outcome R W) (e : Event R)
      → IsOwned o
      → o.alive ≡ true
      → e.op_type ≡ read_op
      → IsOwned (after_event o e (process_event proceed_reader o.call e))
  unfolding process_event proceed_reader stop
  event-IsOwned o e v live op = ground arith

  run-dead :
      (o : Outcome R W) (es : List (Event R)) → o.alive ≡ false → run_events proceed_reader o es ≡ o
  unfolding run_events
  run-dead o [] dead = refl
  run-dead o (e ∷ es) dead = ground (arith, dead)

  run-IsOwned :
      (es : List (Event R)) (o : Outcome R W)
      → AllReads es
      → IsOwned o
      → IsOwned (run_events proceed_reader o es)
  unfolding run_events
  run-IsOwned [] o reads v = v
  run-IsOwned (e ∷ es) o reads v = elim (Bool-cases o.alive) [
    | inl live ↦ rw live (
        run-IsOwned es (after_event o e (process_event proceed_reader o.call e)) reads.1
          (event-IsOwned o e v live reads.0))
    | inr dead ↦ subst IsOwned (sym (run-dead o (e ∷ es) dead)) v
  ]

  -- Whatever the queue reports to a stream that only reads, from its construction on: while the
  -- object lives exactly one read is outstanding, when it is deleted none is, and no write ever is.
  pub reader-IsOwned :
      (blank : R) (handler : Bool) (es : List (Event R))
      → AllReads es
      → IsOwned (run_events {W = W} proceed_reader (opened (new_call_data blank handler)) es)
  reader-IsOwned blank handler es reads = run-IsOwned es _ reads (opened-IsOwned blank handler)

  pub delivered-append :
      (xs ys : List (Action R W)) → delivered (xs ++ ys) ≡ delivered xs ++ delivered ys
  delivered-append [] ys = refl
  delivered-append (start_call ∷ xs) ys = delivered-append xs ys
  delivered-append (start_read ∷ xs) ys = delivered-append xs ys
  delivered-append (start_write w ∷ xs) ys = delivered-append xs ys
  delivered-append (deliver m ∷ xs) ys = ap (λ r. m ∷ r) (delivered-append xs ys)
  delivered-append (try_cancel ∷ xs) ys = delivered-append xs ys

  -- A stream that is running and has a listener.
  record IsRunning (o : Outcome R W) : Type 0 where
    live : o.alive ≡ true
    reading : o.call.status ≡ processing
    active : o.call.listener_active ≡ true
    handler : o.call.has_handler ≡ true

  arrival-runs :
      (o : Outcome R W) (m : R)
      → IsRunning o
      → let o' = after_event o (arrival m) (process_event proceed_reader o.call (arrival m)) in
        IsRunning o' × (delivered o'.actions ≡ delivered o.actions ++ (m ∷ []))
  unfolding process_event proceed_reader
  arrival-runs o m v = ground (arith, delivered-append o.actions (deliver m ∷ start_read ∷ []))

  run-delivers :
      (ms : List R) (o : Outcome R W)
      → IsRunning o
      → delivered (run_events proceed_reader o (map arrival ms)).actions ≡ delivered o.actions ++ ms
  unfolding run_events
  run-delivers [] o v = sym (append-nil (delivered o.actions))
  run-delivers (m ∷ ms) o v =
      let (w, new) = arrival-runs o m v in
      rw v.live (
        run-delivers ms
          (after_event o (arrival m) (process_event proceed_reader o.call (arrival m))) w
        ∙ rw new (append_assoc (delivered o.actions) (m ∷ []) ms))

  -- A new stream with a handler hands over every message that arrives after the start of the call,
  -- each once and in order.
  pub reader_delivers :
      (blank : R) (ms : List R)
      → delivered
          (run_events {W = W} proceed_reader
            (opened (new_call_data blank true))
            (started ∷ map arrival ms)).actions
        ≡ ms
  unfolding run_events new_call_data process_event proceed_reader
  reader_delivers blank ms =
      run-delivers ms
        (after_event (opened (new_call_data blank true)) started
          (process_event proceed_reader (new_call_data {W = W} blank true).0 started))
        (record { live = refl; reading = refl; active = refl; handler = refl })

  -- Once CancelCall has run, no event leads to a call of the handler.
  quiet-event :
      (o : Outcome R W) (e : Event R)
      → o.call.listener_active ≡ false
      → let o' = after_event o e (process_event proceed_reader o.call e) in
        (o'.call.listener_active ≡ false) × (delivered o'.actions ≡ delivered o.actions)
  unfolding process_event proceed_reader stop
  quiet-event o e q = ground (
    arith,
    delivered-append o.actions (process_event proceed_reader o.call e).1,
    append-nil (delivered o.actions),
  )

  run-quiet :
      (es : List (Event R)) (o : Outcome R W)
      → o.call.listener_active ≡ false
      → delivered (run_events proceed_reader o es).actions ≡ delivered o.actions
  unfolding run_events
  run-quiet [] o q = refl
  run-quiet (e ∷ es) o q =
      let (q', same) = quiet-event o e q in
      let rest = run-quiet es (after_event o e (process_event proceed_reader o.call e)) q' ∙ same in
      elim (Bool-cases o.alive) [
        | inl live ↦ rw live rest
        | inr dead ↦ ap (λ r. delivered r.actions) (run-dead o (e ∷ es) dead)
      ]

  -- After CancelCall, in any state of a stream that only reads, no event makes it call its handler.
  pub cancelled_quiet :
      (es : List (Event R)) (o : Outcome R W)
      → let o' = record o { call = (cancel_call {W = W} o.call).0 } in
        delivered (run_events proceed_reader o' es).actions ≡ delivered o.actions
  unfolding cancel_call
  cancelled_quiet es o = run-quiet es (record o { call = (cancel_call {W = W} o.call).0 }) refl
