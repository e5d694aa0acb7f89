-- ===== src/CallData/Queue/Early.antt =====
-- Requests on the wireless management stream before the start of its call is reported
-- (src/rpc_wireless_management_stream_client_call_data.cpp): what its handler is given.
use ommo_sdk_external.Prelude.{
  ◌≡◌, refl, sym, ap, ◌∙◌, ◌⊎◌, inr, true, none, List, [], ◌∷◌, ◌++◌, arith, append-nil,
  append_assoc, map,
}
use ommo_sdk_external.CallData.{
  processing, waiting, write_op, deliver, start_read, start_write, new_call_data,
}
use ommo_sdk_external.CallData.Wireless.{send_wireless_management_request, proceed_wireless}
use ommo_sdk_external.CallData.Queue.{Outcome, process_event, opened, delivered}
use ommo_sdk_external.CallData.Queue.Reading.{started, arrival, delivered-append}
use ommo_sdk_external.CallData.Queue.Writing.{Move, send, event, step}

-- What happens to a stream that is up: the user sends a request, a write is done, a message comes.
pub data Traffic (R W : Type 0) : Type 0 where
  request : W → Traffic R W
  written : Traffic R W
  message : R → Traffic R W

module _ {R W : Type 0} where
  abbrev pub move_of : Traffic R W → Move R W
  move_of (request w) = send w
  move_of written = event (record { op_type = write_op; ok = true; message = none })
  move_of (message m) = event (arrival m)

  abbrev pub messages : List (Traffic R W) → List R
  messages [] = []
  messages (request w ∷ ts) = messages ts
  messages (written ∷ ts) = messages ts
  messages (message m ∷ ts) = m ∷ messages ts

  abbrev pub run_moves : Outcome R W → List (Move R W) → Outcome R W
  run_moves o [] = o
  run_moves o (m ∷ ms) = run_moves (step o m) ms

  -- The requests before the start, the start, and what comes then.
  abbrev pub from_start : List W → List (Traffic R W) → List (Move R W)
  from_start requests later = map send requests ++ (event started ∷ map move_of later)

  -- What the handler is given before the first message.
  abbrev pub given_early : R → List W → List R
  given_early blank [] = []
  given_early blank (w ∷ requests) = blank ∷ []

  record IsUp (o : Outcome R W) : Type 0 where
    up : (o.call.status ≡ processing) ⊎ (o.call.status ≡ waiting)
    active : o.call.listener_active ≡ true
    handler : o.call.has_handler ≡ true

  -- Everything of the list is given to the handler, by a stream that stays up.
  abbrev Gives : Outcome R W → Outcome R W → List R → Type 0
  Gives o o' new = IsUp o' × (delivered o'.actions ≡ delivered o.actions ++ new)

  request-Gives : (o : Outcome R W) (w : W) → IsUp o → Gives o (step o (send w)) []
  unfolding step send_wireless_management_request
  request-Gives o w v =
      ground
        (arith, delivered-append W o.actions (start_write w ∷ []), delivered-append W o.actions [])

  written-Gives : (o : Outcome R W) → IsUp o → Gives o (step o (move_of written)) []
  unfolding step process_event proceed_wireless
  written-Gives o v = ground (arith, delivered-append W o.actions [])

  message-Gives : (o : Outcome R W) (m : R) → IsUp o → Gives o (step o (event (arrival m))) (m ∷ [])
  unfolding step process_event proceed_wireless
  message-Gives o m v = ground (arith, delivered-append W o.actions (deliver m ∷ start_read ∷ []))

  run-messages :
      (ts : List (Traffic R W)) (o : Outcome R W)
      → IsUp o
      → delivered (run_moves o (map move_of ts)).actions ≡ delivered o.actions ++ messages ts
  run-messages [] o v = sym (append-nil (delivered o.actions))
  run-messages (request w ∷ ts) o v =
      let (up, same) = request-Gives o w v in
      run-messages ts (step o (send w)) up
      ∙ ap (λ l. l ++ messages ts) (same ∙ append-nil (delivered o.actions))
  run-messages (written ∷ ts) o v =
      let (up, same) = written-Gives o v in
      run-messages ts (step o (move_of written)) up
      ∙ ap (λ l. l ++ messages ts) (same ∙ append-nil (delivered o.actions))
  run-messages (message m ∷ ts) o v =
      let (up, new) = message-Gives o m v in
      run-messages ts (step o (event (arrival m))) up
      ∙ ap (λ l. l ++ messages ts) new
      ∙ append_assoc (delivered o.actions) (m ∷ []) (messages ts)

  -- A stream that writes before its call has started, and one that waits for the start.
  record IsEarly (blank : R) (o : Outcome R W) : Type 0 where
    busy : o.call.status ≡ processing
    unread : o.call.response ≡ blank
    active : o.call.listener_active ≡ true
    handler : o.call.has_handler ≡ true
    silent : delivered o.actions ≡ []

  refused-IsEarly :
      (blank : R) (o : Outcome R W) (w : W) → IsEarly blank o → IsEarly blank (step o (send w))
  unfolding step send_wireless_management_request
  refused-IsEarly blank o w v = ground (arith, delivered-append W o.actions [])

  started-Gives :
      (blank : R) (o : Outcome R W)
      → IsEarly blank o
      → Gives o (step o (event started)) (blank ∷ [])
  unfolding step process_event proceed_wireless
  started-Gives blank o v =
      ground (arith, delivered-append W o.actions (deliver blank ∷ start_read ∷ []))

  early-run :
      (blank : R) (requests : List W) (later : List (Traffic R W)) (o : Outcome R W)
      → IsEarly blank o
      → delivered (run_moves o (from_start requests later)).actions ≡ blank ∷ messages later
  early-run blank [] later o v =
      let (up, new) = started-Gives blank o v in
      run-messages later (step o (event started)) up
      ∙ ap (λ l. l ++ messages later) (new ∙ ap (λ l. l ++ (blank ∷ [])) v.silent)
  early-run blank (w ∷ requests) later o v =
      early-run blank requests later (step o (send w)) (refused-IsEarly blank o w v)

  -- On a new stream with a handler, whatever requests, completed writes and messages follow the
  -- report that the call has started: the handler is given the messages, each once and in order; but
  -- if the user has sent any requests before that report, it is first given the content that
  -- `response_` was created with, which is no message of the service.
  pub delivers_blank :
      (blank : R) (requests : List W) (later : List (Traffic R W))
      → delivered
          (run_moves (opened (new_call_data blank true)) (from_start requests later)).actions
        ≡ given_early blank requests ++ messages later
  unfolding step process_event proceed_wireless send_wireless_management_request new_call_data
  delivers_blank blank [] later =
      let o = step (opened (new_call_data blank true)) (event started) in
      run-messages later o (record { up = inr refl; active = refl; handler = refl })
  delivers_blank blank (w ∷ requests) later =
      let o = step (opened (new_call_data blank true)) (send w) in
      early-run blank requests later o
        (record { busy = refl; unread = refl; active = refl; handler = refl; silent = refl })
