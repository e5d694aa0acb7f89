-- ===== src/Tests/Streams.antt =====
-- The theorems about call data and wireless requests at concrete inputs.
use ommo_sdk_external.Prelude.{ℕ, ◌≡◌, refl, true, false, none, some, [], ◌∷◌, arith}
use ommo_sdk_external.CallData.{
  processing, waiting, read_op, new_call_data, cancel_call, proceed_reader,
}
use ommo_sdk_external.CallData.Queue.{Event, Outcome, opened, run_events, delivered}
use ommo_sdk_external.CallData.Queue.Reading.{
  arrival, started, IsOwned, reader-IsOwned, reader_delivers, cancelled_quiet,
}
use ommo_sdk_external.CallData.Queue.Writing.{
  send, event, step, IsBalanced, step-IsBalanced, deleted_while_owed,
}
use ommo_sdk_external.CallData.Queue.Early.{
  request, written, message, run_moves, from_start, delivers_blank,
}
use ommo_sdk_external.WirelessManager.{WirelessManager}

-- A read that fails.
abbrev broken : Event ℕ
broken = record { op_type = read_op; ok = false; message = none }

abbrev new_reader : Outcome ℕ ℕ
new_reader = opened (new_call_data 0 true)

abbrev running : Outcome ℕ ℕ
running = run_events proceed_reader new_reader (started ∷ arrival 5 ∷ [])

reader-IsOwned_example :
    IsOwned ℕ (
      run_events proceed_reader (opened (new_call_data 0 true)) (started ∷ arrival 5 ∷ broken ∷ []))
reader-IsOwned_example =
    reader-IsOwned ℕ 0 true (started ∷ arrival 5 ∷ broken ∷ []) (refl, (refl, (refl, tt)))

reader_delivers_example :
    delivered {R = ℕ}
      (run_events {W = ℕ} proceed_reader
        (opened (new_call_data 0 true))
        (started ∷ arrival 5 ∷ arrival 6 ∷ [])).actions
    ≡ 5 ∷ 6 ∷ []
reader_delivers_example = reader_delivers ℕ 0 (5 ∷ 6 ∷ [])

cancelled_quiet_example :
    delivered
      (run_events proceed_reader
        (record running { call = (cancel_call {W = ℕ} running.call).0 })
        (arrival 6 ∷ [])).actions
    ≡ delivered running.actions
cancelled_quiet_example = cancelled_quiet ℕ (arrival 6 ∷ []) running

-- A wireless stream that has connected, with a request under way.
abbrev writing : Outcome ℕ ℕ
writing = record {
  call = record { status = processing; listener_active = true; has_handler = true; response = 0 };
  reads = 1;
  writes = 1;
  alive = true;
  actions = [];
}

abbrev idle : Outcome ℕ ℕ
idle = record writing {
  call = record { status = waiting; listener_active = true; has_handler = true; response = 0 };
  writes = 0;
}

writing-IsBalanced : IsBalanced writing
writing-IsBalanced = ground arith

idle-IsBalanced : IsBalanced idle
idle-IsBalanced = ground arith

step-IsBalanced_example : IsBalanced (step idle (send 9))
step-IsBalanced_example = step-IsBalanced idle (send 9) refl idle-IsBalanced

deleted_while_owed_example :
    ((step writing (event broken)).alive ≡ false) × ((step writing (event broken)).writes ≡ 1)
deleted_while_owed_example =
    deleted_while_owed writing broken writing-IsBalanced refl refl refl refl

-- Two requests before the start, the second of them refused; then a message, a completed write,
-- another request and another message.
delivers_blank_example :
    delivered {R = ℕ}
      (run_moves
        (opened (new_call_data {W = ℕ} 3 true))
        (from_start (9 ∷ 8 ∷ []) (message 5 ∷ written ∷ request 7 ∷ message 6 ∷ []))).actions
    ≡ 3 ∷ 5 ∷ 6 ∷ []
delivers_blank_example =
    delivers_blank 3 (9 ∷ 8 ∷ []) (message 5 ∷ written ∷ request 7 ∷ message 6 ∷ [])

abbrev connected_manager : WirelessManager ℕ
connected_manager = record {
  cdata = some idle.call;
  wireless_management_event_user_callback = none;
}
