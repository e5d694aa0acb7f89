-- ===== src/Monitor/Runs.antt =====
-- The channel monitor over any sequence of states, what it restores when the service is back, and
-- the pointer that it keeps to a deleted object.
use ommo_sdk_external.Prelude.{
  ℕ, suc, ◌≡◌, ◌≢◌, refl, sym, ap, ◌∙◌, arith, true, false, Option, none, some, List, [], ◌∷◌, ◌++◌,
  if◌then◌else◌, ◌==◌, Bool-cases, inl, inr, ==_refl, append_assoc, append-nil,
}
use ommo_sdk_external.Storage.BaseStation.{
  BaseStationDataStorage, set_data_stream, data_stream_exists,
}
use ommo_sdk_external.WirelessManager.{is_stream_active, set_call_data}
use ommo_sdk_external.CallData.{new_call_data}
use ommo_sdk_external.Monitor.{
  Effect, Wrapper, Monitored, is_live, without_call, reopen_storages, reopen_wireless,
  channel_ready, stop_device_events, is_state, call_back, channel_not_ready, channel_changed,
  monitor_round, channel_monitor, delete_ended,
}
use ommo_sdk_external.Monitor.Laws.{
  callbacks, event_streams, cancelled, changes, held, IsWatching, monitor_round_lem, stop_lem,
  callbacks-append, event_streams-append, cancelled-append,
}

called_lem :
    (previous : Option ℕ) (state : ℕ) (states : List ℕ) (callback : ℕ) {first rest : List ℕ}
    → first ≡ (if is_state previous state then [] else state ∷ [])
    → rest ≡ changes (some state) states
    → first ++ rest ≡ changes previous (state ∷ states)
called_lem previous state states callback a b = elim (Bool-cases (is_state previous state)) [
  | inl same ↦ rw (a, b, same) refl
  | inr other ↦ rw (a, b, other) refl
]

-- While the objects of device event streams exist as long as the monitor uses them, it ends
-- without a fault whatever states the channel goes through. It has called the registered callback
-- of the user, which is taken to be there, with each state that differs from the one before, in
-- order. The device event streams that it cancelled are the one that was open before and those
-- that it opened, in order, and none is left.
pub channel_monitor_lem :
    (ready : ℕ) (states : List ℕ) (s : Monitored) (callback : ℕ)
    → IsWatching ready s
    → s.channel_state_user_callback ≡ some callback
    → (r : Monitored × List Effect) × (channel_monitor ready s states ≡ some r)
      × (callbacks r.1 ≡ changes s.previous_channel_state states)
      × (cancelled r.1 ≡ held s.device_event_stream ++ event_streams r.1)
      × (r.0.device_event_stream ≡ none)
unfolding channel_monitor
channel_monitor_lem ready [] s callback w c =
    let (r, stopped, gone, same, calls, streams, ended) = stop_lem ready s w in
    (r, stopped, calls, rw (ended, streams) (sym (append-nil (held s.device_event_stream))), gone)
channel_monitor_lem ready (state ∷ states) s callback w c =
    let (r1, e1, ok) = monitor_round_lem ready s w state in
    let (r2, e2, calls, balance, gone) =
      channel_monitor_lem ready states r1.0 callback ok.watching (ok.callback ∙ c) in
    (
      (r2.0, r1.1 ++ r2.1),
      rw (e1, e2) refl,
      callbacks-append r1.1 r2.1
          ∙ called_lem s.previous_channel_state state states callback
              (ok.called
                ∙ ap
                    (λ o.
                      if is_state s.previous_channel_state state
                      then []
                      else callbacks (call_back o state))
                    c)
              (calls ∙ ap (λ o. changes o states) ok.now),
      rw (cancelled-append r1.1 r2.1, event_streams-append r1.1 r2.1, balance)
          (sym (append_assoc (cancelled r1.1) (held r1.0.device_event_stream) (event_streams r2.1))
            ∙ ap (λ l. l ++ event_streams r2.1) (sym ok.balance)
            ∙ append_assoc (held s.device_event_stream) (event_streams r1.1) (event_streams r2.1)),
      gone,
    )

-- Every storage has a stream, and every wireless manager an active one.
abbrev pub AllStreaming : List (ℕ × BaseStationDataStorage) → Type 0
AllStreaming [] = Unit {0}
AllStreaming ((i, s) ∷ rest) = (data_stream_exists s ≡ true) × AllStreaming rest

abbrev pub AllActive : List (ℕ × Wrapper) → Type 0
AllActive [] = Unit {0}
AllActive ((i, w) ∷ rest) = (is_stream_active w.wireless_manager ≡ true) × AllActive rest

abbrev pub numbers : {A : Type 0} → List (ℕ × A) → List ℕ
numbers [] = []
numbers ((i, a) ∷ rest) = i ∷ numbers rest

reopen_storages-AllStreaming :
    (next : ℕ) (l : List (ℕ × BaseStationDataStorage))
    → AllStreaming (reopen_storages next l).0 × (numbers (reopen_storages next l).0 ≡ numbers l)
unfolding reopen_storages data_stream_exists set_data_stream
reopen_storages-AllStreaming next [] = (tt, refl)
reopen_storages-AllStreaming next ((i, s) ∷ rest) = elim (Bool-cases (data_stream_exists s)) [
  | inl e ↦
      rw e (
        let (all, same) = reopen_storages-AllStreaming next rest in
        ((e, all), ap (λ l. i ∷ l) same))
  | inr e ↦ rw e (
      let (all, same) = reopen_storages-AllStreaming (suc next) rest in
      ((refl, all), ap (λ l. i ∷ l) same))
]

reopen_wireless-AllActive :
    (next : ℕ) (l : List (ℕ × Wrapper))
    → AllActive (reopen_wireless next l).0 × (numbers (reopen_wireless next l).0 ≡ numbers l)
unfolding reopen_wireless is_stream_active set_call_data new_call_data
reopen_wireless-AllActive next [] = (tt, refl)
reopen_wireless-AllActive next ((i, w) ∷ rest) =
    elim (Bool-cases (is_stream_active w.wireless_manager)) [
      | inl e ↦ rw e (
          let (all, same) = reopen_wireless-AllActive next rest in ((e, all), ap (λ l. i ∷ l) same))
      | inr e ↦ rw e (
          let (all, same) = reopen_wireless-AllActive (suc next) rest in
          ((refl, all), ap (λ l. i ∷ l) same))
    ]

-- When the channel becomes ready, the round of the monitor ends with a device event stream, with a
-- stream for each base station storage and with an active stream for each wireless manager; none of
-- them is added or removed.
pub monitor_round-restores :
    (ready : ℕ) (s : Monitored)
    → is_state s.previous_channel_state ready ≡ false
    → (r : Monitored × List Effect) × (monitor_round ready s ready ≡ some r)
      × (r.0.device_event_stream ≡ some s.client.next_call)
      × AllStreaming r.0.base_station_data_storage_list
      × (numbers r.0.base_station_data_storage_list ≡ numbers s.base_station_data_storage_list)
      × AllActive r.0.wireless_manager_wrapper_list
      × (numbers r.0.wireless_manager_wrapper_list ≡ numbers s.wireless_manager_wrapper_list)
unfolding monitor_round channel_changed channel_ready
monitor_round-restores ready s other =
    let l = s.base_station_data_storage_list in
    let next = suc s.client.next_call in
    let a = reopen_storages-AllStreaming next l in
    let b = reopen_wireless-AllActive (reopen_storages next l).1 s.wireless_manager_wrapper_list in
    (
      (
        record ((channel_ready s).0) { previous_channel_state = some ready },
        (channel_ready s).1 ++ call_back s.channel_state_user_callback ready,
      ),
      rw (other, ==_refl ready) refl,
      refl,
      a.0,
      a.1,
      b.0,
      b.1,
    )

not_live-without : (id : ℕ) (l : List ℕ) → is_live id (without_call id l) ≡ false
not_live-without id [] = refl
not_live-without id (i ∷ l) = ground (arith, not_live-without id l)

-- If the service ends the device event stream, so that the completion queue deletes its object,
-- before the monitor sees that the channel is not ready, then the monitor cancels the call of the
-- deleted object.
pub monitor_round-dangles :
    (ready : ℕ) (s : Monitored) (state : ℕ)
    → is_state s.previous_channel_state ready ≡ false
    → state ≢ ready
    → (r : Monitored × List Effect) × (monitor_round ready s ready ≡ some r)
      × (monitor_round ready (delete_ended r.0 s.client.next_call) state ≡ none)
unfolding monitor_round channel_changed channel_ready channel_not_ready stop_device_events
    delete_ended
monitor_round-dangles ready s state other ne =
    let differs : (ready == state) ≡ false = ground arith in
    let waits : (state == ready) ≡ false = ground arith in
    let r : Monitored × List Effect = (
      record ((channel_ready s).0) { previous_channel_state = some ready },
      (channel_ready s).1 ++ call_back s.channel_state_user_callback ready,
    ) in
    (
      r,
      rw (other, ==_refl ready) refl,
      rw (differs, waits, ==_refl s.client.next_call, not_live-without s.client.next_call s.live)
          refl,
    )
