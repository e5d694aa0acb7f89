-- ===== src/Monitor/Shutdown/Laws.antt =====
-- What `Shutdown` cancels and what it leaves.
use ommo_sdk_external.Prelude.{
  ℕ, ◌≡◌, refl, ◌∙◌, ap, ap₂, false, none, some, List, [], ◌∷◌, ◌++◌, Option-cases, inl, inr,
}
use ommo_sdk_external.DataManager.{DataManager}
use ommo_sdk_external.Storage.BaseStation.{
  BaseStationDataStorage, cancel_data_stream, remove_data_stream, data_stream_exists,
}
use ommo_sdk_external.Monitor.{Effect, cancel, Monitored, stop_device_events}
use ommo_sdk_external.Monitor.Laws.{cancelled, cancelled-append, held, IsWatching}
use ommo_sdk_external.Monitor.Shutdown.{
  cancel_each, manager_streams, cancel_managers, call_of, cancel_storages, shutdown,
}

-- The streams of all data managers, and of all storages.
abbrev pub all_managers : List (ℕ × DataManager) → List ℕ
all_managers [] = []
all_managers ((i, m) ∷ managers) = manager_streams m ++ all_managers managers

abbrev pub all_storages : List (ℕ × BaseStationDataStorage) → List ℕ
all_storages [] = []
all_storages ((i, s) ∷ storages) = call_of s.base_station_stream ++ all_storages storages

-- No storage has a stream.
abbrev pub NoneStreaming : List (ℕ × BaseStationDataStorage) → Type 0
NoneStreaming [] = Unit {0}
NoneStreaming ((i, s) ∷ rest) = (data_stream_exists s ≡ false) × NoneStreaming rest

cancelled-cancel_each : (cs : List ℕ) → cancelled (cancel_each cs) ≡ cs
cancelled-cancel_each [] = refl
cancelled-cancel_each (c ∷ cs) = ap (λ r. c ∷ r) (cancelled-cancel_each cs)

cancel_managers_lem : (l : List (ℕ × DataManager)) → cancelled (cancel_managers l) ≡ all_managers l
unfolding cancel_managers
cancel_managers_lem [] = refl
cancel_managers_lem ((i, m) ∷ l) =
    cancelled-append (cancel_each (manager_streams m)) (cancel_managers l)
    ∙ rw (cancelled-cancel_each (manager_streams m), cancel_managers_lem l) refl

cancel_storages_lem :
    (l : List (ℕ × BaseStationDataStorage))
    → (cancelled (cancel_storages l).1 ≡ all_storages l) × NoneStreaming (cancel_storages l).0
unfolding cancel_storages cancel_data_stream remove_data_stream data_stream_exists
cancel_storages_lem [] = (refl, tt)
cancel_storages_lem ((i, s) ∷ l) =
    let (all, quiet) = cancel_storages_lem l in
    (
      cancelled-append (cancel_each (call_of s.base_station_stream)) (cancel_storages l).1
          ∙ rw (cancelled-cancel_each (call_of s.base_station_stream), all) refl,
      (refl, quiet),
    )

shutdown_effects :
    (managers : List (ℕ × DataManager)) (storages : List (ℕ × BaseStationDataStorage))
    (es : List Effect)
    → cancelled (cancel_managers managers ++ ((cancel_storages storages).1 ++ es))
      ≡ all_managers managers ++ (all_storages storages ++ cancelled es)
shutdown_effects managers storages es =
    cancelled-append (cancel_managers managers) ((cancel_storages storages).1 ++ es)
    ∙ ap₂ (λ a b. a ++ b) (cancel_managers_lem managers)
        (cancelled-append (cancel_storages storages).1 es
          ∙ ap (λ a. a ++ cancelled es) (cancel_storages_lem storages).0)

-- While the object of the device event stream exists, Shutdown ends without a fault. It cancels
-- exactly the streams of the data managers, then those of the base station storages, then that of
-- the device events; afterwards there is no data manager, and no stream of a storage or of device
-- events. The wireless managers stay as they were, and none of their calls is cancelled.
pub shutdown_lem :
    (ready : ℕ) (s : Monitored)
    → IsWatching ready s
    → (r : Monitored × List Effect) × (shutdown s ≡ some r)
      × (cancelled r.1
          ≡ all_managers s.client.data_manager_list
            ++ (all_storages s.base_station_data_storage_list ++ held s.device_event_stream))
      × (r.0.client.data_manager_list ≡ [])
      × NoneStreaming r.0.base_station_data_storage_list
      × (r.0.device_event_stream ≡ none)
      × (r.0.wireless_manager_wrapper_list ≡ s.wireless_manager_wrapper_list)
unfolding shutdown stop_device_events
shutdown_lem ready s w =
    let managers = s.client.data_manager_list in
    let storages = s.base_station_data_storage_list in
    let quiet = (cancel_storages_lem storages).1 in
    let t : Monitored = record s {
      base_station_data_storage_list = (cancel_storages storages).0;
    } in
    let cleared : Monitored → Monitored =
      λ q. record q { client = record (q.client) { data_manager_list = [] } } in
    let effects : List Effect → List Effect =
      λ es. cancel_managers managers ++ ((cancel_storages storages).1 ++ es) in
    elim (Option-cases s.device_event_stream) [
      | inl e ↦ (
        (cleared t, effects []),
        rw e refl,
        shutdown_effects managers storages [] ∙ rw e refl,
        refl,
        quiet,
        e,
        refl,
      )
      | inr (id, e) ↦ (
        (cleared (record t { device_event_stream = none }), effects (cancel id ∷ [])),
        rw (e, (w.watched id e).0) refl,
        shutdown_effects managers storages (cancel id ∷ []) ∙ rw e refl,
        refl,
        quiet,
        refl,
        refl,
      )
    ]
