-- ===== src/Monitor/Shutdown.antt =====
-- `Shutdown` and `Start` of the client manager (src/client_manager.cpp): what the shutdown cancels,
-- for one thread, and the locks and the join, for the two threads that share them.
pub mod Deadlock
pub mod Laws
use ommo_sdk_external.Prelude.{
  ℕ, suc, Bool, true, false, Option, none, some, List, [], ◌∷◌, ◌++◌, ◌≡◌, ◌>>=◌, if◌then◌else◌,
}
use ommo_sdk_external.ClientManager.{ClientManager}
use ommo_sdk_external.DataManager.{DataManager}
use ommo_sdk_external.DataManager.Streams.{cancel_all_data_streams, cancel_data_frame_stream}
use ommo_sdk_external.Types.{device_data, data_frame}
use ommo_sdk_external.Storage.BaseStation.{
  BaseStationDataStorage, cancel_data_stream, remove_data_stream,
}
use ommo_sdk_external.Monitor.{Effect, cancel, Monitored, stop_device_events}

abbrev pub cancel_each : List ℕ → List Effect
cancel_each [] = []
cancel_each (c ∷ cs) = cancel c ∷ cancel_each cs

-- The streams of a data manager: those of its devices, or that of its data frames.
abbrev pub manager_streams : DataManager → List ℕ
manager_streams m = elim m.stream_type [
  | device_data ↦ cancel_all_data_streams m
  | data_frame ↦ (cancel_data_frame_stream m).0
]

unfoldable pub cancel_managers : List (ℕ × DataManager) → List Effect
cancel_managers [] = []
cancel_managers ((i, m) ∷ managers) = cancel_each (manager_streams m) ++ cancel_managers managers

-- A list with the call, if there is one.
abbrev pub call_of : Option ℕ → List ℕ
call_of none = []
call_of (some call) = call ∷ []

unfoldable pub cancel_storages :
    List (ℕ × BaseStationDataStorage) → List (ℕ × BaseStationDataStorage) × List Effect
cancel_storages [] = ([], [])
cancel_storages ((i, s) ∷ storages) =
    let (rest, effects) = cancel_storages storages in
    ((i, remove_data_stream s) ∷ rest, cancel_each (call_of (cancel_data_stream s)) ++ effects)

-- `Shutdown`. The monitor, which the flag stops, cancels the stream of device events; the list of
-- data managers is cleared last.
unfoldable pub shutdown : Monitored → Option (Monitored × List Effect)
unfolding cancel_managers cancel_storages
shutdown s =
    let (storages, effects) = cancel_storages s.base_station_data_storage_list in
    stop_device_events (record s { base_station_data_storage_list = storages }) >>= λ r. some (
      record (r.0) { client = record (r.0.client) { data_manager_list = [] } },
      cancel_managers s.client.data_manager_list ++ (effects ++ r.1),
    )
