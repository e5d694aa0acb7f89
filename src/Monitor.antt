-- ===== src/Monitor.antt =====
-- The channel monitor of `ClientManager` and the operations on its wireless managers
-- (src/client_manager.cpp). A call data object is known by its number. The objects of device event
-- streams have no association, so the client manager is not told when the completion queue deletes
-- one; `live` is the list of those that exist, and to call a deleted one is a fault.
pub mod Callbacks
pub mod Laws
pub mod Runs
pub mod Wireless
pub mod Shutdown
use ommo_sdk_external.Prelude.{
  ℕ, zero, suc, ◌+◌, Bool, true, false, not, Option, none, some, List, [], ◌∷◌, ◌++◌, if◌then◌else◌,
  ◌==◌, ◌>>=◌, lookup, change_first,
}
use ommo_sdk_external.ClientManager.{ClientManager}
use ommo_sdk_external.Storage.BaseStation.{
  BaseStationDataStorage, set_data_stream, data_stream_exists,
}
use ommo_sdk_external.CallData.{CallData, new_call_data, cancel_call}
use ommo_sdk_external.WirelessManager.{
  WirelessManager, is_stream_active, set_call_data, cancel_stream,
}
use ommo_sdk_external.Types.{WirelessManagementEvent, WirelessManagementRequest}
use ommo_sdk_external.Proto.Groups
use ommo_sdk_external.Convert.Groups.{proto_to_wireless_management_event}

-- What the functions ask of gRPC and of the user.
pub data Effect : Type 0 where
  open_device_event_stream : ℕ → Effect
  open_base_station_stream : ℕ → Effect
  open_wireless_stream : ℕ → Effect
  cancel : ℕ → Effect
  channel_state_callback : ℕ → ℕ → Effect

-- A wireless manager with the number of its call data object, by which gRPC knows it.
pub record Wrapper : Type 0 where
  pub wireless_manager : WirelessManager WirelessManagementEvent
  pub call_number : ℕ

-- `previous_channel_state` is `none` for -1.
pub record Monitored : Type 0 where
  pub client : ClientManager
  pub base_station_data_storage_list : List (ℕ × BaseStationDataStorage)
  pub wireless_manager_wrapper_list : List (ℕ × Wrapper)
  pub previous_channel_state : Option ℕ
  pub device_event_stream : Option ℕ
  pub channel_state_user_callback : Option ℕ
  pub live : List ℕ

abbrev pub is_live : ℕ → List ℕ → Bool
is_live id [] = false
is_live id (i ∷ is) = let rest = is_live id is in if i == id then true else rest

abbrev pub without_call : ℕ → List ℕ → List ℕ
without_call id [] = []
without_call id (i ∷ is) = let rest = without_call id is in if i == id then rest else i ∷ rest

-- The loop that opens a stream for every storage that has none. `next` is the next number.
unfoldable pub reopen_storages :
    ℕ → List (ℕ × BaseStationDataStorage) → List (ℕ × BaseStationDataStorage) × ℕ × List Effect
reopen_storages next [] = ([], next, [])
reopen_storages next ((i, s) ∷ rest) =
    let active = data_stream_exists s in
    let (storages, last, effects) = reopen_storages (if active then next else suc next) rest in
    (
      (i, if active then s else set_data_stream s (some next)) ∷ storages,
      last,
      if active then effects else open_base_station_stream next ∷ effects,
    )

-- What `response_` of a new stream holds.
abbrev pub blank_event : WirelessManagementEvent
blank_event = record {
  event_type = 0;
  client_request_type = 0;
  siu_uuids = [];
  request_error = 0;
  pairing_information = record { siu_uuid = 0; device_pairing_information = [] };
}

-- `OpenWirelessManagementStream` and `SetCallData`.
unfoldable pub attach_stream : ℕ → Wrapper → Wrapper
attach_stream next w = record {
  wireless_manager =
      set_call_data w.wireless_manager
        (some (new_call_data {W = WirelessManagementRequest} blank_event true).0);
  call_number = next;
}

unfoldable pub reopen_wireless : ℕ → List (ℕ × Wrapper) → List (ℕ × Wrapper) × ℕ × List Effect
unfolding attach_stream
reopen_wireless next [] = ([], next, [])
reopen_wireless next ((i, w) ∷ rest) =
    let active = is_stream_active w.wireless_manager in
    let (wrappers, last, effects) = reopen_wireless (if active then next else suc next) rest in
    (
      (i, if active then w else attach_stream next w) ∷ wrappers,
      last,
      if active then effects else open_wireless_stream next ∷ effects,
    )

-- The branch for a channel that is ready.
unfoldable pub channel_ready : Monitored → Monitored × List Effect
channel_ready s =
    let stream = s.client.next_call in
    let (storages, after, opened) = reopen_storages (suc stream) s.base_station_data_storage_list in
    let (wrappers, last, reopened) = reopen_wireless after s.wireless_manager_wrapper_list in
    (
      record s {
        client = record (s.client) { next_call = last };
        base_station_data_storage_list = storages;
        wireless_manager_wrapper_list = wrappers;
        device_event_stream = some stream;
        live = stream ∷ s.live;
      },
      open_device_event_stream stream ∷ (opened ++ reopened),
    )

-- `device_event_stream_ptr_->CancelCall()`, and the pointer is set to null.
abbrev pub stop_stream : Monitored → Option ℕ → Option (Monitored × List Effect)
stop_stream s none = some (s, [])
stop_stream s (some id) =
    if is_live id s.live
    then some (record s { device_event_stream = none }, cancel id ∷ [])
    else none

-- `if (device_event_stream_ptr_ != nullptr)`
unfoldable pub stop_device_events : Monitored → Option (Monitored × List Effect)
stop_device_events s = stop_stream s s.device_event_stream

abbrev pub clear_devices : Monitored → Monitored
clear_devices s = record s { client = record (s.client) { connected_devices = [] } }

abbrev pub is_state : Option ℕ → ℕ → Bool
is_state none state = false
is_state (some previous) state = previous == state

-- The effect of the user's callback, if there is one.
abbrev pub call_back : Option ℕ → ℕ → List Effect
call_back none state = []
call_back (some callback) state = channel_state_callback callback state ∷ []

module _ (ready : ℕ) where
  -- The branch for any other state of the channel.
  unfoldable pub channel_not_ready : Monitored → Option (Monitored × List Effect)
  channel_not_ready s = stop_device_events s >>= λ r.
      some (if is_state s.previous_channel_state ready then clear_devices r.0 else r.0, r.1)

  unfoldable pub channel_changed : Monitored → ℕ → Option (Monitored × List Effect)
  channel_changed s state =
      (if state == ready then some (channel_ready s) else channel_not_ready s) >>= λ r. some (
        record (r.0) { previous_channel_state = some state },
        r.1 ++ call_back s.channel_state_user_callback state,
      )

  -- One round of the loop of `ChannelMonitor`, in which gRPC reports `state`. `ready` is
  -- `GRPC_CHANNEL_READY`.
  unfoldable pub monitor_round : Monitored → ℕ → Option (Monitored × List Effect)
  monitor_round s state =
      if is_state s.previous_channel_state state then some (s, []) else channel_changed s state

  -- The loop, over the states that gRPC reports, and what follows when it is stopped.
  unfoldable pub channel_monitor : Monitored → List ℕ → Option (Monitored × List Effect)
  channel_monitor s [] = stop_device_events s
  channel_monitor s (state ∷ states) = do
    first ← monitor_round s state
    rest ← channel_monitor first.0 states
    some (rest.0, first.1 ++ rest.1)

-- The completion queue deletes the object of a stream that has ended (CompletionQueueProcessor).
unfoldable pub delete_ended : Monitored → ℕ → Monitored
delete_ended s id = record s { live = without_call id s.live }

-- `CreateWirelessManager`, under the number `number`.
unfoldable pub create_wireless_manager : Monitored → ℕ → Monitored × List Effect
unfolding attach_stream
create_wireless_manager s number =
    let next = s.client.next_call in
    let empty : Wrapper = record {
      wireless_manager = record { cdata = none; wireless_management_event_user_callback = none };
      call_number = 0;
    } in
    (
      record s {
        client = record (s.client) { next_call = suc next };
        wireless_manager_wrapper_list =
            s.wireless_manager_wrapper_list ++ ((number, attach_stream next empty) ∷ []);
      },
      open_wireless_stream next ∷ [],
    )

-- `CancelStream`, which is also what `~WirelessManager` does first.
unfoldable pub cancel_manager : Wrapper → Wrapper × List Effect
cancel_manager w = elim w.wireless_manager.cdata [
  | none ↦ (w, [])
  | some call ↦ (
    record w { wireless_manager = (cancel_stream w.wireless_manager).0 },
    cancel w.call_number ∷ [],
  )
]

-- The loop of `DeleteWirelessManager`, with fuel for its rounds: `none` means that it ran out. Only
-- the list shares in a wrapper, and only the wrapper in its manager, so `erase` destroys both.
unfoldable pub delete_loop : ℕ → List (ℕ × Wrapper) → ℕ → Option (List (ℕ × Wrapper) × List Effect)
unfolding cancel_manager
delete_loop zero wrappers number = none
delete_loop (suc fuel) [] number = some ([], [])
delete_loop (suc fuel) ((i, w) ∷ rest) number =
    let again = (do r ← delete_loop fuel rest number; some ((i, w) ∷ r.0, r.1)) in
    if i == number then some (rest, (cancel_manager w).1) else again

-- `DeleteWirelessManager` of the manager with that number. A manager that is not on the list has
-- been destroyed: to call it is a fault.
unfoldable pub delete_wireless_manager : ℕ → Monitored → ℕ → Option (Monitored × List Effect)
unfolding delete_loop cancel_manager
delete_wireless_manager fuel s number = elim (lookup number s.wireless_manager_wrapper_list) [
  | none ↦ none
  | some w ↦ do
    r ←
        delete_loop fuel
          (change_first number (λ o. (cancel_manager o).0) s.wireless_manager_wrapper_list) number
    some (record s { wireless_manager_wrapper_list = r.0 }, (cancel_manager w).1 ++ r.1)
]

-- `WirelessManager::impl::HandleEvent`: the user's callback is given the converted event.
unfoldable pub handle_event :
    WirelessManager WirelessManagementEvent
    → Groups.WirelessManagementEvent
    → Option (ℕ × WirelessManagementEvent)
unfolding proto_to_wireless_management_event
handle_event m event = elim m.wireless_management_event_user_callback [
  | none ↦ none
  | some callback ↦ some (callback, proto_to_wireless_management_event event)
]
