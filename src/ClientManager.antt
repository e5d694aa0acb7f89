-- ===== src/ClientManager.antt =====
-- `ClientManager` (include/client_manager.h, src/client_manager.cpp): the devices that the service
-- has reported and the data managers of the open requests. A shared pointer to a data manager is
-- known by its number, a call data object by another. What a function asks of gRPC is its list of
-- effects. The iteration over an unordered map is in the order of the keys.
pub mod Serving
pub mod Racing
use ommo_sdk_external.Prelude.{
  ℕ, suc, Bool, true, false, Option, none, some, List, [], ◌∷◌, ◌++◌, if◌then◌else◌, ◌==◌, is_some,
  lookup, insert, erase,
}
use ommo_sdk_external.Convert.{proto_to_device_descriptor, proto_to_tracking_device_event}
use ommo_sdk_external.DataManager.{
  DataManager, new_data_manager, default_buffer_size, is_device_data_requested, hash_device,
  add_device_storage, remove_device_storage_of, is_storage_available,
}
use ommo_sdk_external.DataManager.Streams.{
  add_data_stream, remove_data_stream, data_stream_exists, cancel_data_stream,
  cancel_all_data_streams, clear_data_streams, cancel_data_frame_stream, remove_data_frame_stream,
  set_data_frame_stream,
}
use ommo_sdk_external.Proto
use ommo_sdk_external.Types.{
  DeviceId, DeviceDescriptor, TrackingDeviceEvent, DataStreamType, device_data, data_frame,
  DataRequest,
}

-- One entry of a `DataFrameStreamRequest`; with the two settings, a `TrackingDeviceDataStreamRequest`.
pub record RequestedDevice : Type 0 where
  pub siu_uuid : ℕ
  pub port_id : ℕ
  pub field_mask : ℕ
  pub include_raw_sensor_data : Bool
  pub requested_fusion_mode : ℕ

pub record StreamSettings : Type 0 where
  pub report_interval : ℕ
  pub buffer_depth : ℕ

-- A stream is opened under the number of its new call data object, or a call is cancelled.
pub data Effect : Type 0 where
  open_device_data_stream : ℕ → StreamSettings → RequestedDevice → Effect
  open_data_frame_stream : ℕ → StreamSettings → List RequestedDevice → Effect
  cancel : ℕ → Effect

-- What a function makes of a data manager; `next_call` is the number of the next call data object.
pub record Updated : Type 0 where
  pub manager : DataManager
  pub next_call : ℕ
  pub effects : List Effect

abbrev pub device_id_of : DeviceDescriptor → DeviceId
device_id_of device = record { siu_uuid = device.siu_uuid; port_id = device.port_id }

abbrev pub settings_of : DataRequest → StreamSettings
settings_of r = record { report_interval = r.report_interval; buffer_depth = r.buffer_depth }

abbrev pub requested_device : DataRequest → DeviceDescriptor → RequestedDevice
requested_device r device = record {
  siu_uuid = device.siu_uuid;
  port_id = device.port_id;
  field_mask = r.data_field_mask;
  include_raw_sensor_data = r.include_raw_sensor_data;
  requested_fusion_mode = r.requested_fusion_mode;
}

abbrev pub cancels : List ℕ → List Effect
cancels [] = []
cancels (c ∷ cs) = cancel c ∷ cancels cs

-- `if (!IsStorageAvailable(device)) AddDeviceStorage(device)`.
abbrev pub with_storage : DataManager → DeviceDescriptor → DataManager
with_storage m device =
    if is_storage_available m (hash_device device)
    then m
    else add_device_storage m device default_buffer_size

-- `if (!DataStreamExists(device_id))`: the stream is opened and its call data saved.
unfoldable pub with_stream : ℕ → DataManager → DeviceDescriptor → Updated
with_stream next m device =
    if data_stream_exists m (device_id_of device)
    then record { manager = m; next_call = next; effects = [] }
    else record {
      manager = (add_data_stream m (device_id_of device) next).0;
      next_call = suc next;
      effects =
          open_device_data_stream next (settings_of m.request) (requested_device m.request device)
          ∷ [];
    }

unfoldable pub without_device : ℕ → DataManager → DeviceDescriptor → Updated
without_device next m device = record {
  manager =
      remove_device_storage_of (remove_data_stream m (device_id_of device)).0 (device_id_of device);
  next_call = next;
  effects = cancels (cancel_data_stream m (device_id_of device)).0;
}

unfoldable pub update_device_data_stream : ℕ → DataManager → DeviceDescriptor → Bool → Updated
unfolding with_stream without_device
update_device_data_stream next m device device_connected =
    if is_device_data_requested m (device_id_of device)
    then if device_connected
      then with_stream next (with_storage m device) device
      else without_device next m device
    else record { manager = m; next_call = next; effects = [] }

unfoldable pub connect_each : ℕ → DataManager → List (ℕ × DeviceDescriptor) → Updated
unfolding update_device_data_stream
connect_each next m [] = record { manager = m; next_call = next; effects = [] }
connect_each next m ((k, device) ∷ devices) =
    let first = update_device_data_stream next m device true in
    let rest = connect_each first.next_call first.manager devices in
    record rest { effects = first.effects ++ rest.effects }

unfoldable pub open_device_data_streams : ℕ → DataManager → List (ℕ × DeviceDescriptor) → Updated
unfolding connect_each
open_device_data_streams next m connected_devices = elim m.stream_type [
  | device_data ↦ connect_each next m connected_devices
  | data_frame ↦ record { manager = m; next_call = next; effects = [] }
]

-- The loop of OpenDataFrame: the storages it creates and the devices it puts in the request.
collect_each : DataManager → List (ℕ × DeviceDescriptor) → DataManager × List RequestedDevice
collect_each m [] = (m, [])
collect_each m ((k, device) ∷ devices) =
    let wanted = is_device_data_requested m (device_id_of device) in
    let (n, rest) = collect_each (if wanted then with_storage m device else m) devices in
    (n, if wanted then requested_device m.request device ∷ rest else rest)

unfoldable pub open_data_frame : ℕ → DataManager → List (ℕ × DeviceDescriptor) → Updated
unfolding collect_each
open_data_frame next m connected_devices = elim m.stream_type [
  | device_data ↦ record { manager = m; next_call = next; effects = [] }
  | data_frame ↦
      let (collected, devices) = collect_each m connected_devices in
      record {
        manager = set_data_frame_stream collected (some next);
        next_call = suc next;
        effects = open_data_frame_stream next (settings_of m.request) devices ∷ [];
      }
]

unfoldable pub update_data_frame_stream :
    ℕ → DataManager → List (ℕ × DeviceDescriptor) → DeviceDescriptor → Bool → Updated
unfolding open_data_frame
update_data_frame_stream next m connected_devices device device_connected =
    if is_device_data_requested m (device_id_of device)
    then (let kept =
          if device_connected then m else remove_device_storage_of m (device_id_of device) in
        let opened = open_data_frame next (remove_data_frame_stream kept) connected_devices in
        record opened { effects = cancels (cancel_data_frame_stream kept).0 ++ opened.effects })
    else record { manager = m; next_call = next; effects = [] }

pub record ClientManager : Type 0 where
  pub connected_devices : List (ℕ × DeviceDescriptor)
  pub data_manager_list : List (ℕ × DataManager)
  pub next_manager : ℕ
  pub next_call : ℕ
  pub device_event_user_callback : Option ℕ

-- The part of DeviceEventProcessor that keeps the devices.
unfoldable pub update_connected_devices :
    List (ℕ × DeviceDescriptor) → Proto.TrackingDeviceEvent → List (ℕ × DeviceDescriptor)
update_connected_devices devices device_event =
    let event = proto_to_tracking_device_event device_event in
    let device_hash = hash_device event.device in
    if is_some (lookup device_hash devices)
    then if device_event.connected
      then insert device_hash (proto_to_device_descriptor device_event.device) devices
      else erase device_hash devices
    else if device_event.connected
    then insert device_hash (proto_to_device_descriptor device_event.device) devices
    else devices

-- One round of its loop over the data managers.
unfoldable pub update_manager :
    ℕ → DataManager → List (ℕ × DeviceDescriptor) → DeviceDescriptor → Bool → Updated
unfolding update_device_data_stream update_data_frame_stream
update_manager next m connected_devices device device_connected = elim m.stream_type [
  | device_data ↦ update_device_data_stream next m device device_connected
  | data_frame ↦ update_data_frame_stream next m connected_devices device device_connected
]

unfoldable pub update_each :
    ℕ
    → List (ℕ × DataManager)
    → List (ℕ × DeviceDescriptor)
    → DeviceDescriptor
    → Bool
    → List (ℕ × DataManager) × ℕ × List Effect
unfolding update_manager
update_each next [] connected_devices device device_connected = ([], next, [])
update_each next ((i, m) ∷ managers) connected_devices device device_connected =
    let first = update_manager next m connected_devices device device_connected in
    let (rest, last, effects) =
      update_each first.next_call managers connected_devices device device_connected in
    ((i, first.manager) ∷ rest, last, first.effects ++ effects)

-- The last part of the result is the call of the user's callback.
unfoldable pub device_event_processor :
    ClientManager
    → Proto.TrackingDeviceEvent
    → ClientManager × List Effect × Option (ℕ × TrackingDeviceEvent)
unfolding update_connected_devices update_each
device_event_processor c device_event =
    let event = proto_to_tracking_device_event device_event in
    let devices = update_connected_devices c.connected_devices device_event in
    let (managers, next, effects) =
      update_each c.next_call c.data_manager_list devices event.device device_event.connected in
    (
      record c { connected_devices = devices; data_manager_list = managers; next_call = next },
      effects,
      elim c.device_event_user_callback [ none ↦ none | some callback ↦ some (callback, event) ],
    )

-- `RequestDeviceData`, with the number of the new data manager.
unfoldable pub request_device_data : ClientManager → DataRequest → ClientManager × List Effect × ℕ
unfolding open_device_data_streams
request_device_data c request =
    let opened =
      open_device_data_streams c.next_call (new_data_manager request device_data)
        c.connected_devices in
    (
      record c {
        data_manager_list = c.data_manager_list ++ ((c.next_manager, opened.manager) ∷ []);
        next_manager = suc c.next_manager;
        next_call = opened.next_call;
      },
      opened.effects,
      c.next_manager,
    )

unfoldable pub request_data_frame : ClientManager → DataRequest → ClientManager × List Effect × ℕ
unfolding open_data_frame
request_data_frame c request =
    let opened =
      open_data_frame c.next_call (new_data_manager request data_frame) c.connected_devices in
    (
      record c {
        data_manager_list = c.data_manager_list ++ ((c.next_manager, opened.manager) ∷ []);
        next_manager = suc c.next_manager;
        next_call = opened.next_call;
      },
      opened.effects,
      c.next_manager,
    )

-- What CloseRequest cancels for a data manager.
abbrev pub streams_cancelled : DataManager → List Effect
streams_cancelled m = elim m.stream_type [
  | device_data ↦ cancels (cancel_all_data_streams m)
  | data_frame ↦ cancels (cancel_data_frame_stream m).0
]

-- The removal takes the first entry with the number.
unfoldable pub remove_manager : ℕ → List (ℕ × DataManager) → List (ℕ × DataManager)
remove_manager number [] = []
remove_manager number ((i, m) ∷ managers) =
    let rest = remove_manager number managers in if i == number then managers else (i, m) ∷ rest

-- `CloseRequest`. The source also clears the streams of the data manager, which leaves the list here,
-- and is then known to nobody but the caller, who drops it (ClientContext). A data manager that is
-- not in the list has been closed before and has no streams left.
unfoldable pub close_request : ClientManager → ℕ → ClientManager × List Effect
unfolding remove_manager
close_request c number = elim (lookup number c.data_manager_list) [
  | none ↦ (c, [])
  | some m ↦ (
    record c { data_manager_list = remove_manager number c.data_manager_list },
    streams_cancelled m,
  )
]
