-- ===== src/DataManager.antt =====
-- `DataManager` (include/data_manager.h, src/data_manager.cpp): the storages and the streams of one
-- request. Each function holds one lock throughout, so it is one step. A call data object and a
-- callback of the user are known by numbers; the calls of CancelCall and of callbacks are results.
pub mod Routing
pub mod Streams
use ommo_sdk_external.Prelude.{
  ℕ, Bool, true, false, ◌&&◌, ◌||◌, Option, none, some, List, [], ◌∷◌, if◌then◌else◌, ◌==◌, ◌>>=◌,
  is_some, lookup, insert, erase, map,
}
use ommo_sdk_external.Buffer.{DataResponse, no_packets}
use ommo_sdk_external.Convert.{proto_to_tracking_device_data, proto_to_data_frame}
use ommo_sdk_external.Hash.{hash, hash_device_id}
use ommo_sdk_external.Proto
use ommo_sdk_external.Storage.Device.{DeviceDataStorage}
use ommo_sdk_external.Storage.Device
use ommo_sdk_external.Types.{
  DeviceId, DeviceDescriptor, TrackingDeviceData, DataStreamType, device_data, data_frame,
  DataRequest,
}

pub record DataManager : Type 0 where
  pub device_data_map : List (ℕ × DeviceDataStorage)
  pub device_data_streams : List (ℕ × ℕ)
  pub dataframe_stream : Option ℕ
  pub device_data_user_callback : Option ℕ
  pub data_frame_user_callback : Option ℕ
  pub request : DataRequest
  pub stream_type : DataStreamType

-- A call of a callback of the user.
pub data UserCall : Type 0 where
  device_data_call : ℕ → TrackingDeviceData → UserCall
  data_frame_call : ℕ → List TrackingDeviceData → UserCall

unfoldable pub new_data_manager : DataRequest → DataStreamType → DataManager
new_data_manager request stream_type = record {
  device_data_map = [];
  device_data_streams = [];
  dataframe_stream = none;
  device_data_user_callback = none;
  data_frame_user_callback = none;
  request = request;
  stream_type = stream_type;
}

-- The default `buffer_size` of AddDeviceStorage.
abbrev pub default_buffer_size : ℕ
default_buffer_size = 500

abbrev pub requested_in : DeviceId → List DeviceId → Bool
requested_in device_id [] = false
requested_in device_id (d ∷ ds) =
    (device_id.siu_uuid == d.siu_uuid && device_id.port_id == d.port_id)
    || requested_in device_id ds

unfoldable pub is_device_data_requested : DataManager → DeviceId → Bool
is_device_data_requested m device_id = elim m.request.requested_devices [
  | [] ↦ true
  | d ∷ ds ↦ requested_in device_id (d ∷ ds)
]

abbrev storage_id : ℕ × DeviceDataStorage → DeviceId
storage_id (k, s) = record { siu_uuid = s.device.siu_uuid; port_id = s.device.port_id }

unfoldable pub get_device_storage_list : DataManager → List DeviceId
get_device_storage_list m = map storage_id m.device_data_map

abbrev pub hash_device : DeviceDescriptor → ℕ
hash_device device = hash device.siu_uuid device.port_id

unfoldable pub add_device_storage : DataManager → DeviceDescriptor → ℕ → DataManager
add_device_storage m device buffer_size =
    if is_some (lookup (hash_device device) m.device_data_map) then m else record m {
      device_data_map =
          insert (hash_device device) (Device.new_storage device buffer_size) m.device_data_map;
    }

-- `RemoveDeviceStorage(hash)`, and the overload on a device id.
unfoldable pub remove_device_storage : DataManager → ℕ → DataManager
remove_device_storage m h = record m { device_data_map = erase h m.device_data_map }

unfoldable pub remove_device_storage_of : DataManager → DeviceId → DataManager
unfolding remove_device_storage
remove_device_storage_of m device_id = remove_device_storage m (hash_device_id device_id)

unfoldable pub is_storage_available : DataManager → ℕ → Bool
is_storage_available m h = is_some (lookup h m.device_data_map)

-- `storage->second->PushData(packet)` if there is a storage under the packet's hash.
unfoldable pub push_to :
    List (ℕ × DeviceDataStorage) → Proto.TrackingDeviceData → Option (List (ℕ × DeviceDataStorage))
push_to storages packet = elim (lookup (hash packet.siu_uuid packet.port_id) storages) [
  | none ↦ some storages
  | some s ↦ Device.push_data s packet >>= λ r.
      some (insert (hash packet.siu_uuid packet.port_id) r.0 storages)
]

unfoldable pub update_device_data :
    DataManager → Proto.TrackingDeviceData → Option (DataManager × List UserCall)
unfolding push_to
update_device_data m packet = do
  storages ← push_to m.device_data_map packet
  let pushed = record m { device_data_map = storages }
  elim m.device_data_user_callback [
    | none ↦ some (pushed, [])
    | some callback ↦ proto_to_tracking_device_data packet >>= λ d.
        some (pushed, device_data_call callback d ∷ [])
  ]

unfoldable pub push_each :
    List (ℕ × DeviceDataStorage)
    → List Proto.TrackingDeviceData
    → Option (List (ℕ × DeviceDataStorage))
unfolding push_to
push_each storages [] = some storages
push_each storages (p ∷ ps) = do pushed ← push_to storages p; push_each pushed ps

unfoldable pub update_data_frame :
    DataManager → Proto.DataFrame → Option (DataManager × List UserCall)
unfolding push_each
update_data_frame m packet = do
  storages ← push_each m.device_data_map packet.device_data
  let pushed = record m { device_data_map = storages }
  elim m.data_frame_user_callback [
    | none ↦ some (pushed, [])
    | some callback ↦
        proto_to_data_frame packet >>= λ f. some (pushed, data_frame_call callback f ∷ [])
  ]

-- An empty `std::function` is `none`.
unfoldable pub register_tracking_device_data_callback : DataManager → Option ℕ → DataManager
register_tracking_device_data_callback m callback = elim m.stream_type [
  | device_data ↦ record m { device_data_user_callback = callback }
  | data_frame ↦ m
]

unfoldable pub reset_tracking_device_data_callback : DataManager → DataManager
reset_tracking_device_data_callback m = record m { device_data_user_callback = none }

unfoldable pub register_data_frame_callback : DataManager → Option ℕ → DataManager
register_data_frame_callback m callback = elim m.stream_type [
  | device_data ↦ m
  | data_frame ↦ record m { data_frame_user_callback = callback }
]

unfoldable pub reset_data_frame_callback : DataManager → DataManager
reset_data_frame_callback m = record m { data_frame_user_callback = none }

-- The three functions that read: they ask the storage under the device's hash.
ask :
    DataManager
    → DeviceId
    → (DeviceDataStorage → Option (DataResponse TrackingDeviceData))
    → Option (DataResponse TrackingDeviceData)
ask m device_id query = elim (lookup (hash_device_id device_id) m.device_data_map) [
  | none ↦ some no_packets
  | some s ↦ query s
]

unfoldable pub get_latest_data : DataManager → DeviceId → Option (DataResponse TrackingDeviceData)
unfolding ask
get_latest_data m device_id = ask m device_id Device.get_latest_data

-- The `int32_t` arguments reach the storage as `uint32_t`: they are given as bit patterns.
unfoldable pub get_latest_data_count :
    DataManager → DeviceId → ℕ → Option (DataResponse TrackingDeviceData)
unfolding ask
get_latest_data_count m device_id count =
    ask m device_id (λ s. Device.get_latest_data_count s count)

unfoldable pub get_data_since_index :
    DataManager → DeviceId → ℕ → Option (DataResponse TrackingDeviceData)
unfolding ask
get_data_since_index m device_id start_idx =
    ask m device_id (λ s. Device.get_data_since_index s start_idx)
