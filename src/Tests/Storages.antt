-- ===== src/Tests/Storages.antt =====
-- The theorems about storages, copies and hashes at concrete inputs.
use ommo_sdk_external.Prelude.{
  ℕ, int32, negsuc, ◌⊎◌, ◌+◌, ◌<◌, ◌≡◌, refl, true, none, some, [], ◌∷◌, arith, inl, inr, drop,
  take, map,
}
use ommo_sdk_external.Buffer.{Packet, success}
use ommo_sdk_external.Buffer.Copy.{contents}
use ommo_sdk_external.Buffer.Log.{number}
use ommo_sdk_external.Convert.{
  convert_all, proto_to_tracking_device_data, proto_to_tracking_device_data_lem,
}
use ommo_sdk_external.Hash.{hash_injective}
use ommo_sdk_external.Storage.{array_size, since_of}
use ommo_sdk_external.Storage.BaseStation.{BaseStationDataStorage}
use ommo_sdk_external.Storage.BaseStation
use ommo_sdk_external.Storage.BaseStation.Refine.{
  base_station_push_lem, base_station_latest_count_lem, base_station_since_lem,
}
use ommo_sdk_external.Storage.BaseStation.Refine
use ommo_sdk_external.Storage.BaseStation.Faults.{latest_not_latest, since_faults}
use ommo_sdk_external.Storage.Device.{
  DeviceDataStorage, push_data, get_latest_data, get_latest_data_count, get_data_since_index,
  new_storage,
}
use ommo_sdk_external.Storage.Device
use ommo_sdk_external.Storage.Device.Refine.{Holds, Pushed, push_data_lem, get_data_since_index_lem}
use ommo_sdk_external.Storage.Device.History.{push_all, push_all_from_new, retains_latest}
use ommo_sdk_external.Storage.Device.Race.{between, stale_read}
use ommo_sdk_external.Types.{TrackingDeviceData, BaseStationData, WirelessManagementEvent}
use ommo_sdk_external.Types.Copy.{
  copy_wireless_management_event, copy_wireless_management_event_lem,
}
use ommo_sdk_external.Tests.Data.{
  three-Stores, glove, glove_id, glove_message, glove_data, glove_converted, glove_three, sweep,
  base_two, base_two-Holds,
}

push_data_lem_example :
    Pushed glove_three
      (glove_data ∷ glove_data ∷ glove_data ∷ glove_data ∷ [])
      (push_data glove_three glove_message)
push_data_lem_example =
    push_data_lem glove_three (glove_data ∷ glove_data ∷ glove_data ∷ []) glove_message glove_data
      (three-Stores Device.blank_packet glove_data) refl glove_converted (omega arith)

get_data_since_index_lem_example :
    get_data_since_index glove_three 1 ≡ some (since_of 1 (contents glove_three.buffers))
get_data_since_index_lem_example =
    get_data_since_index_lem glove_three (glove_data ∷ glove_data ∷ glove_data ∷ []) 1
      (three-Stores Device.blank_packet glove_data)

two_converted :
    convert_all (glove_message ∷ glove_message ∷ []) ≡ some (glove_data ∷ glove_data ∷ [])
unfolding convert_all
two_converted = rw glove_converted refl

push_all_from_new_example :
    (t : DeviceDataStorage) × (push_all (new_storage glove 3) (glove_message ∷ glove_message ∷ [])
      ≡ some t)
    × Holds t (glove_data ∷ glove_data ∷ [])
    × (t.buffers.buffer_size ≡ 3)
push_all_from_new_example =
    push_all_from_new glove 3 (glove_message ∷ glove_message ∷ []) (glove_data ∷ glove_data ∷ [])
      (omega arith) (omega arith) (refl, (refl, tt)) two_converted (omega arith)

retains_latest_example :
    get_latest_data_count glove_three 2
    ≡ some (record {
      state = success;
      packets = drop 1 (number 0 (glove_data ∷ glove_data ∷ glove_data ∷ []));
      packet_count = 2;
    })
retains_latest_example =
    retains_latest glove_three (glove_data ∷ glove_data ∷ glove_data ∷ []) 2
      (three-Stores Device.blank_packet glove_data) (omega arith) (omega arith) (omega arith)

stale_read_example :
    (p : Packet TrackingDeviceData) × (get_latest_data (between glove_three glove_data)
      ≡ some (record { state = success; packets = p ∷ []; packet_count = 1 }))
    × (p.packet_idx + 2 ≡ 3)
stale_read_example =
    stale_read glove_three (glove_data ∷ glove_data ∷ glove_data ∷ []) glove_data
      (three-Stores Device.blank_packet glove_data) refl refl

base_station_push_lem_example :
    (t : BaseStationDataStorage) × (BaseStation.push_data base_two sweep ≡ some (t, true))
    × Refine.Holds t (sweep ∷ sweep ∷ sweep ∷ [])
    × (t.buffers.buffer_size ≡ 2)
    × (t.base_station_stream ≡ some 4)
base_station_push_lem_example =
    base_station_push_lem base_two (sweep ∷ sweep ∷ []) sweep base_two-Holds (omega arith)

base_station_since_lem_example :
    BaseStation.get_data_since_index base_two 1 ≡ some (since_of 1 (contents base_two.buffers))
base_station_since_lem_example =
    base_station_since_lem base_two (sweep ∷ sweep ∷ []) 1 base_two-Holds (inr (inl (omega arith)))

latest_not_latest_example :
    (p : Packet BaseStationData) × (BaseStation.get_latest_data base_two
      ≡ some (record { state = success; packets = p ∷ []; packet_count = 1 }))
    × (p.packet_idx + 1 < 2)
latest_not_latest_example =
    latest_not_latest base_two (sweep ∷ sweep ∷ []) base_two-Holds refl (omega arith)

-- A start index of -1.
since_faults_example :
    (BaseStation.get_data_since_index base_two 4294967295 ≡ none)
    × ((array_size 2 (int32 4294967295) ≡ none) ⊎ ((k : ℕ) × (int32 4294967295 ≡ negsuc k)))
since_faults_example =
    since_faults base_two (sweep ∷ sweep ∷ []) 4294967295 base_two-Holds refl (omega arith)
      (omega arith) (omega arith)

past_the_end : BaseStation.get_data_since_index base_two 3 ≡ none
past_the_end =
    (since_faults base_two (sweep ∷ sweep ∷ []) 3 base_two-Holds refl (omega arith) (omega arith)
      (omega arith)).0

proto_to_tracking_device_data_lem_example :
    (t : TrackingDeviceData) × (proto_to_tracking_device_data glove_message ≡ some t)
    × (map (λ p. p.position) t.poses ≡ glove_message.positions)
    × (map (λ p. p.quaternion) t.poses ≡ take 1 glove_message.quaternions)
    × (map (λ p. p.indicator_value) t.poses ≡ take 1 glove_message.indicator_values)
    × (t.siu_uuid ≡ 7)
    × (t.port_id ≡ 1)
proto_to_tracking_device_data_lem_example =
    proto_to_tracking_device_data_lem glove_message (omega arith, omega arith)

hash_injective_example : glove_id ≡ glove_id
hash_injective_example =
    hash_injective glove_id glove_id (omega arith) (omega arith) (omega arith) (omega arith) refl

abbrev failed_event : WirelessManagementEvent
failed_event = record {
  event_type = 6;
  client_request_type = 15;
  siu_uuids = 7 ∷ [];
  request_error = 7;
  pairing_information = record { siu_uuid = 0; device_pairing_information = [] };
}

abbrev fresh_event : WirelessManagementEvent
fresh_event = record failed_event { client_request_type = 0; request_error = 0 }

copy_wireless_management_event_lem_example :
    copy_wireless_management_event fresh_event failed_event ≡ fresh_event
copy_wireless_management_event_lem_example =
    copy_wireless_management_event_lem fresh_event failed_event
