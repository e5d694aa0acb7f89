-- ===== src/Types/Copy.antt =====
-- The Copy functions of src/sdk_types.cpp. A new struct starts with whatever the memory held: that
-- is the argument `fresh`, every field of which the code should write.
pub mod Groups
use ommo_sdk_external.Prelude.{ℕ, ◌≡◌, refl, ap, List, [], ◌∷◌}
use ommo_sdk_external.Types.{
  DeviceDescriptor, TrackingDeviceData, DataRequest, WirelessManagementEvent,
}

-- A loop `target[i] = source[i]` over the elements of a new array.
pub copy_array : {A : Type 0} → List A → List A
copy_array [] = []
copy_array (x ∷ xs) = x ∷ copy_array xs

copy-array-eq : {A : Type 0} (xs : List A) → copy_array xs ≡ xs
unfolding copy_array
copy-array-eq [] = refl
copy-array-eq (x ∷ xs) = ap (λ r. x ∷ r) (copy-array-eq xs)

pub copy_device_descriptor : DeviceDescriptor → DeviceDescriptor → DeviceDescriptor
copy_device_descriptor fresh source = record fresh {
  siu_uuid = source.siu_uuid;
  port_id = source.port_id;
  user_device_type = source.user_device_type;
  button_count = source.button_count;
  device_part_number = source.device_part_number;
  secure_device_info = source.secure_device_info;
  sensor_unit_descriptors = copy_array source.sensor_unit_descriptors;
  supported_fusion_modes = copy_array source.supported_fusion_modes;
}

pub copy_tracking_device_data : TrackingDeviceData → TrackingDeviceData → TrackingDeviceData
copy_tracking_device_data fresh source = record fresh {
  siu_uuid = source.siu_uuid;
  port_id = source.port_id;
  basestation_angle = source.basestation_angle;
  basestation_speed = source.basestation_speed;
  timestamp = source.timestamp;
  raw_sensor_data = copy_array source.raw_sensor_data;
  battery_state = source.battery_state;
  poses = copy_array source.poses;
  buttons = copy_array source.buttons;
  latency_timestamps = copy_array source.latency_timestamps;
}

-- With a count of 0 the pointer is null: both are the empty list.
pub copy_data_request : DataRequest → DataRequest → DataRequest
copy_data_request fresh source = record fresh {
  data_field_mask = source.data_field_mask;
  report_interval = source.report_interval;
  buffer_depth = source.buffer_depth;
  requested_fusion_mode = source.requested_fusion_mode;
  include_raw_sensor_data = source.include_raw_sensor_data;
  requested_devices = copy_array source.requested_devices;
}

copy_arrays : List (List ℕ) → List (List ℕ)
unfolding copy_array
copy_arrays [] = []
copy_arrays (x ∷ xs) = copy_array x ∷ copy_arrays xs

-- `client_request_type` and `request_error` are not written.
pub copy_wireless_management_event :
    WirelessManagementEvent → WirelessManagementEvent → WirelessManagementEvent
copy_wireless_management_event fresh source = record fresh {
  event_type = source.event_type;
  siu_uuids = copy_array source.siu_uuids;
  pairing_information = record {
    siu_uuid = source.pairing_information.siu_uuid;
    device_pairing_information = copy_arrays source.pairing_information.device_pairing_information;
  };
}

pub copy_device_descriptor_lem : (fresh d : DeviceDescriptor) → copy_device_descriptor fresh d ≡ d
unfolding copy_device_descriptor
copy_device_descriptor_lem fresh d =
    rw (copy-array-eq d.sensor_unit_descriptors, copy-array-eq d.supported_fusion_modes)

-- The copies of a descriptor, of device data and of a request are equal to their sources, whatever
-- the new memory held.
pub copies_equal :
    (d fresh_d : DeviceDescriptor) (t fresh_t : TrackingDeviceData) (r fresh_r : DataRequest)
    → (copy_device_descriptor fresh_d d ≡ d)
      × (copy_tracking_device_data fresh_t t ≡ t)
      × (copy_data_request fresh_r r ≡ r)
unfolding copy_tracking_device_data copy_data_request
copies_equal d fresh_d t fresh_t r fresh_r = (
  copy_device_descriptor_lem fresh_d d,
  rw (
    copy-array-eq t.raw_sensor_data,
    copy-array-eq t.poses,
    copy-array-eq t.buttons,
    copy-array-eq t.latency_timestamps,
  ),
  rw (copy-array-eq r.requested_devices),
)

copy_arrays-eq : (xs : List (List ℕ)) → copy_arrays xs ≡ xs
unfolding copy_arrays
copy_arrays-eq [] = refl
copy_arrays-eq (x ∷ xs) = rw (copy-array-eq x) (ap (λ r. x ∷ r) (copy_arrays-eq xs))

-- A copied wireless event has the source's type, ids and pairing information, but the request type
-- and the error that its new memory held before.
pub copy_wireless_management_event_lem :
    (fresh source : WirelessManagementEvent)
    → copy_wireless_management_event fresh source ≡ record source {
      client_request_type = fresh.client_request_type;
      request_error = fresh.request_error;
    }
unfolding copy_wireless_management_event
copy_wireless_management_event_lem fresh source = rw (
  copy-array-eq source.siu_uuids,
  copy_arrays-eq source.pairing_information.device_pairing_information,
)
