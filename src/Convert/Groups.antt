-- ===== src/Convert/Groups.antt =====
-- The converters of lists and groups of devices, base station data, wireless events and states of
-- data logging (src/protobuf_converters.cpp). A loop that fills a new array of as many elements is
-- a recursion over the repeated field.
use ommo_sdk_external.Prelude.{ℕ, ◌≡◌, refl, ap, List, [], ◌∷◌, map, if◌then◌else◌, ◌==◌}
use ommo_sdk_external.Types.{DeviceDescriptor, BaseStationData, WirelessManagementEvent}
use ommo_sdk_external.Types.Groups.{
  TrackingDevices, TrackingGroup, TrackingGroupEvent, DataLogState, unknown, enabled, disabled,
  error, SelectReferenceDeviceRequest, SelectReferenceDeviceResponse,
}
use ommo_sdk_external.Proto
use ommo_sdk_external.Proto.Groups
use ommo_sdk_external.Convert.{proto_to_device_descriptor}

unfoldable pub convert_devices : List Proto.DeviceDescriptor → List DeviceDescriptor
unfolding proto_to_device_descriptor
convert_devices [] = []
convert_devices (d ∷ ds) = proto_to_device_descriptor d ∷ convert_devices ds

unfoldable pub proto_to_tracking_devices : Groups.TrackingDevices → TrackingDevices
unfolding convert_devices
proto_to_tracking_devices tr_devices = record { devices = convert_devices tr_devices.devices }

unfoldable pub proto_to_tracking_group : Groups.TrackingGroup → TrackingGroup
unfolding convert_devices
proto_to_tracking_group group = record {
  siu_uuid = group.siu_uuid;
  port_id = group.port_id;
  devices = convert_devices group.devices;
}

unfoldable pub proto_to_tracking_group_event : Groups.TrackingGroupEvent → TrackingGroupEvent
unfolding proto_to_tracking_group
proto_to_tracking_group_event event = record {
  connected = event.connected;
  tracking_group = proto_to_tracking_group event.tracking_group;
}

unfoldable pub proto_to_base_station_data : Groups.BaseStationData → BaseStationData
proto_to_base_station_data m = record {
  accel_figure_of_merit = m.accel_figure_of_merit;
  max_phase_std = m.max_phase_std;
  max_phase_drift = m.max_phase_drift;
  temp_diff_from_calib_c = m.temp_diff_from_calib_c;
  mean_rotation_rate_hz = m.mean_rotation_rate_hz;
  tilt_angle_deg = m.tilt_angle_deg;
  max_mag_rms_res = m.max_mag_rms_res;
  accel_dc_magnitude_g = m.accel_dc_magnitude_g;
}

-- `uuids[i] = event.siu_uuids(i)`
unfoldable pub convert_numbers : List ℕ → List ℕ
convert_numbers [] = []
convert_numbers (x ∷ xs) = x ∷ convert_numbers xs

-- The outer of the two nested loops: one device, with the numbers of its parts.
unfoldable pub convert_pairing : List (List ℕ) → List (List ℕ)
unfolding convert_numbers
convert_pairing [] = []
convert_pairing (parts ∷ rest) = convert_numbers parts ∷ convert_pairing rest

unfoldable pub proto_to_wireless_management_event :
    Groups.WirelessManagementEvent → WirelessManagementEvent
unfolding convert_numbers convert_pairing
proto_to_wireless_management_event event = record {
  event_type = event.event_type;
  client_request_type = event.client_request_type;
  siu_uuids = convert_numbers event.siu_uuids;
  request_error = event.request_error;
  pairing_information = record {
    siu_uuid = event.pairing_information.siu_uuid;
    device_pairing_information =
        convert_pairing event.pairing_information.device_pairing_information;
  };
}

-- The `switch` over the values of the message, 0 to 3; any other value is unknown.
unfoldable pub proto_to_data_log_state : ℕ → DataLogState
proto_to_data_log_state state =
    if state == 0
    then unknown
    else (if state == 1
        then enabled
        else (if state == 2 then disabled else (if state == 3 then error else unknown)))

unfoldable pub proto_to_select_reference_device_response :
    SelectReferenceDeviceResponse → SelectReferenceDeviceResponse
proto_to_select_reference_device_response response = record { success = response.success }

unfoldable pub select_reference_device_request_to_proto :
    SelectReferenceDeviceRequest → SelectReferenceDeviceRequest
select_reference_device_request_to_proto request = record {
  enabled = request.enabled;
  siu_uuid = request.siu_uuid;
  port_num = request.port_num;
}

-- The message that has the content of a struct.
abbrev pub message_of : WirelessManagementEvent → Groups.WirelessManagementEvent
message_of e = record {
  event_type = e.event_type;
  client_request_type = e.client_request_type;
  siu_uuids = e.siu_uuids;
  request_error = e.request_error;
  pairing_information = record {
    siu_uuid = e.pairing_information.siu_uuid;
    device_pairing_information = e.pairing_information.device_pairing_information;
  };
}

convert_numbers-eq : (xs : List ℕ) → convert_numbers xs ≡ xs
unfolding convert_numbers
convert_numbers-eq [] = refl
convert_numbers-eq (x ∷ xs) = ap (λ r. x ∷ r) (convert_numbers-eq xs)

convert_pairing-eq : (xs : List (List ℕ)) → convert_pairing xs ≡ xs
unfolding convert_pairing
convert_pairing-eq [] = refl
convert_pairing-eq (x ∷ xs) = rw (convert_numbers-eq x) (ap (λ r. x ∷ r) (convert_pairing-eq xs))

-- Conversion loses nothing of a wireless event: every struct is the conversion of its message, and
-- every message has the content of its conversion.
pub proto_to_wireless_management_event_lem :
    (e : WirelessManagementEvent) (m : Groups.WirelessManagementEvent)
    → (proto_to_wireless_management_event (message_of e) ≡ e)
      × (message_of (proto_to_wireless_management_event m) ≡ m)
unfolding proto_to_wireless_management_event
proto_to_wireless_management_event_lem e m = (
  rw (
    convert_numbers-eq e.siu_uuids,
    convert_pairing-eq e.pairing_information.device_pairing_information,
  ),
  rw (
    convert_numbers-eq m.siu_uuids,
    convert_pairing-eq m.pairing_information.device_pairing_information,
  ),
)

-- The message of a device descriptor that has the content of a struct.
abbrev pub descriptor_message_of : DeviceDescriptor → Proto.DeviceDescriptor
descriptor_message_of d = record {
  siu_uuid = d.siu_uuid;
  port_id = d.port_id;
  user_device_type = d.user_device_type;
  button_count = d.button_count;
  sensor_unit_descriptors = d.sensor_unit_descriptors;
  supported_fusion_modes = d.supported_fusion_modes;
  device_part_number = d.device_part_number;
  secure_device_info = d.secure_device_info;
}

convert_devices-map :
    (ds : List DeviceDescriptor) → convert_devices (map descriptor_message_of ds) ≡ ds
unfolding convert_devices proto_to_device_descriptor
convert_devices-map [] = refl
convert_devices-map (d ∷ ds) = ap (λ r. d ∷ r) (convert_devices-map ds)

-- Every tracking group event is the conversion of the message with its content: identifiers, state
-- of the connection, and the devices in their order.
pub proto_to_tracking_group_event_lem :
    (e : TrackingGroupEvent)
    → proto_to_tracking_group_event (record {
      connected = e.connected;
      tracking_group = record {
        siu_uuid = e.tracking_group.siu_uuid;
        port_id = e.tracking_group.port_id;
        devices = map descriptor_message_of e.tracking_group.devices;
      };
    })
      ≡ e
unfolding proto_to_tracking_group_event proto_to_tracking_group
proto_to_tracking_group_event_lem e = rw (convert_devices-map e.tracking_group.devices)
