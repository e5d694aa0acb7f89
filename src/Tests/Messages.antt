-- ===== src/Tests/Messages.antt =====
-- The theorems about the conversion of hardware states and about racing threads at concrete inputs.
use ommo_sdk_external.Prelude.{◌≡◌, refl, true, some, none, [], ◌∷◌}
use ommo_sdk_external.Types.Hardware.{HardwareStates}
use ommo_sdk_external.Proto.Hardware
use ommo_sdk_external.Convert.Hardware.{proto_to_hardware_states}
use ommo_sdk_external.Convert.Hardware.Laws.{
  AllShow, ShowsBasestation, ShowsSiu, ShowsReceiver, proto_to_hardware_states_lem,
}
use ommo_sdk_external.ClientManager.{
  open_device_data_stream, settings_of, requested_device, device_id_of,
}
use ommo_sdk_external.ClientManager.Racing.{both_open, AllBelow, both_open-leaks}
use ommo_sdk_external.DataManager.{DataManager}
use ommo_sdk_external.DataManager.Streams.{
  cancel_data_stream, cancel_all_data_streams, data_stream_exists,
}
use ommo_sdk_external.Types.{device_data}
use ommo_sdk_external.Tests.Data.{glove, all_devices}

-- A base station whose serial number is "A1", and a port name with a NUL inside.
abbrev station : Hardware.CommonHardwareState
station = record {
  connected = true;
  serial_number = 65 ∷ 49 ∷ [];
  uuid = 12;
  usb_port_name = 67 ∷ 0 ∷ 55 ∷ [];
  hardware_status = 4;
}

abbrev hardware : Hardware.HardwareStates
hardware = record {
  basestation_states =
      record {
        common_state = station;
        sync_channel = 1;
        direct_comm_status = 2;
        direct_comm_uuid = 3;
        motor_running = true;
      }
      ∷ [];
  siu_states = [];
  wireless_receiver_states =
      record { common_state = station; data_channel = 6; connected_sius = [] } ∷ [];
}

proto_to_hardware_states_lem_example :
    (s : HardwareStates) × (proto_to_hardware_states (λ n. 255) hardware ≡ some s)
    × AllShow ShowsBasestation hardware.basestation_states s.basestation_states
    × AllShow ShowsSiu hardware.siu_states s.siu_states
    × AllShow ShowsReceiver hardware.wireless_receiver_states s.wireless_receiver_states
proto_to_hardware_states_lem_example = proto_to_hardware_states_lem (λ n. 255) hardware

abbrev asking : DataManager
asking = record {
  device_data_map = [];
  device_data_streams = [];
  dataframe_stream = none;
  device_data_user_callback = none;
  data_frame_user_callback = none;
  request = all_devices;
  stream_type = device_data;
}

both_open-leaks_example :
    let r = both_open 3 asking glove in
    let request = requested_device all_devices glove in
    (r.effects
      ≡ open_device_data_stream 3 (settings_of all_devices) request
        ∷ open_device_data_stream 4 (settings_of all_devices) request
        ∷ [])
    × (cancel_data_stream r.manager (device_id_of glove) ≡ (3 ∷ [], true))
    × AllBelow 4 (cancel_all_data_streams r.manager)
unfolding data_stream_exists cancel_all_data_streams
both_open-leaks_example = both_open-leaks 3 asking glove refl tt
