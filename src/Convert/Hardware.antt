-- ===== src/Convert/Hardware.antt =====
-- The converters of hardware states (src/protobuf_converters.cpp). `fresh` is what new arrays of
-- bytes hold before they are written.
pub mod Laws
use ommo_sdk_external.Prelude.{ℕ, Option, none, some, List, [], ◌∷◌, ◌>>=◌}
use ommo_sdk_external.Types.Hardware.{
  CommonHardwareState, BasestationHardwareState, SiuHardwareState, WirelessReceiverHardwareState,
  HardwareStates,
}
use ommo_sdk_external.Proto.Hardware
use ommo_sdk_external.Convert.Strings.{copy_string}

-- A loop that converts every element of a repeated field.
unfoldable pub convert_each : {A B : Type 0} → (A → Option B) → List A → Option (List B)
convert_each f [] = some []
convert_each f (x ∷ xs) = do y ← f x; ys ← convert_each f xs; some (y ∷ ys)

unfoldable pub proto_to_common_hardware_state :
    (ℕ → ℕ) → Hardware.CommonHardwareState → Option CommonHardwareState
unfolding copy_string
proto_to_common_hardware_state fresh state = do
  serial_number ← copy_string fresh state.serial_number
  usb_port_name ← copy_string fresh state.usb_port_name
  some (record {
    connected = state.connected;
    serial_number = serial_number;
    uuid = state.uuid;
    usb_port_name = usb_port_name;
    hardware_status = state.hardware_status;
  })

unfoldable pub proto_to_basestation_hardware_state :
    (ℕ → ℕ) → Hardware.BasestationHardwareState → Option BasestationHardwareState
unfolding proto_to_common_hardware_state
proto_to_basestation_hardware_state fresh bs_state = do
  common_state ← proto_to_common_hardware_state fresh bs_state.common_state
  some (record {
    common_state = common_state;
    sync_channel = bs_state.sync_channel;
    direct_comm_status = bs_state.direct_comm_status;
    direct_comm_uuid = bs_state.direct_comm_uuid;
    motor_running = bs_state.motor_running;
  })

unfoldable pub proto_to_siu_hardware_state :
    (ℕ → ℕ) → Hardware.SiuHardwareState → Option SiuHardwareState
unfolding proto_to_common_hardware_state
proto_to_siu_hardware_state fresh siu_state = do
  common_state ← proto_to_common_hardware_state fresh siu_state.common_state
  some (record {
    common_state = common_state;
    wireless = siu_state.wireless;
    sync_channel = siu_state.sync_channel;
    data_channel = siu_state.data_channel;
    sensor_device_states = siu_state.sensor_device_states;
  })

unfoldable pub proto_to_wireless_receiver_hardware_state :
    (ℕ → ℕ) → Hardware.WirelessReceiverHardwareState → Option WirelessReceiverHardwareState
unfolding proto_to_common_hardware_state
proto_to_wireless_receiver_hardware_state fresh wr_state = do
  common_state ← proto_to_common_hardware_state fresh wr_state.common_state
  some (record {
    common_state = common_state;
    data_channel = wr_state.data_channel;
    connected_sius = wr_state.connected_sius;
  })

unfoldable pub proto_to_hardware_states : (ℕ → ℕ) → Hardware.HardwareStates → Option HardwareStates
unfolding convert_each proto_to_basestation_hardware_state proto_to_siu_hardware_state
    proto_to_wireless_receiver_hardware_state
proto_to_hardware_states fresh hw_states = do
  basestation_states ←
      convert_each (proto_to_basestation_hardware_state fresh) hw_states.basestation_states
  siu_states ← convert_each (proto_to_siu_hardware_state fresh) hw_states.siu_states
  wireless_receiver_states ←
      convert_each (proto_to_wireless_receiver_hardware_state fresh)
        hw_states.wireless_receiver_states
  some (record {
    basestation_states = basestation_states;
    siu_states = siu_states;
    wireless_receiver_states = wireless_receiver_states;
  })
