-- ===== src/Types/Hardware.antt =====
-- The structs of include/sdk_types.h for hardware states. A `char*` points to an array of bytes.
use ommo_sdk_external.Prelude.{ℕ, Bool, List}

pub record CommonHardwareState : Type 0 where
  pub connected : Bool
  pub serial_number : List ℕ
  pub uuid : ℕ
  pub usb_port_name : List ℕ
  pub hardware_status : ℕ

pub record SensorDeviceState : Type 0 where
  pub port_number : ℕ
  pub mag_sensor_count : ℕ

pub record ReceiverConnection : Type 0 where
  pub uuid : ℕ
  pub time_slot : ℕ

pub record BasestationHardwareState : Type 0 where
  pub common_state : CommonHardwareState
  pub sync_channel : ℕ
  pub direct_comm_status : ℕ
  pub direct_comm_uuid : ℕ
  pub motor_running : Bool

pub record SiuHardwareState : Type 0 where
  pub common_state : CommonHardwareState
  pub wireless : Bool
  pub sync_channel : ℕ
  pub data_channel : ℕ
  pub sensor_device_states : List SensorDeviceState

pub record WirelessReceiverHardwareState : Type 0 where
  pub common_state : CommonHardwareState
  pub data_channel : ℕ
  pub connected_sius : List ReceiverConnection

pub record HardwareStates : Type 0 where
  pub basestation_states : List BasestationHardwareState
  pub siu_states : List SiuHardwareState
  pub wireless_receiver_states : List WirelessReceiverHardwareState
