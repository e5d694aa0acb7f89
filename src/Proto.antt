-- ===== src/Proto.antt =====
-- The messages of protobuf/ommo_service_api.proto, as far as the converters read them. A repeated
-- field is a list; an optional message is an option. Enums of proto3 are open: they are numbers.
pub mod Hardware
pub mod Groups
use ommo_sdk_external.Prelude.{ℕ, Bool, Option, List}
use ommo_sdk_external.Types.{
  Vector3f, Vector4f, SensorUnitDescriptor, RawSensorData, BatteryState, TimestampData,
}

pub record DeviceDescriptor : Type 0 where
  pub siu_uuid : ℕ
  pub port_id : ℕ
  pub user_device_type : ℕ
  pub button_count : ℕ
  pub sensor_unit_descriptors : List SensorUnitDescriptor
  pub supported_fusion_modes : List ℕ
  pub device_part_number : ℕ
  pub secure_device_info : Bool

pub record TrackingDeviceEvent : Type 0 where
  pub connected : Bool
  pub device : DeviceDescriptor

pub record TrackingDeviceData : Type 0 where
  pub siu_uuid : ℕ
  pub port_id : ℕ
  pub basestation_angle : ℕ
  pub basestation_speed : ℕ
  pub timestamp : ℕ
  pub raw_sensor_data : List RawSensorData
  pub battery_state : Option BatteryState
  pub positions : List Vector3f
  pub quaternions : List Vector4f
  pub indicator_values : List ℕ
  pub motion_indicators : List ℕ
  pub bad_data_indicators : List ℕ
  pub buttons : List ℕ
  pub latency_timestamps : List TimestampData

pub record DataFrame : Type 0 where
  pub device_data : List TrackingDeviceData
