-- ===== src/Types.antt =====
-- The structs of include/sdk_types.h that the other modules handle. An array with its count is a
-- list. A `float`, an `int32_t` and a value of a C enum that is cast from a message is only moved,
-- never computed with: it is its bit pattern, a number.
pub mod Hardware
pub mod Groups
pub mod Copy
pub mod Names
use ommo_sdk_external.Prelude.{ℕ, Bool, List}

pub record DeviceId : Type 0 where
  pub siu_uuid : ℕ
  pub port_id : ℕ

pub record DeviceIdList : Type 0 where
  pub devices : List DeviceId
  pub device_count : ℕ

pub record Vector3i : Type 0 where
  pub x : ℕ
  pub y : ℕ
  pub z : ℕ

pub record Vector3f : Type 0 where
  pub x : ℕ
  pub y : ℕ
  pub z : ℕ

pub record Vector4f : Type 0 where
  pub w : ℕ
  pub x : ℕ
  pub y : ℕ
  pub z : ℕ

pub record SensorUnitDescriptor : Type 0 where
  pub timestamp_offset : Vector3i
  pub mag_present : Bool
  pub mag_scale : ℕ
  pub imu_present : Bool
  pub accel_scale : ℕ
  pub gyro_scale : ℕ
  pub uuid : ℕ

pub record DeviceDescriptor : Type 0 where
  pub siu_uuid : ℕ
  pub port_id : ℕ
  pub user_device_type : ℕ
  pub button_count : ℕ
  pub sensor_unit_descriptors : List SensorUnitDescriptor
  pub supported_fusion_modes : List ℕ
  pub device_part_number : ℕ
  pub secure_device_info : Bool

pub record TrackingDeviceEvent : Type 0 where
  pub connected : Bool
  pub device : DeviceDescriptor

pub record RawSensorData : Type 0 where
  pub mag : Vector3i
  pub gyro : Vector3i
  pub accel : Vector3i

pub record PoseData : Type 0 where
  pub position : Vector3f
  pub quaternion : Vector4f
  pub indicator_value : ℕ
  pub motion_indicator : ℕ
  pub bad_data_indicator : ℕ

pub record TimestampData : Type 0 where
  pub timestamp_type : ℕ
  pub steady_timestamp_milliseconds : ℕ
  pub system_timestamp_milliseconds : ℕ

pub record BatteryState : Type 0 where
  pub state_of_charge : ℕ
  pub current : ℕ
  pub remaining_capacity : ℕ

pub record TrackingDeviceData : Type 0 where
  pub siu_uuid : ℕ
  pub port_id : ℕ
  pub basestation_angle : ℕ
  pub basestation_speed : ℕ
  pub timestamp : ℕ
  pub raw_sensor_data : List RawSensorData
  pub poses : List PoseData
  pub buttons : List ℕ
  pub latency_timestamps : List TimestampData
  pub battery_state : BatteryState

pub data DataStreamType : Type 0 where
  device_data data_frame : DataStreamType

-- `requested_devices` is empty where the pointer is null or the count is 0.
pub record DataRequest : Type 0 where
  pub data_field_mask : ℕ
  pub report_interval : ℕ
  pub buffer_depth : ℕ
  pub requested_fusion_mode : ℕ
  pub include_raw_sensor_data : Bool
  pub requested_devices : List DeviceId

pub record SpecParamf : Type 0 where
  pub value : ℕ
  pub out_of_spec : Bool

pub record BaseStationData : Type 0 where
  pub accel_figure_of_merit : SpecParamf
  pub max_phase_std : SpecParamf
  pub max_phase_drift : SpecParamf
  pub temp_diff_from_calib_c : SpecParamf
  pub mean_rotation_rate_hz : SpecParamf
  pub tilt_angle_deg : SpecParamf
  pub max_mag_rms_res : SpecParamf
  pub accel_dc_magnitude_g : SpecParamf

pub record PairingInformation : Type 0 where
  pub siu_uuid : ℕ
  pub device_pairing_information : List (List ℕ)

pub record WirelessManagementRequest : Type 0 where
  pub request_type : ℕ
  pub siu_uuid : ℕ
  pub interval_length : ℕ

pub record WirelessManagementEvent : Type 0 where
  pub event_type : ℕ
  pub client_request_type : ℕ
  pub siu_uuids : List ℕ
  pub request_error : ℕ
  pub pairing_information : PairingInformation
