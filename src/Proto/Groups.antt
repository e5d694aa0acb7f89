-- ===== src/Proto/Groups.antt =====
-- The messages of protobuf/ommo_service_api.proto for lists and groups of devices, base station data
-- and wireless events. Those that have the fields of their struct share its record.
use ommo_sdk_external.Prelude.{ℕ, Bool, List}
use ommo_sdk_external.Proto.{DeviceDescriptor}
use ommo_sdk_external.Types.{SpecParamf}

pub record TrackingDevices : Type 0 where
  pub devices : List DeviceDescriptor

pub record TrackingGroup : Type 0 where
  pub siu_uuid : ℕ
  pub port_id : ℕ
  pub devices : List DeviceDescriptor

pub record TrackingGroupEvent : Type 0 where
  pub tracking_group : TrackingGroup
  pub connected : Bool

pub record BaseStationData : Type 0 where
  pub accel_figure_of_merit : SpecParamf
  pub max_phase_std : SpecParamf
  pub max_phase_drift : SpecParamf
  pub temp_diff_from_calib_c : SpecParamf
  pub mean_rotation_rate_hz : SpecParamf
  pub tilt_angle_deg : SpecParamf
  pub max_mag_rms_res : SpecParamf
  pub accel_dc_magnitude_g : SpecParamf

pub record PairingInformation : Type 0 where
  pub siu_uuid : ℕ
  pub device_pairing_information : List (List ℕ)

pub record WirelessManagementEvent : Type 0 where
  pub event_type : ℕ
  pub client_request_type : ℕ
  pub siu_uuids : List ℕ
  pub request_error : ℕ
  pub pairing_information : PairingInformation
