-- ===== src/Types/Groups.antt =====
-- The structs of include/sdk_types.h for lists and groups of devices, and the states of data logging.
use ommo_sdk_external.Prelude.{ℕ, Bool, List}
use ommo_sdk_external.Types.{DeviceDescriptor}

pub record TrackingDevices : Type 0 where
  pub devices : List DeviceDescriptor

pub record TrackingGroup : Type 0 where
  pub siu_uuid : ℕ
  pub port_id : ℕ
  pub devices : List DeviceDescriptor

pub record TrackingGroupEvent : Type 0 where
  pub tracking_group : TrackingGroup
  pub connected : Bool

pub data DataLogState : Type 0 where
  unknown enabled disabled error rpc_fail : DataLogState

pub record SelectReferenceDeviceRequest : Type 0 where
  pub enabled : Bool
  pub siu_uuid : ℕ
  pub port_num : ℕ

pub record SelectReferenceDeviceResponse : Type 0 where
  pub success : Bool
