-- ===== src/Types/Copy/Groups.antt =====
-- The copies of packets and of tracking groups and their events, and the default request
-- (src/sdk_types.cpp). `fresh` is what the new memory held.
use ommo_sdk_external.Prelude.{ℕ, ◌+◌, ◌≡◌, refl, false, List, [], ◌∷◌}
use ommo_sdk_external.Types.{DeviceDescriptor, TrackingDeviceData, DataRequest}
use ommo_sdk_external.Types.Groups.{TrackingGroup, TrackingGroupEvent}
use ommo_sdk_external.Types.Copy.{
  copy_device_descriptor, copy_tracking_device_data, copy_device_descriptor_lem,
}
use ommo_sdk_external.Buffer.{Packet}

pub copy_device_packet : TrackingDeviceData → Packet TrackingDeviceData → Packet TrackingDeviceData
unfolding copy_tracking_device_data
copy_device_packet fresh source = record {
  packet_idx = source.packet_idx;
  payload = copy_tracking_device_data fresh source.payload;
}

copy_devices : DeviceDescriptor → List DeviceDescriptor → List DeviceDescriptor
unfolding copy_device_descriptor
copy_devices fresh [] = []
copy_devices fresh (d ∷ ds) = copy_device_descriptor fresh d ∷ copy_devices fresh ds

pub copy_tracking_group : DeviceDescriptor → TrackingGroup → TrackingGroup
unfolding copy_devices
copy_tracking_group fresh source = record {
  siu_uuid = source.siu_uuid;
  port_id = source.port_id;
  devices = copy_devices fresh source.devices;
}

pub copy_tracking_group_event : DeviceDescriptor → TrackingGroupEvent → TrackingGroupEvent
unfolding copy_tracking_group
copy_tracking_group_event fresh source = record {
  connected = source.connected;
  tracking_group = copy_tracking_group fresh source.tracking_group;
}

-- `kSiuUuid | kPortId | kBasestationAngle | kBasestationSpeed | kTimestamp | kButtonStatus |
-- kBatteryStatus`, seven different bits.
abbrev default_mask : ℕ
default_mask = 1 + 2 + 4 + 8 + 16 + 32 + 64

pub create_default_data_request : DataRequest
create_default_data_request = record {
  data_field_mask = default_mask;
  report_interval = 0;
  buffer_depth = 50;
  requested_fusion_mode = 0;
  include_raw_sensor_data = false;
  requested_devices = [];
}

copy_devices-eq :
    (fresh : DeviceDescriptor) (ds : List DeviceDescriptor) → copy_devices fresh ds ≡ ds
unfolding copy_devices
copy_devices-eq fresh [] = refl
copy_devices-eq fresh (d ∷ ds) = rw (copy_device_descriptor_lem fresh d, copy_devices-eq fresh ds)

-- The copy of a tracking group event is equal to its source, whatever the new memory held.
pub copy_tracking_group_event_lem :
    (fresh : DeviceDescriptor) (e : TrackingGroupEvent) → copy_tracking_group_event fresh e ≡ e
unfolding copy_tracking_group_event copy_tracking_group
copy_tracking_group_event_lem fresh e = rw (copy_devices-eq fresh e.tracking_group.devices)
