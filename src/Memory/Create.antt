-- ===== src/Memory/Create.antt =====
-- What the Copy functions of src/sdk_types.cpp and the converters of src/protobuf_converters.cpp
-- allocate. `MoveUniquePtr` and `MoveAndDeletePtr` are `move_out`.
pub mod Laws
use ommo_sdk_external.Prelude.{ℕ, Option, none, some, List, [], length, if◌then◌else◌, ◌==◌}
use ommo_sdk_external.Memory.{
  Ptr, M, pure, ◌>>=◌, ◌>>◌, continue, new, delete, Object, Array, fill, move_out,
}
use ommo_sdk_external.Memory.Structs.{
  DescriptorMembers, DevicesMembers, CommonMembers, BasestationMembers, SiuMembers, ReceiverMembers,
  HardwareMembers, DataMembers, PacketMembers, FrameMembers, ResponseMembers, EventMembers,
  WirelessMembers,
}

-- `CopyDeviceDescriptor` and `ProtoToDeviceDescriptor`.
unfoldable pub new_device_descriptor : M (Object DescriptorMembers)
new_device_descriptor = do
  p ← new
  sensors ← new
  modes ← new
  pure (record {
    at = p;
    members = record {
      sensor_unit_descriptors = some sensors;
      supported_fusion_modes = some modes;
    };
  })

-- `CopyTrackingDeviceData` and `ProtoToTrackingDeviceData`.
unfoldable pub new_tracking_device_data : M (Object DataMembers)
new_tracking_device_data = do
  p ← new
  raw ← new
  poses ← new
  buttons ← new
  timestamps ← new
  pure (record {
    at = p;
    members = record {
      raw_sensor_data = some raw;
      poses = some poses;
      buttons = some buttons;
      latency_timestamps = some timestamps;
    };
  })

-- `MoveAndDeletePtr(destination, CopyX(source))`.
unfoldable pub moved : {A : Type 0} → M (Object A) → M A
unfolding move_out
moved make = do o ← make; move_out o

-- A new array, every element of which is moved from a new object.
unfoldable pub new_array : {A : Type 0} → ℕ → M (Object A) → M (Array A)
unfolding moved
new_array n make = do
  p ← new
  elements ← fill n (moved make)
  pure (record { address = some p; elements = elements })

unfoldable pub new_device_packet : M (Object PacketMembers)
unfolding new_tracking_device_data moved
new_device_packet = do
  p ← new
  d ← moved new_tracking_device_data
  pure (record { at = p; members = record { device_data = d } })

abbrev pub new_requested_devices : ℕ → M Ptr
new_requested_devices count =
    if count == 0 then pure none else (new >>= λ devices. pure (some devices))

-- `count` requested devices.
unfoldable pub new_data_request : ℕ → M (Object Ptr)
new_data_request count = do
  p ← new
  devices ← new_requested_devices count
  pure (record { at = p; members = devices })

-- `CopyTrackingGroup`, `ProtoToTrackingGroup` and `ProtoToTrackingDevices`, of `count` devices.
unfoldable pub new_tracking_group : ℕ → M (Object DevicesMembers)
unfolding new_array new_device_descriptor
new_tracking_group count = do
  p ← new
  devices ← new_array count new_device_descriptor
  pure (record { at = p; members = record { devices = devices } })

-- `CopyTrackingGroupEvent` and `ProtoToTrackingGroupEvent`.
unfoldable pub new_tracking_group_event : ℕ → M (Object EventMembers)
unfolding new_tracking_group moved
new_tracking_group_event count = do
  p ← new
  g ← moved (new_tracking_group count)
  pure (record { at = p; members = record { tracking_group = g } })

unfoldable pub new_tracking_device_event : M (Object DescriptorMembers)
unfolding new_device_descriptor moved
new_tracking_device_event = do
  p ← new
  d ← moved new_device_descriptor
  pure (record { at = p; members = d })

abbrev pub new_element : M Ptr
new_element = do p ← new; pure (some p)

-- `CopyWirelessManagementEvent` and `ProtoToWirelessManagementEvent`, with pairing information of
-- `count` devices.
unfoldable pub new_wireless_management_event : ℕ → M (Object WirelessMembers)
new_wireless_management_event count = do
  p ← new
  uuids ← new
  information ← new
  elements ← fill count new_element
  pure (record {
    at = p;
    members = record {
      siu_uuids = some uuids;
      device_pairing_information = record { address = some information; elements = elements };
    };
  })

unfoldable pub new_common_hardware_state : M (Object CommonMembers)
new_common_hardware_state = do
  p ← new
  serial_number ← new
  usb_port_name ← new
  pure (record {
    at = p;
    members = record { serial_number = some serial_number; usb_port_name = some usb_port_name };
  })

unfoldable pub new_basestation_hardware_state : M (Object BasestationMembers)
unfolding new_common_hardware_state moved
new_basestation_hardware_state = do
  p ← new
  c ← moved new_common_hardware_state
  pure (record { at = p; members = record { common_state = c } })

unfoldable pub new_siu_hardware_state : M (Object SiuMembers)
unfolding new_common_hardware_state moved
new_siu_hardware_state = do
  p ← new
  c ← moved new_common_hardware_state
  sensors ← new
  pure (record {
    at = p;
    members = record { common_state = c; sensor_device_states = some sensors };
  })

unfoldable pub new_wireless_receiver_hardware_state : M (Object ReceiverMembers)
unfolding new_common_hardware_state moved
new_wireless_receiver_hardware_state = do
  p ← new
  c ← moved new_common_hardware_state
  sius ← new
  pure (record { at = p; members = record { common_state = c; connected_sius = some sius } })

-- Of so many base stations, SIUs and receivers.
unfoldable pub new_hardware_states : ℕ → ℕ → ℕ → M (Object HardwareMembers)
unfolding new_array new_basestation_hardware_state new_siu_hardware_state
    new_wireless_receiver_hardware_state
new_hardware_states basestations sius receivers = do
  p ← new
  bs ← new_array basestations new_basestation_hardware_state
  ss ← new_array sius new_siu_hardware_state
  rs ← new_array receivers new_wireless_receiver_hardware_state
  pure (record {
    at = p;
    members = record { basestation_states = bs; siu_states = ss; wireless_receiver_states = rs };
  })

unfoldable pub new_data_frame : ℕ → M (Object FrameMembers)
unfolding new_array new_tracking_device_data
new_data_frame count = do
  p ← new
  device_data ← new_array count new_tracking_device_data
  pure (record { at = p; members = record { device_data = device_data } })

-- The responses of the reads: with no data, and with `count` copied packets.
unfoldable pub no_data_response : M (Object ResponseMembers)
no_data_response = do
  p ← new
  pure (record { at = p; members = record { packets = record { address = none; elements = [] } } })

unfoldable pub new_data_response : ℕ → M (Object ResponseMembers)
unfolding new_array new_device_packet
new_data_response count = do
  p ← new
  packets ← new_array count new_device_packet
  pure (record { at = p; members = record { packets = packets } })

unfoldable pub new_base_station_data_response : M (Object Ptr)
new_base_station_data_response = do
  p ← new
  packets ← new
  pure (record { at = p; members = some packets })

unfoldable pub new_device_id_list : M (Object Ptr)
new_device_id_list = do p ← new; devices ← new; pure (record { at = p; members = some devices })
