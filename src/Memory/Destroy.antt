-- ===== src/Memory/Destroy.antt =====
-- The Destroy functions of src/sdk_types.cpp. Those that end in `_members` return the members as
-- they leave them; the others take a pointer, which may be null. A count goes with its array, whose
-- elements are listed; `delete[]` of an array runs no function on its elements.
pub mod Laws
pub mod Twice
use ommo_sdk_external.Prelude.{ℕ, Option, none, some, List, []}
use ommo_sdk_external.Memory.{Ptr, M, pure, ◌>>=◌, ◌>>◌, continue, delete, Object, Array, for_each}
use ommo_sdk_external.Memory.Structs.{
  DescriptorMembers, DevicesMembers, CommonMembers, BasestationMembers, SiuMembers, ReceiverMembers,
  HardwareMembers, DataMembers, PacketMembers, FrameMembers, ResponseMembers, EventMembers,
  WirelessMembers,
}

abbrev pub null_array : {A : Type 0} → Array A
null_array = record { address = none; elements = [] }

unfoldable pub destroy_device_descriptor_members : DescriptorMembers → M DescriptorMembers
destroy_device_descriptor_members m = do
  delete m.sensor_unit_descriptors
  delete m.supported_fusion_modes
  pure (record { sensor_unit_descriptors = none; supported_fusion_modes = none })

unfoldable pub destroy_common_hardware_state_members : CommonMembers → M CommonMembers
destroy_common_hardware_state_members m = do
  delete m.serial_number
  delete m.usb_port_name
  pure (record { serial_number = none; usb_port_name = none })

unfoldable pub destroy_basestation_hardware_state_members :
    BasestationMembers → M BasestationMembers
unfolding destroy_common_hardware_state_members
destroy_basestation_hardware_state_members m = do
  c ← destroy_common_hardware_state_members m.common_state
  pure (record { common_state = c })

unfoldable pub destroy_siu_hardware_state_members : SiuMembers → M SiuMembers
unfolding destroy_common_hardware_state_members
destroy_siu_hardware_state_members m = do
  c ← destroy_common_hardware_state_members m.common_state
  delete m.sensor_device_states
  pure (record { common_state = c; sensor_device_states = none })

unfoldable pub destroy_wireless_receiver_hardware_state_members :
    ReceiverMembers → M ReceiverMembers
unfolding destroy_common_hardware_state_members
destroy_wireless_receiver_hardware_state_members m = do
  c ← destroy_common_hardware_state_members m.common_state
  delete m.connected_sius
  pure (record { common_state = c; connected_sius = none })

unfoldable pub destroy_tracking_device_data_members : DataMembers → M DataMembers
destroy_tracking_device_data_members m = do
  delete m.raw_sensor_data
  delete m.poses
  delete m.buttons
  delete m.latency_timestamps
  pure (record { raw_sensor_data = none; poses = none; buttons = none; latency_timestamps = none })

unfoldable pub destroy_device_packet_members : PacketMembers → M PacketMembers
unfolding destroy_tracking_device_data_members
destroy_device_packet_members m = do
  d ← destroy_tracking_device_data_members m.device_data
  pure (record { device_data = d })

-- Unlike `destroy_tracking_group`, it runs nothing on the devices.
unfoldable pub destroy_tracking_group_members : DevicesMembers → M DevicesMembers
destroy_tracking_group_members m = do
  delete m.devices.address
  pure (record { devices = null_array })

unfoldable pub destroy_tracking_group_event_members : EventMembers → M EventMembers
unfolding destroy_tracking_group_members
destroy_tracking_group_event_members m = do
  g ← destroy_tracking_group_members m.tracking_group
  pure (record { tracking_group = g })

abbrev pub delete_element : Ptr → M Ptr
delete_element p = do delete p; pure p

-- The count of `device_pairing_information` is reset to 0; its pointer keeps its value.
unfoldable pub destroy_wireless_management_event_members : WirelessMembers → M WirelessMembers
destroy_wireless_management_event_members m = do
  delete m.siu_uuids
  for_each delete_element m.device_pairing_information.elements
  delete m.device_pairing_information.address
  pure (record {
    siu_uuids = none;
    device_pairing_information = record m.device_pairing_information { elements = [] };
  })

unfoldable pub destroy_device_descriptor : Option (Object DescriptorMembers) → M (Unit {0})
unfolding destroy_device_descriptor_members
destroy_device_descriptor none = pure tt
destroy_device_descriptor (some o) = do
  destroy_device_descriptor_members o.members
  delete (some o.at)

-- `device` is the only member of a tracking device event that owns memory.
unfoldable pub destroy_tracking_device_event : Option (Object DescriptorMembers) → M (Unit {0})
unfolding destroy_device_descriptor_members
destroy_tracking_device_event none = pure tt
destroy_tracking_device_event (some o) = do
  destroy_device_descriptor_members o.members
  delete (some o.at)

unfoldable pub destroy_tracking_devices : Option (Object DevicesMembers) → M (Unit {0})
unfolding destroy_device_descriptor_members
destroy_tracking_devices none = pure tt
destroy_tracking_devices (some o) = do
  for_each destroy_device_descriptor_members o.members.devices.elements
  delete o.members.devices.address
  delete (some o.at)

unfoldable pub destroy_common_hardware_state : Option (Object CommonMembers) → M (Unit {0})
unfolding destroy_common_hardware_state_members
destroy_common_hardware_state none = pure tt
destroy_common_hardware_state (some o) = do
  destroy_common_hardware_state_members o.members
  delete (some o.at)

unfoldable pub destroy_basestation_hardware_state :
    Option (Object BasestationMembers) → M (Unit {0})
unfolding destroy_basestation_hardware_state_members
destroy_basestation_hardware_state none = pure tt
destroy_basestation_hardware_state (some o) = do
  destroy_basestation_hardware_state_members o.members
  delete (some o.at)

unfoldable pub destroy_siu_hardware_state : Option (Object SiuMembers) → M (Unit {0})
unfolding destroy_siu_hardware_state_members
destroy_siu_hardware_state none = pure tt
destroy_siu_hardware_state (some o) = do
  destroy_siu_hardware_state_members o.members
  delete (some o.at)

unfoldable pub destroy_wireless_receiver_hardware_state :
    Option (Object ReceiverMembers) → M (Unit {0})
unfolding destroy_wireless_receiver_hardware_state_members
destroy_wireless_receiver_hardware_state none = pure tt
destroy_wireless_receiver_hardware_state (some o) = do
  destroy_wireless_receiver_hardware_state_members o.members
  delete (some o.at)

unfoldable pub destroy_hardware_states : Option (Object HardwareMembers) → M (Unit {0})
unfolding destroy_basestation_hardware_state_members destroy_siu_hardware_state_members
    destroy_wireless_receiver_hardware_state_members
destroy_hardware_states none = pure tt
destroy_hardware_states (some o) = do
  for_each destroy_basestation_hardware_state_members o.members.basestation_states.elements
  delete o.members.basestation_states.address
  for_each destroy_siu_hardware_state_members o.members.siu_states.elements
  delete o.members.siu_states.address
  for_each destroy_wireless_receiver_hardware_state_members
      o.members.wireless_receiver_states.elements
  delete o.members.wireless_receiver_states.address
  delete (some o.at)

unfoldable pub destroy_tracking_device_data : Option (Object DataMembers) → M (Unit {0})
unfolding destroy_tracking_device_data_members
destroy_tracking_device_data none = pure tt
destroy_tracking_device_data (some o) = do
  destroy_tracking_device_data_members o.members
  delete (some o.at)

unfoldable pub destroy_data_frame : Option (Object FrameMembers) → M (Unit {0})
unfolding destroy_tracking_device_data_members
destroy_data_frame none = pure tt
destroy_data_frame (some o) = do
  for_each destroy_tracking_device_data_members o.members.device_data.elements
  delete o.members.device_data.address
  delete (some o.at)

unfoldable pub destroy_device_packet : Option (Object PacketMembers) → M (Unit {0})
unfolding destroy_device_packet_members
destroy_device_packet none = pure tt
destroy_device_packet (some o) = do destroy_device_packet_members o.members; delete (some o.at)

unfoldable pub destroy_data_response : Option (Object ResponseMembers) → M (Unit {0})
unfolding destroy_device_packet_members
destroy_data_response none = pure tt
destroy_data_response (some o) = do
  for_each destroy_device_packet_members o.members.packets.elements
  delete o.members.packets.address
  delete (some o.at)

-- The member of the next three that owns memory is one array of plain data.
unfoldable pub destroy_base_station_data_response : Option (Object Ptr) → M (Unit {0})
destroy_base_station_data_response none = pure tt
destroy_base_station_data_response (some o) = do delete o.members; delete (some o.at)

unfoldable pub destroy_device_id_list : Option (Object Ptr) → M (Unit {0})
destroy_device_id_list none = pure tt
destroy_device_id_list (some o) = do delete o.members; delete (some o.at)

unfoldable pub destroy_data_request : Option (Object Ptr) → M (Unit {0})
destroy_data_request none = pure tt
destroy_data_request (some o) = do delete o.members; delete (some o.at)

unfoldable pub destroy_tracking_group : Option (Object DevicesMembers) → M (Unit {0})
unfolding destroy_device_descriptor_members
destroy_tracking_group none = pure tt
destroy_tracking_group (some o) = do
  for_each destroy_device_descriptor_members o.members.devices.elements
  delete o.members.devices.address
  delete (some o.at)

unfoldable pub destroy_tracking_group_event : Option (Object EventMembers) → M (Unit {0})
unfolding destroy_tracking_group_event_members
destroy_tracking_group_event none = pure tt
destroy_tracking_group_event (some o) = do
  destroy_tracking_group_event_members o.members
  delete (some o.at)

unfoldable pub destroy_wireless_management_event : Option (Object WirelessMembers) → M (Unit {0})
destroy_wireless_management_event none = pure tt
destroy_wireless_management_event (some o) = do
  delete o.members.siu_uuids
  for_each delete_element o.members.device_pairing_information.elements
  delete o.members.device_pairing_information.address
  delete (some o.at)
