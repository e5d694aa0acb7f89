-- ===== src/Memory/Structs.antt =====
-- The members of the structs of include/sdk_types.h that own memory. A member that is an array of
-- structs with members of their own is an `Array`; any other pointer is a `Ptr`.
use ommo_sdk_external.Prelude.{◌+◌}
use ommo_sdk_external.Memory.{Ptr, Object, Array}
use ommo_sdk_external.Memory.Rules.{Blocks, block, at, total}

pub record DescriptorMembers : Type 0 where
  pub sensor_unit_descriptors : Ptr
  pub supported_fusion_modes : Ptr

pub record DevicesMembers : Type 0 where
  pub devices : Array DescriptorMembers

pub record CommonMembers : Type 0 where
  pub serial_number : Ptr
  pub usb_port_name : Ptr

pub record BasestationMembers : Type 0 where
  pub common_state : CommonMembers

pub record SiuMembers : Type 0 where
  pub common_state : CommonMembers
  pub sensor_device_states : Ptr

pub record ReceiverMembers : Type 0 where
  pub common_state : CommonMembers
  pub connected_sius : Ptr

pub record HardwareMembers : Type 0 where
  pub basestation_states : Array BasestationMembers
  pub siu_states : Array SiuMembers
  pub wireless_receiver_states : Array ReceiverMembers

pub record DataMembers : Type 0 where
  pub raw_sensor_data : Ptr
  pub poses : Ptr
  pub buttons : Ptr
  pub latency_timestamps : Ptr

pub record PacketMembers : Type 0 where
  pub device_data : DataMembers

pub record FrameMembers : Type 0 where
  pub device_data : Array DataMembers

pub record ResponseMembers : Type 0 where
  pub packets : Array PacketMembers

pub record EventMembers : Type 0 where
  pub tracking_group : DevicesMembers

-- An element of `device_pairing_information` has the pointer `device_part_nums`.
pub record WirelessMembers : Type 0 where
  pub siu_uuids : Ptr
  pub device_pairing_information : Array Ptr

-- The blocks that the members own.
abbrev pub owns_array : {A : Type 0} → (A → Blocks) → Array A → Blocks
owns_array owns r a = at r.address a + total owns r.elements a

abbrev pub owns_descriptor : DescriptorMembers → Blocks
owns_descriptor m a = at m.sensor_unit_descriptors a + at m.supported_fusion_modes a

abbrev pub owns_devices : DevicesMembers → Blocks
owns_devices m = owns_array owns_descriptor m.devices

abbrev pub owns_common : CommonMembers → Blocks
owns_common m a = at m.serial_number a + at m.usb_port_name a

abbrev pub owns_basestation : BasestationMembers → Blocks
owns_basestation m = owns_common m.common_state

abbrev pub owns_siu : SiuMembers → Blocks
owns_siu m a = owns_common m.common_state a + at m.sensor_device_states a

abbrev pub owns_receiver : ReceiverMembers → Blocks
owns_receiver m a = owns_common m.common_state a + at m.connected_sius a

abbrev pub owns_hardware : HardwareMembers → Blocks
owns_hardware m a =
    owns_array owns_basestation m.basestation_states a
    + (owns_array owns_siu m.siu_states a + owns_array owns_receiver m.wireless_receiver_states a)

abbrev pub owns_data : DataMembers → Blocks
owns_data m a =
    at m.raw_sensor_data a + (at m.poses a + (at m.buttons a + at m.latency_timestamps a))

abbrev pub owns_packet : PacketMembers → Blocks
owns_packet m = owns_data m.device_data

abbrev pub owns_frame : FrameMembers → Blocks
owns_frame m = owns_array owns_data m.device_data

abbrev pub owns_response : ResponseMembers → Blocks
owns_response m = owns_array owns_packet m.packets

abbrev pub owns_event : EventMembers → Blocks
owns_event m = owns_devices m.tracking_group

abbrev pub owns_wireless : WirelessMembers → Blocks
owns_wireless m a = at m.siu_uuids a + owns_array at m.device_pairing_information a

-- An object owns its own block beside what its members own.
abbrev pub owns_object : {A : Type 0} → (A → Blocks) → Object A → Blocks
owns_object owns o a = block o.at a + owns o.members a
