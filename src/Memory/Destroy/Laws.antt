-- ===== src/Memory/Destroy/Laws.antt =====
-- Every Destroy function of src/sdk_types.cpp gives up the blocks that its argument owns, each of
-- them once, and no other block. `DestroyTrackingGroupMembers` does not; see `Leaks`.
use ommo_sdk_external.Prelude.{ℕ, ◌+◌, ◌≡◌, refl, arith, Option, none, some}
use ommo_sdk_external.Memory.{Ptr, M, Object, Array, delete, pure, for_each, ◌>>◌}
use ommo_sdk_external.Memory.Rules.{
  Changes, Blocks, nothing, at, block, give->>=, delete->>, pure_lem, delete-Changes,
  for_each_gives,
}
use ommo_sdk_external.Memory.Structs.{
  DescriptorMembers, DevicesMembers, CommonMembers, BasestationMembers, SiuMembers, ReceiverMembers,
  HardwareMembers, DataMembers, PacketMembers, FrameMembers, ResponseMembers, WirelessMembers,
  owns_array, owns_descriptor, owns_devices, owns_common, owns_basestation, owns_siu, owns_receiver,
  owns_hardware, owns_data, owns_packet, owns_frame, owns_response, owns_wireless, owns_object,
}
use ommo_sdk_external.Memory.Destroy.{
  delete_element, destroy_device_descriptor_members, destroy_common_hardware_state_members,
  destroy_basestation_hardware_state_members, destroy_siu_hardware_state_members,
  destroy_wireless_receiver_hardware_state_members, destroy_tracking_device_data_members,
  destroy_device_packet_members, destroy_wireless_management_event_members,
  destroy_device_descriptor, destroy_tracking_device_event, destroy_tracking_devices,
  destroy_common_hardware_state, destroy_basestation_hardware_state, destroy_siu_hardware_state,
  destroy_wireless_receiver_hardware_state, destroy_hardware_states, destroy_tracking_device_data,
  destroy_data_frame, destroy_device_packet, destroy_data_response,
  destroy_base_station_data_response, destroy_device_id_list, destroy_data_request,
  destroy_tracking_group, destroy_wireless_management_event,
}

-- What a pointer that may be null owns.
abbrev pub owns_pointer : {A : Type 0} → (A → Blocks) → Option (Object A) → Blocks
owns_pointer owns none = nothing
owns_pointer owns (some o) = owns_object owns o

-- The command gives up all that it is given.
abbrev pub Frees : {A : Type 0} → Blocks → M A → Type 0
Frees mine m = Changes mine (λ x. nothing) m

-- The command gives up what is left to do after `mine`.
pub ends :
    {A B : Type 0} {mine : Blocks} {m : M A} (x : B) → Frees mine m → Frees mine (m >> pure x)
ends x c = give->>= {rest = nothing} (λ a. omega arith) c (λ y. pure_lem x (λ a. refl))

module _ {A B : Type 0} {owns : A → Blocks} {f : A → M B}
    (frees : (x : A) → Frees (owns x) (f x)) where
  -- To destroy the members of an object, then its block.
  pub object_lem : (o : Object A) → Frees (owns_object owns o) (f o.members >> delete (some o.at))
  object_lem o =
      give->>= {rest = block o.at} (λ a. omega arith) (frees o.members)
        (λ x. delete-Changes (some o.at))

-- To destroy the elements of an array, then the array.
pub array_lem :
    {A B : Type 0} {owns : A → Blocks} {f : A → M A} {pre rest : Blocks} {post : B → Blocks}
    {next : M B}
    → ((x : A) → Frees (owns x) (f x))
    → (r : Array A) → ((a : ℕ) → pre a ≡ owns_array owns r a + rest a)
    → Changes rest post next
    → Changes pre post (for_each f r.elements >> (delete r.address >> next))
array_lem {rest} frees r split more =
    give->>= {rest = λ a. at r.address a + rest a} (λ a. omega (arith, split a))
      (for_each_gives frees r.elements) (λ ys. delete->> r.address (λ a. refl) more)

pub destroy_device_descriptor_members-Frees :
    (m : DescriptorMembers) → Frees (owns_descriptor m) (destroy_device_descriptor_members m)
unfolding destroy_device_descriptor_members
destroy_device_descriptor_members-Frees m =
    delete->> m.sensor_unit_descriptors (λ a. refl)
      (ends _ (delete-Changes m.supported_fusion_modes))

pub destroy_common_hardware_state_members-Frees :
    (m : CommonMembers) → Frees (owns_common m) (destroy_common_hardware_state_members m)
unfolding destroy_common_hardware_state_members
destroy_common_hardware_state_members-Frees m =
    delete->> m.serial_number (λ a. refl) (ends _ (delete-Changes m.usb_port_name))

pub destroy_basestation_hardware_state_members-Frees :
    (m : BasestationMembers)
    → Frees (owns_basestation m) (destroy_basestation_hardware_state_members m)
unfolding destroy_basestation_hardware_state_members
destroy_basestation_hardware_state_members-Frees m =
    give->>= {rest = nothing} (λ a. omega arith)
      (destroy_common_hardware_state_members-Frees m.common_state) (λ c. pure_lem _ (λ a. refl))

pub destroy_siu_hardware_state_members-Frees :
    (m : SiuMembers) → Frees (owns_siu m) (destroy_siu_hardware_state_members m)
unfolding destroy_siu_hardware_state_members
destroy_siu_hardware_state_members-Frees m =
    give->>= (λ a. refl) (destroy_common_hardware_state_members-Frees m.common_state)
      (λ c. ends _ (delete-Changes m.sensor_device_states))

pub destroy_wireless_receiver_hardware_state_members-Frees :
    (m : ReceiverMembers)
    → Frees (owns_receiver m) (destroy_wireless_receiver_hardware_state_members m)
unfolding destroy_wireless_receiver_hardware_state_members
destroy_wireless_receiver_hardware_state_members-Frees m =
    give->>= (λ a. refl) (destroy_common_hardware_state_members-Frees m.common_state)
      (λ c. ends _ (delete-Changes m.connected_sius))

pub destroy_tracking_device_data_members-Frees :
    (m : DataMembers) → Frees (owns_data m) (destroy_tracking_device_data_members m)
unfolding destroy_tracking_device_data_members
destroy_tracking_device_data_members-Frees m =
    delete->> m.raw_sensor_data (λ a. refl)
      (delete->> m.poses (λ a. refl)
        (delete->> m.buttons (λ a. refl) (ends _ (delete-Changes m.latency_timestamps))))

pub destroy_device_packet_members-Frees :
    (m : PacketMembers) → Frees (owns_packet m) (destroy_device_packet_members m)
unfolding destroy_device_packet_members
destroy_device_packet_members-Frees m =
    give->>= {rest = nothing} (λ a. omega arith)
      (destroy_tracking_device_data_members-Frees m.device_data) (λ d. pure_lem _ (λ a. refl))

delete_element-Frees : (p : Ptr) → Frees (at p) (delete_element p)
delete_element-Frees p = ends p (delete-Changes p)

pub destroy_wireless_management_event_members-Frees :
    (m : WirelessMembers) → Frees (owns_wireless m) (destroy_wireless_management_event_members m)
unfolding destroy_wireless_management_event_members
destroy_wireless_management_event_members-Frees m =
    delete->> m.siu_uuids (λ a. refl)
      (array_lem {rest = nothing} delete_element-Frees m.device_pairing_information
        (λ a. omega arith) (pure_lem _ (λ a. refl)))

-- The functions on pointers.
pub destroy_device_descriptor-Frees :
    (o : Option (Object DescriptorMembers))
    → Frees (owns_pointer owns_descriptor o) (destroy_device_descriptor o)
unfolding destroy_device_descriptor
destroy_device_descriptor-Frees none = pure_lem tt (λ a. refl)
destroy_device_descriptor-Frees (some o) = object_lem destroy_device_descriptor_members-Frees o

pub destroy_tracking_device_event-Frees :
    (o : Option (Object DescriptorMembers))
    → Frees (owns_pointer owns_descriptor o) (destroy_tracking_device_event o)
unfolding destroy_tracking_device_event
destroy_tracking_device_event-Frees none = pure_lem tt (λ a. refl)
destroy_tracking_device_event-Frees (some o) = object_lem destroy_device_descriptor_members-Frees o

pub destroy_common_hardware_state-Frees :
    (o : Option (Object CommonMembers))
    → Frees (owns_pointer owns_common o) (destroy_common_hardware_state o)
unfolding destroy_common_hardware_state
destroy_common_hardware_state-Frees none = pure_lem tt (λ a. refl)
destroy_common_hardware_state-Frees (some o) =
    object_lem destroy_common_hardware_state_members-Frees o

pub destroy_basestation_hardware_state-Frees :
    (o : Option (Object BasestationMembers))
    → Frees (owns_pointer owns_basestation o) (destroy_basestation_hardware_state o)
unfolding destroy_basestation_hardware_state
destroy_basestation_hardware_state-Frees none = pure_lem tt (λ a. refl)
destroy_basestation_hardware_state-Frees (some o) =
    object_lem destroy_basestation_hardware_state_members-Frees o

pub destroy_siu_hardware_state-Frees :
    (o : Option (Object SiuMembers))
    → Frees (owns_pointer owns_siu o) (destroy_siu_hardware_state o)
unfolding destroy_siu_hardware_state
destroy_siu_hardware_state-Frees none = pure_lem tt (λ a. refl)
destroy_siu_hardware_state-Frees (some o) = object_lem destroy_siu_hardware_state_members-Frees o

pub destroy_wireless_receiver_hardware_state-Frees :
    (o : Option (Object ReceiverMembers))
    → Frees (owns_pointer owns_receiver o) (destroy_wireless_receiver_hardware_state o)
unfolding destroy_wireless_receiver_hardware_state
destroy_wireless_receiver_hardware_state-Frees none = pure_lem tt (λ a. refl)
destroy_wireless_receiver_hardware_state-Frees (some o) =
    object_lem destroy_wireless_receiver_hardware_state_members-Frees o

pub destroy_tracking_device_data-Frees :
    (o : Option (Object DataMembers))
    → Frees (owns_pointer owns_data o) (destroy_tracking_device_data o)
unfolding destroy_tracking_device_data
destroy_tracking_device_data-Frees none = pure_lem tt (λ a. refl)
destroy_tracking_device_data-Frees (some o) =
    object_lem destroy_tracking_device_data_members-Frees o

pub destroy_device_packet-Frees :
    (o : Option (Object PacketMembers))
    → Frees (owns_pointer owns_packet o) (destroy_device_packet o)
unfolding destroy_device_packet
destroy_device_packet-Frees none = pure_lem tt (λ a. refl)
destroy_device_packet-Frees (some o) = object_lem destroy_device_packet_members-Frees o

pub destroy_base_station_data_response-Frees :
    (o : Option (Object Ptr)) → Frees (owns_pointer at o) (destroy_base_station_data_response o)
unfolding destroy_base_station_data_response
destroy_base_station_data_response-Frees none = pure_lem tt (λ a. refl)
destroy_base_station_data_response-Frees (some o) = object_lem delete-Changes o

pub destroy_device_id_list-Frees :
    (o : Option (Object Ptr)) → Frees (owns_pointer at o) (destroy_device_id_list o)
unfolding destroy_device_id_list
destroy_device_id_list-Frees none = pure_lem tt (λ a. refl)
destroy_device_id_list-Frees (some o) = object_lem delete-Changes o

pub destroy_data_request-Frees :
    (o : Option (Object Ptr)) → Frees (owns_pointer at o) (destroy_data_request o)
unfolding destroy_data_request
destroy_data_request-Frees none = pure_lem tt (λ a. refl)
destroy_data_request-Frees (some o) = object_lem delete-Changes o

pub destroy_tracking_devices-Frees :
    (o : Option (Object DevicesMembers))
    → Frees (owns_pointer owns_devices o) (destroy_tracking_devices o)
unfolding destroy_tracking_devices
destroy_tracking_devices-Frees none = pure_lem tt (λ a. refl)
destroy_tracking_devices-Frees (some o) =
    array_lem {rest = block o.at} destroy_device_descriptor_members-Frees o.members.devices
      (λ a. omega arith) (delete-Changes (some o.at))

pub destroy_data_frame-Frees :
    (o : Option (Object FrameMembers)) → Frees (owns_pointer owns_frame o) (destroy_data_frame o)
unfolding destroy_data_frame
destroy_data_frame-Frees none = pure_lem tt (λ a. refl)
destroy_data_frame-Frees (some o) =
    array_lem {rest = block o.at} destroy_tracking_device_data_members-Frees o.members.device_data
      (λ a. omega arith) (delete-Changes (some o.at))

pub destroy_data_response-Frees :
    (o : Option (Object ResponseMembers))
    → Frees (owns_pointer owns_response o) (destroy_data_response o)
unfolding destroy_data_response
destroy_data_response-Frees none = pure_lem tt (λ a. refl)
destroy_data_response-Frees (some o) =
    array_lem {rest = block o.at} destroy_device_packet_members-Frees o.members.packets
      (λ a. omega arith) (delete-Changes (some o.at))

pub destroy_tracking_group-Frees :
    (o : Option (Object DevicesMembers))
    → Frees (owns_pointer owns_devices o) (destroy_tracking_group o)
unfolding destroy_tracking_group
destroy_tracking_group-Frees none = pure_lem tt (λ a. refl)
destroy_tracking_group-Frees (some o) =
    array_lem {rest = block o.at} destroy_device_descriptor_members-Frees o.members.devices
      (λ a. omega arith) (delete-Changes (some o.at))

pub destroy_wireless_management_event-Frees :
    (o : Option (Object WirelessMembers))
    → Frees (owns_pointer owns_wireless o) (destroy_wireless_management_event o)
unfolding destroy_wireless_management_event
destroy_wireless_management_event-Frees none = pure_lem tt (λ a. refl)
destroy_wireless_management_event-Frees (some o) =
    delete->> {rest = λ a. owns_array at o.members.device_pairing_information a + block o.at a}
      o.members.siu_uuids (λ a. omega arith)
      (array_lem {rest = block o.at} delete_element-Frees o.members.device_pairing_information
        (λ a. refl) (delete-Changes (some o.at)))

pub destroy_hardware_states-Frees :
    (o : Option (Object HardwareMembers))
    → Frees (owns_pointer owns_hardware o) (destroy_hardware_states o)
unfolding destroy_hardware_states
destroy_hardware_states-Frees none = pure_lem tt (λ a. refl)
destroy_hardware_states-Frees (some o) =
    array_lem
      {rest = λ a.
        owns_array owns_siu o.members.siu_states a
        + (owns_array owns_receiver o.members.wireless_receiver_states a + block o.at a)}
      destroy_basestation_hardware_state_members-Frees o.members.basestation_states
      (λ a. omega arith)
      (array_lem
        {rest = λ a. owns_array owns_receiver o.members.wireless_receiver_states a + block o.at a}
        destroy_siu_hardware_state_members-Frees o.members.siu_states (λ a. refl)
        (array_lem {rest = block o.at} destroy_wireless_receiver_hardware_state_members-Frees
          o.members.wireless_receiver_states (λ a. refl) (delete-Changes (some o.at))))
