-- ===== src/Memory/Destroy/Twice.antt =====
-- The functions of src/sdk_types.cpp that destroy the members of a struct leave null pointers, so
-- that to destroy the members again does nothing. That of a wireless event does not; see `Leaks`.
use ommo_sdk_external.Prelude.{◌≡◌, refl, some, Option-cases, inl, inr}
use ommo_sdk_external.Memory.{Heap, M, delete, ◌>>=◌}
use ommo_sdk_external.Memory.Results.{Results, >>=-Results, pure-Results, any-Results}
use ommo_sdk_external.Memory.Structs.{
  DescriptorMembers, DevicesMembers, CommonMembers, BasestationMembers, SiuMembers, ReceiverMembers,
  DataMembers, PacketMembers, EventMembers,
}
use ommo_sdk_external.Memory.Destroy.{
  destroy_device_descriptor_members, destroy_common_hardware_state_members,
  destroy_basestation_hardware_state_members, destroy_siu_hardware_state_members,
  destroy_wireless_receiver_hardware_state_members, destroy_tracking_device_data_members,
  destroy_device_packet_members, destroy_tracking_group_members,
  destroy_tracking_group_event_members,
}

-- The command does nothing to these members.
abbrev pub IsDone : {A : Type 0} → (A → M A) → A → Type 0
IsDone destroy x = (h : Heap) → destroy x h ≡ some (x, h)

descriptor-IsDone :
    (m : DescriptorMembers)
    → Results (IsDone destroy_device_descriptor_members) (destroy_device_descriptor_members m)
unfolding destroy_device_descriptor_members delete
descriptor-IsDone m = >>=-Results (any-Results (delete m.sensor_unit_descriptors)) (λ x0 u0.
    >>=-Results (any-Results (delete m.supported_fusion_modes))
      (λ x1 u1. pure-Results _ (λ h. refl)))

common-IsDone :
    (m : CommonMembers)
    → Results
        (IsDone destroy_common_hardware_state_members)
        (destroy_common_hardware_state_members m)
unfolding destroy_common_hardware_state_members delete
common-IsDone m = >>=-Results (any-Results (delete m.serial_number)) (λ x0 u0.
    >>=-Results (any-Results (delete m.usb_port_name)) (λ x1 u1. pure-Results _ (λ h. refl)))

basestation-IsDone :
    (m : BasestationMembers)
    → Results
        (IsDone destroy_basestation_hardware_state_members)
        (destroy_basestation_hardware_state_members m)
unfolding destroy_basestation_hardware_state_members delete
basestation-IsDone m =
    >>=-Results (common-IsDone m.common_state) (λ c done. pure-Results _ (λ h. rw (done h) refl))

siu-IsDone :
    (m : SiuMembers)
    → Results (IsDone destroy_siu_hardware_state_members) (destroy_siu_hardware_state_members m)
unfolding destroy_siu_hardware_state_members delete
siu-IsDone m = >>=-Results (common-IsDone m.common_state) (λ c done.
    >>=-Results (any-Results (delete m.sensor_device_states))
      (λ x0 u0. pure-Results _ (λ h. rw (done h) refl)))

receiver-IsDone :
    (m : ReceiverMembers)
    → Results
        (IsDone destroy_wireless_receiver_hardware_state_members)
        (destroy_wireless_receiver_hardware_state_members m)
unfolding destroy_wireless_receiver_hardware_state_members delete
receiver-IsDone m = >>=-Results (common-IsDone m.common_state) (λ c done.
    >>=-Results (any-Results (delete m.connected_sius))
      (λ x0 u0. pure-Results _ (λ h. rw (done h) refl)))

device_data-IsDone :
    (m : DataMembers)
    → Results (IsDone destroy_tracking_device_data_members) (destroy_tracking_device_data_members m)
unfolding destroy_tracking_device_data_members delete
device_data-IsDone m = >>=-Results (any-Results (delete m.raw_sensor_data)) (λ x0 u0.
    >>=-Results (any-Results (delete m.poses)) (λ x1 u1.
      >>=-Results (any-Results (delete m.buttons)) (λ x2 u2.
        >>=-Results (any-Results (delete m.latency_timestamps))
          (λ x3 u3. pure-Results _ (λ h. refl)))))

packet-IsDone :
    (m : PacketMembers)
    → Results (IsDone destroy_device_packet_members) (destroy_device_packet_members m)
unfolding destroy_device_packet_members delete
packet-IsDone m =
    >>=-Results (device_data-IsDone m.device_data)
      (λ d done. pure-Results _ (λ h. rw (done h) refl))

group-IsDone :
    (m : DevicesMembers)
    → Results (IsDone destroy_tracking_group_members) (destroy_tracking_group_members m)
unfolding destroy_tracking_group_members delete
group-IsDone m =
    >>=-Results (any-Results (delete m.devices.address)) (λ x0 u0. pure-Results _ (λ h. refl))

event-IsDone :
    (m : EventMembers)
    → Results (IsDone destroy_tracking_group_event_members) (destroy_tracking_group_event_members m)
unfolding destroy_tracking_group_event_members delete
event-IsDone m =
    >>=-Results (group-IsDone m.tracking_group) (λ g done. pure-Results _ (λ h. rw (done h) refl))

again :
    {A : Type 0} (destroy : A → M A) (m : A) (h : Heap)
    → Results (IsDone destroy) (destroy m)
    → (destroy m >>= destroy) h ≡ destroy m h
again destroy m h r = elim (Option-cases (destroy m h)) [
  | inl fault ↦ rw fault refl
  | inr ((x, h'), e) ↦ rw e (r.get h x h' e h')
]

-- To destroy twice the members of a device descriptor, of the state of a device of any kind, of
-- device data, a packet, a tracking group or its event does the same as to destroy them once.
pub members_twice_lem :
    (h : Heap) (d : DescriptorMembers) (c : CommonMembers) (b : BasestationMembers) (s : SiuMembers)
    (r : ReceiverMembers) (t : DataMembers) (p : PacketMembers) (g : DevicesMembers)
    (e : EventMembers)
    → ((destroy_device_descriptor_members d >>= destroy_device_descriptor_members) h
        ≡ destroy_device_descriptor_members d h)
      × ((destroy_common_hardware_state_members c >>= destroy_common_hardware_state_members) h
          ≡ destroy_common_hardware_state_members c h)
      × ((destroy_basestation_hardware_state_members b
              >>= destroy_basestation_hardware_state_members)
            h
          ≡ destroy_basestation_hardware_state_members b h)
      × ((destroy_siu_hardware_state_members s >>= destroy_siu_hardware_state_members) h
          ≡ destroy_siu_hardware_state_members s h)
      × ((destroy_wireless_receiver_hardware_state_members r
              >>= destroy_wireless_receiver_hardware_state_members)
            h
          ≡ destroy_wireless_receiver_hardware_state_members r h)
      × ((destroy_tracking_device_data_members t >>= destroy_tracking_device_data_members) h
          ≡ destroy_tracking_device_data_members t h)
      × ((destroy_device_packet_members p >>= destroy_device_packet_members) h
          ≡ destroy_device_packet_members p h)
      × ((destroy_tracking_group_members g >>= destroy_tracking_group_members) h
          ≡ destroy_tracking_group_members g h)
      × ((destroy_tracking_group_event_members e >>= destroy_tracking_group_event_members) h
          ≡ destroy_tracking_group_event_members e h)
members_twice_lem h d c b s r t p g e = (
  again destroy_device_descriptor_members d h (descriptor-IsDone d),
  again destroy_common_hardware_state_members c h (common-IsDone c),
  again destroy_basestation_hardware_state_members b h (basestation-IsDone b),
  again destroy_siu_hardware_state_members s h (siu-IsDone s),
  again destroy_wireless_receiver_hardware_state_members r h (receiver-IsDone r),
  again destroy_tracking_device_data_members t h (device_data-IsDone t),
  again destroy_device_packet_members p h (packet-IsDone p),
  again destroy_tracking_group_members g h (group-IsDone g),
  again destroy_tracking_group_event_members e h (event-IsDone e),
)
