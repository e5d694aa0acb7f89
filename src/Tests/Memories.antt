-- ===== src/Tests/Memories.antt =====
-- The theorems about memory at concrete inputs.
use ommo_sdk_external.Prelude.{ℕ, ◌+◌, ◌≡◌, refl, none, some, [], ◌∷◌, List, arith}
use ommo_sdk_external.Memory.{Heap, ◌>>=◌, count}
use ommo_sdk_external.Memory.Rules.{IsValid, total}
use ommo_sdk_external.Memory.Structs.{
  DescriptorMembers, WirelessMembers, DataMembers, DevicesMembers, owns_descriptor,
}
use ommo_sdk_external.Memory.Create.{
  new_device_descriptor, new_tracking_device_data, new_device_packet, new_tracking_device_event,
  new_data_request, new_tracking_group, new_data_frame, new_wireless_management_event,
  new_tracking_group_event,
}
use ommo_sdk_external.Memory.Destroy.{
  destroy_device_descriptor, destroy_tracking_device_data, destroy_device_packet,
  destroy_tracking_device_event, destroy_data_request, destroy_tracking_group,
  destroy_tracking_devices, destroy_data_frame, destroy_wireless_management_event,
  destroy_tracking_group_event, destroy_wireless_management_event_members,
}
use ommo_sdk_external.Memory.Lifetimes.{Keeps, owned, devices_lem}
use ommo_sdk_external.Memory.Leaks.{Holds, tracking_group_event_leaks, wireless_members_dangle}
use ommo_sdk_external.Memory.Storage.{new_storage_memory, push_many, destroy_storage_memory}
use ommo_sdk_external.Memory.Storage.Laws.{storage_lem}

-- A heap with the blocks 3, 1 and 0.
abbrev three_blocks : Heap
three_blocks = record { next = 4; live = 3 ∷ 1 ∷ 0 ∷ [] }

three_blocks-IsValid : IsValid three_blocks
three_blocks-IsValid = record { once = λ a. ground arith; fresh = λ a below. ground arith }

storage_lem_example :
    Keeps three_blocks
      ((new_storage_memory 2 >>= λ s. (push_many 7 s >>= destroy_storage_memory)) three_blocks)
storage_lem_example = storage_lem three_blocks three_blocks-IsValid 2 7 (omega arith)

devices_lem_example :
    Keeps three_blocks (owned new_device_descriptor destroy_device_descriptor three_blocks)
    × Keeps three_blocks (owned new_tracking_device_data destroy_tracking_device_data three_blocks)
    × Keeps three_blocks (owned new_device_packet destroy_device_packet three_blocks)
    × Keeps three_blocks
        (owned new_tracking_device_event destroy_tracking_device_event three_blocks)
    × Keeps three_blocks (owned (new_data_request 2) destroy_data_request three_blocks)
    × Keeps three_blocks (owned (new_tracking_group 2) destroy_tracking_group three_blocks)
    × Keeps three_blocks (owned (new_tracking_group 2) destroy_tracking_devices three_blocks)
    × Keeps three_blocks (owned (new_data_frame 2) destroy_data_frame three_blocks)
    × Keeps three_blocks
        (owned (new_wireless_management_event 2) destroy_wireless_management_event three_blocks)
devices_lem_example = devices_lem three_blocks three_blocks-IsValid 2

tracking_group_event_leaks_example :
    (h' : Heap) × (devices : List DescriptorMembers) × ((new_tracking_group_event 2 >>= λ o.
    destroy_tracking_group_event (some o))
        three_blocks
      ≡ some (tt, h'))
    × Holds 2 devices
    × ((a : ℕ) → count a h'.live ≡ count a three_blocks.live + total owns_descriptor devices a)
tracking_group_event_leaks_example = tracking_group_event_leaks three_blocks three_blocks-IsValid 2

-- A wireless event with the blocks 3 and 1.
abbrev wireless : WirelessMembers
wireless = record {
  siu_uuids = some 3;
  device_pairing_information = record { address = some 1; elements = [] };
}

wireless_members_dangle_example :
    (destroy_wireless_management_event_members wireless
        >>= destroy_wireless_management_event_members)
      three_blocks
    ≡ none
wireless_members_dangle_example =
    wireless_members_dangle three_blocks three_blocks-IsValid wireless 1 refl (λ a. ground arith)

abbrev two_arrays : DescriptorMembers
two_arrays = record { sensor_unit_descriptors = some 3; supported_fusion_modes = some 1 }

abbrev measured : DataMembers
measured = record {
  raw_sensor_data = some 0;
  poses = none;
  buttons = some 1;
  latency_timestamps = some 3;
}

abbrev group : DevicesMembers
group = record { devices = record { address = some 0; elements = two_arrays ∷ [] } }
