-- ===== src/Memory/Lifetimes.antt =====
-- From its creation to its destruction an object of the API allocates and frees the same blocks:
-- the copies of src/sdk_types.cpp and what the converters of src/protobuf_converters.cpp give.
use ommo_sdk_external.Prelude.{ℕ, ◌≡◌, arith, Option, some}
use ommo_sdk_external.Memory.{Heap, M, Object, count, ◌>>=◌}
use ommo_sdk_external.Memory.Rules.{IsValid, Blocks, at, >>=-Changes}
use ommo_sdk_external.Memory.Structs.{
  owns_object, owns_response, owns_basestation, owns_common, owns_data, owns_descriptor,
  owns_devices, owns_frame, owns_hardware, owns_packet, owns_receiver, owns_siu, owns_wireless,
}
use ommo_sdk_external.Memory.Create.{
  new_device_descriptor, new_tracking_device_data, new_device_packet, new_data_request,
  new_tracking_group, new_tracking_device_event, new_wireless_management_event,
  new_common_hardware_state, new_basestation_hardware_state, new_siu_hardware_state,
  new_wireless_receiver_hardware_state, new_hardware_states, new_data_frame, no_data_response,
  new_data_response, new_base_station_data_response, new_device_id_list,
}
use ommo_sdk_external.Memory.Create.Laws.{
  Gives, new_device_descriptor-Gives, new_tracking_device_data-Gives, new_device_packet-Gives,
  new_data_request-Gives, new_tracking_group-Gives, new_tracking_device_event-Gives,
  new_wireless_management_event-Gives, new_common_hardware_state-Gives,
  new_basestation_hardware_state-Gives, new_siu_hardware_state-Gives,
  new_wireless_receiver_hardware_state-Gives, new_hardware_states-Gives, new_data_frame-Gives,
  no_data_response-Gives, new_data_response-Gives, new_base_station_data_response-Gives,
  new_device_id_list-Gives,
}
use ommo_sdk_external.Memory.Destroy.{
  destroy_device_descriptor, destroy_tracking_device_event, destroy_tracking_devices,
  destroy_common_hardware_state, destroy_basestation_hardware_state, destroy_siu_hardware_state,
  destroy_wireless_receiver_hardware_state, destroy_hardware_states, destroy_tracking_device_data,
  destroy_data_frame, destroy_device_packet, destroy_data_request, destroy_tracking_group,
  destroy_wireless_management_event, destroy_data_response, destroy_base_station_data_response,
  destroy_device_id_list,
}
use ommo_sdk_external.Memory.Destroy.Laws.{
  Frees, owns_pointer, destroy_device_descriptor-Frees, destroy_tracking_device_event-Frees,
  destroy_tracking_devices-Frees, destroy_common_hardware_state-Frees,
  destroy_basestation_hardware_state-Frees, destroy_siu_hardware_state-Frees,
  destroy_wireless_receiver_hardware_state-Frees, destroy_hardware_states-Frees,
  destroy_tracking_device_data-Frees, destroy_data_frame-Frees, destroy_device_packet-Frees,
  destroy_data_request-Frees, destroy_tracking_group-Frees, destroy_wireless_management_event-Frees,
  destroy_data_response-Frees, destroy_base_station_data_response-Frees,
  destroy_device_id_list-Frees,
}

-- A command ended with no fault and with exactly the blocks of `h`.
unfoldable pub Keeps : Heap → Option (Unit {0} × Heap) → Type 0
Keeps h r =
    (h' : Heap) × (r ≡ some (tt, h')) × IsValid h' × ((a : ℕ) → count a h'.live ≡ count a h.live)

-- A `unique_ptr` to what was created, to its end.
abbrev pub owned : {A : Type 0} → M (Object A) → (Option (Object A) → M (Unit {0})) → M (Unit {0})
owned make destroy = make >>= λ o. destroy (some o)

keeps :
    {A : Type 0} (owns : A → Blocks) (destroy : Option (Object A) → M (Unit {0}))
    {make : M (Object A)}
    → Gives (owns_object owns) make
    → ((o : Option (Object A)) → Frees (owns_pointer owns o) (destroy o))
    → (h : Heap) → IsValid h
    → Keeps h (owned make destroy h)
unfolding Keeps
keeps owns destroy {make} gives frees h v =
    let (x, h', e, v', balance) =
      (>>=-Changes {m = make} {f = λ o. destroy (some o)} gives (λ o. frees (some o))).run h v
        (λ a. omega arith) in
    (h', e, v', λ a. omega (arith, balance a))

-- To create and to destroy a device descriptor, device data, a packet, a device event, a request, a
-- tracking group, a list of devices, a data frame or a wireless event, with any number of elements,
-- neither faults nor changes which blocks are allocated.
pub devices_lem :
    (h : Heap)
    → IsValid h
    → (count : ℕ)
    → Keeps h (owned new_device_descriptor destroy_device_descriptor h)
      × Keeps h (owned new_tracking_device_data destroy_tracking_device_data h)
      × Keeps h (owned new_device_packet destroy_device_packet h)
      × Keeps h (owned new_tracking_device_event destroy_tracking_device_event h)
      × Keeps h (owned (new_data_request count) destroy_data_request h)
      × Keeps h (owned (new_tracking_group count) destroy_tracking_group h)
      × Keeps h (owned (new_tracking_group count) destroy_tracking_devices h)
      × Keeps h (owned (new_data_frame count) destroy_data_frame h)
      × Keeps h (owned (new_wireless_management_event count) destroy_wireless_management_event h)
devices_lem h v n = (
  keeps owns_descriptor destroy_device_descriptor new_device_descriptor-Gives
      destroy_device_descriptor-Frees h v,
  keeps owns_data destroy_tracking_device_data new_tracking_device_data-Gives
      destroy_tracking_device_data-Frees h v,
  keeps owns_packet destroy_device_packet new_device_packet-Gives destroy_device_packet-Frees h v,
  keeps owns_descriptor destroy_tracking_device_event new_tracking_device_event-Gives
      destroy_tracking_device_event-Frees h v,
  keeps at destroy_data_request (new_data_request-Gives n) destroy_data_request-Frees h v,
  keeps owns_devices destroy_tracking_group (new_tracking_group-Gives n)
      destroy_tracking_group-Frees h v,
  keeps owns_devices destroy_tracking_devices (new_tracking_group-Gives n)
      destroy_tracking_devices-Frees h v,
  keeps owns_frame destroy_data_frame (new_data_frame-Gives n) destroy_data_frame-Frees h v,
  keeps owns_wireless destroy_wireless_management_event (new_wireless_management_event-Gives n)
      destroy_wireless_management_event-Frees h v,
)

-- To create and to destroy the state of a base station, an SIU or a wireless receiver, or hardware
-- states with any number of each, neither faults nor changes which blocks are allocated.
pub hardware_states_lem :
    (h : Heap)
    → IsValid h
    → (basestations sius receivers : ℕ)
    → Keeps h (owned new_common_hardware_state destroy_common_hardware_state h)
      × Keeps h (owned new_basestation_hardware_state destroy_basestation_hardware_state h)
      × Keeps h (owned new_siu_hardware_state destroy_siu_hardware_state h)
      × Keeps h
          (owned new_wireless_receiver_hardware_state destroy_wireless_receiver_hardware_state h)
      × Keeps h (owned (new_hardware_states basestations sius receivers) destroy_hardware_states h)
hardware_states_lem h v b s r = (
  keeps owns_common destroy_common_hardware_state new_common_hardware_state-Gives
      destroy_common_hardware_state-Frees h v,
  keeps owns_basestation destroy_basestation_hardware_state new_basestation_hardware_state-Gives
      destroy_basestation_hardware_state-Frees h v,
  keeps owns_siu destroy_siu_hardware_state new_siu_hardware_state-Gives
      destroy_siu_hardware_state-Frees h v,
  keeps owns_receiver destroy_wireless_receiver_hardware_state
      new_wireless_receiver_hardware_state-Gives destroy_wireless_receiver_hardware_state-Frees h v,
  keeps owns_hardware destroy_hardware_states (new_hardware_states-Gives b s r)
      destroy_hardware_states-Frees h v,
)

-- To read packets, or none, from a storage and to destroy the response, and to list devices and to
-- destroy the list, neither faults nor changes which blocks are allocated.
pub responses_lem :
    (h : Heap)
    → IsValid h
    → (count : ℕ)
    → Keeps h (owned no_data_response destroy_data_response h)
      × Keeps h (owned (new_data_response count) destroy_data_response h)
      × Keeps h (owned new_base_station_data_response destroy_base_station_data_response h)
      × Keeps h (owned new_device_id_list destroy_device_id_list h)
responses_lem h v n = (
  keeps owns_response destroy_data_response no_data_response-Gives destroy_data_response-Frees h v,
  keeps owns_response destroy_data_response (new_data_response-Gives n) destroy_data_response-Frees
      h v,
  keeps at destroy_base_station_data_response new_base_station_data_response-Gives
      destroy_base_station_data_response-Frees h v,
  keeps at destroy_device_id_list new_device_id_list-Gives destroy_device_id_list-Frees h v,
)
