-- ===== src/Memory/Create/Laws.antt =====
-- What is created owns exactly the blocks that were allocated for it, also those that passed
-- through a temporary object.
use ommo_sdk_external.Prelude.{ℕ, ◌+◌, refl, arith, none, ◌==◌, Bool-cases, inl, inr}
use ommo_sdk_external.Memory.{M, Object, ◌>>=◌}
use ommo_sdk_external.Memory.Rules.{
  Changes, Blocks, nothing, at, new->>=, >>=-Changes, frame, pure_lem, fill-Changes,
  move_out-Changes,
}
use ommo_sdk_external.Memory.Structs.{
  owns_array, owns_descriptor, owns_devices, owns_common, owns_basestation, owns_siu, owns_receiver,
  owns_hardware, owns_data, owns_packet, owns_frame, owns_response, owns_event, owns_wireless,
  owns_object,
}
use ommo_sdk_external.Memory.Create.{
  new_device_descriptor, new_tracking_device_data, moved, new_array, new_device_packet,
  new_data_request, new_requested_devices, new_tracking_group, new_tracking_group_event,
  new_tracking_device_event, new_element, new_wireless_management_event, new_common_hardware_state,
  new_basestation_hardware_state, new_siu_hardware_state, new_wireless_receiver_hardware_state,
  new_hardware_states, new_data_frame, no_data_response, new_data_response,
  new_base_station_data_response, new_device_id_list,
}

-- From a heap of any blocks, the command gives a result that owns blocks of its own.
abbrev pub Gives : {A : Type 0} → (A → Blocks) → M A → Type 0
Gives owns m = Changes nothing owns m

-- To do so beside other blocks that are at hand, and go on.
pub get->>= :
    {A B : Type 0} {held : Blocks} {owns : A → Blocks} {post : B → Blocks} {m : M A} {f : A → M B}
    → Gives owns m
    → ((x : A) → Changes (λ a. owns x a + held a) post (f x))
    → Changes held post (m >>= f)
get->>= {held} {owns} {f} first next =
    >>=-Changes {mid = λ x a. owns x a + held a} {f = f}
      (frame {pre' = held} held first (λ a. omega arith) (λ x a. refl)) next

module _ {A : Type 0} (owns : A → Blocks) {make : M (Object A)}
    (gives : Gives (owns_object owns) make) where
  pub moved-Gives : Gives owns (moved make)
  unfolding moved
  moved-Gives = >>=-Changes gives move_out-Changes

  pub new_array-Gives : (n : ℕ) → Gives (owns_array owns) (new_array n make)
  unfolding new_array
  new_array-Gives n =
      new->>= (λ p. get->>= (fill-Changes moved-Gives n) (λ xs. pure_lem _ (λ a. omega arith)))

pub new_device_descriptor-Gives : Gives (owns_object owns_descriptor) new_device_descriptor
unfolding new_device_descriptor
new_device_descriptor-Gives =
    new->>= (λ p. new->>= (λ s. new->>= (λ m. pure_lem _ (λ a. omega arith))))

pub new_tracking_device_data-Gives : Gives (owns_object owns_data) new_tracking_device_data
unfolding new_tracking_device_data
new_tracking_device_data-Gives =
    new->>= (λ p.
      new->>= (λ r. new->>= (λ s. new->>= (λ b. new->>= (λ t. pure_lem _ (λ a. omega arith))))))

pub new_device_packet-Gives : Gives (owns_object owns_packet) new_device_packet
unfolding new_device_packet
new_device_packet-Gives = new->>= (λ p.
    get->>= (moved-Gives owns_data new_tracking_device_data-Gives)
      (λ d. pure_lem _ (λ a. omega arith)))

new_requested_devices-Gives : (count : ℕ) → Gives at (new_requested_devices count)
new_requested_devices-Gives count = elim (Bool-cases (count == 0)) [
  | inl e ↦ rw e (pure_lem none (λ a. refl))
  | inr e ↦ rw e (new->>= (λ d. pure_lem _ (λ a. omega arith)))
]

pub new_data_request-Gives : (count : ℕ) → Gives (owns_object at) (new_data_request count)
unfolding new_data_request
new_data_request-Gives count =
    new->>= (λ p. get->>= (new_requested_devices-Gives count) (λ d. pure_lem _ (λ a. omega arith)))

pub new_tracking_group-Gives :
    (count : ℕ) → Gives (owns_object owns_devices) (new_tracking_group count)
unfolding new_tracking_group
new_tracking_group-Gives count = new->>= (λ p.
    get->>= (new_array-Gives owns_descriptor new_device_descriptor-Gives count)
      (λ ds. pure_lem _ (λ a. omega arith)))

pub new_tracking_group_event-Gives :
    (count : ℕ) → Gives (owns_object owns_event) (new_tracking_group_event count)
unfolding new_tracking_group_event
new_tracking_group_event-Gives count = new->>= (λ p.
    get->>= (moved-Gives owns_devices (new_tracking_group-Gives count))
      (λ g. pure_lem _ (λ a. omega arith)))

pub new_tracking_device_event-Gives : Gives (owns_object owns_descriptor) new_tracking_device_event
unfolding new_tracking_device_event
new_tracking_device_event-Gives = new->>= (λ p.
    get->>= (moved-Gives owns_descriptor new_device_descriptor-Gives)
      (λ d. pure_lem _ (λ a. omega arith)))

new_element-Gives : Gives at new_element
new_element-Gives = new->>= (λ p. pure_lem _ (λ a. omega arith))

pub new_wireless_management_event-Gives :
    (count : ℕ) → Gives (owns_object owns_wireless) (new_wireless_management_event count)
unfolding new_wireless_management_event
new_wireless_management_event-Gives count = new->>= (λ p. new->>= (λ u.
    new->>=
      (λ i. get->>= (fill-Changes new_element-Gives count) (λ es. pure_lem _ (λ a. omega arith)))))

pub new_common_hardware_state-Gives : Gives (owns_object owns_common) new_common_hardware_state
unfolding new_common_hardware_state
new_common_hardware_state-Gives =
    new->>= (λ p. new->>= (λ s. new->>= (λ u. pure_lem _ (λ a. omega arith))))

pub new_basestation_hardware_state-Gives :
    Gives (owns_object owns_basestation) new_basestation_hardware_state
unfolding new_basestation_hardware_state
new_basestation_hardware_state-Gives = new->>= (λ p.
    get->>= (moved-Gives owns_common new_common_hardware_state-Gives)
      (λ c. pure_lem _ (λ a. omega arith)))

pub new_siu_hardware_state-Gives : Gives (owns_object owns_siu) new_siu_hardware_state
unfolding new_siu_hardware_state
new_siu_hardware_state-Gives = new->>= (λ p.
    get->>= (moved-Gives owns_common new_common_hardware_state-Gives)
      (λ c. new->>= (λ s. pure_lem _ (λ a. omega arith))))

pub new_wireless_receiver_hardware_state-Gives :
    Gives (owns_object owns_receiver) new_wireless_receiver_hardware_state
unfolding new_wireless_receiver_hardware_state
new_wireless_receiver_hardware_state-Gives = new->>= (λ p.
    get->>= (moved-Gives owns_common new_common_hardware_state-Gives)
      (λ c. new->>= (λ s. pure_lem _ (λ a. omega arith))))

pub new_hardware_states-Gives :
    (basestations sius receivers : ℕ)
    → Gives (owns_object owns_hardware) (new_hardware_states basestations sius receivers)
unfolding new_hardware_states
new_hardware_states-Gives b s r = new->>= (λ p.
    get->>= (new_array-Gives owns_basestation new_basestation_hardware_state-Gives b) (λ bs.
      get->>= (new_array-Gives owns_siu new_siu_hardware_state-Gives s) (λ ss.
        get->>= (new_array-Gives owns_receiver new_wireless_receiver_hardware_state-Gives r)
          (λ rs. pure_lem _ (λ a. omega arith)))))

pub new_data_frame-Gives : (count : ℕ) → Gives (owns_object owns_frame) (new_data_frame count)
unfolding new_data_frame
new_data_frame-Gives count = new->>= (λ p.
    get->>= (new_array-Gives owns_data new_tracking_device_data-Gives count)
      (λ ds. pure_lem _ (λ a. omega arith)))

pub no_data_response-Gives : Gives (owns_object owns_response) no_data_response
unfolding no_data_response
no_data_response-Gives = new->>= (λ p. pure_lem _ (λ a. omega arith))

pub new_data_response-Gives :
    (count : ℕ) → Gives (owns_object owns_response) (new_data_response count)
unfolding new_data_response
new_data_response-Gives count = new->>= (λ p.
    get->>= (new_array-Gives owns_packet new_device_packet-Gives count)
      (λ ps. pure_lem _ (λ a. omega arith)))

pub new_base_station_data_response-Gives : Gives (owns_object at) new_base_station_data_response
unfolding new_base_station_data_response
new_base_station_data_response-Gives = new->>= (λ p. new->>= (λ q. pure_lem _ (λ a. omega arith)))

pub new_device_id_list-Gives : Gives (owns_object at) new_device_id_list
unfolding new_device_id_list
new_device_id_list-Gives = new->>= (λ p. new->>= (λ q. pure_lem _ (λ a. omega arith)))
