-- ===== src/WirelessManager/Requests.antt =====
-- What the requests of a wireless manager put on its stream.
use ommo_sdk_external.Prelude.{
  if◌then◌else◌, Bool, true, false, ℕ, ◌≡◌, refl, zero, suc, get_elem?, Option, none, some, List,
  [], ◌∷◌, arith,
}
use ommo_sdk_external.CallData.{
  ClientCallState, CallData, start_write, waiting, connecting, processing, finish,
}
use ommo_sdk_external.CallData.Wireless.{send_wireless_management_request}
use ommo_sdk_external.WirelessManager.{
  WirelessManager, Command, enable_pairing_mode, disable_pairing_mode, get_pairing_approved_list,
  approve_pairing, deny_pairing, unpair, get_pairing_blocked_list, block_pairing, unblock_pairing,
  clear_blocked_list, clear_approved_list, reset_wireless_config, set_interval_length,
  approve_interval_pairing, sleep_device, wake_device, get_pairing_approved_interval_list,
  request_of, perform,
}
use ommo_sdk_external.Types.{WirelessManagementRequest}

-- The command that a server reads in a request, as the list of all commands by request type.
commands : ℕ → ℕ → List Command
commands uuid n =
    enable_pairing_mode
    ∷ disable_pairing_mode
    ∷ get_pairing_approved_list
    ∷ approve_pairing uuid
    ∷ deny_pairing uuid
    ∷ unpair uuid
    ∷ get_pairing_blocked_list
    ∷ block_pairing uuid
    ∷ unblock_pairing uuid
    ∷ clear_blocked_list
    ∷ clear_approved_list
    ∷ reset_wireless_config
    ∷ set_interval_length n
    ∷ approve_interval_pairing uuid
    ∷ sleep_device uuid
    ∷ wake_device uuid
    ∷ get_pairing_approved_interval_list
    ∷ []

unfoldable pub command_of : WirelessManagementRequest → Option Command
unfolding commands
command_of r = elim r.request_type [
  | zero ↦ none
  | suc k ↦ get_elem? (commands r.siu_uuid r.interval_length) k
]

-- The request of each of the 17 functions can be told from every other: its type and its argument
-- give the command back.
pub command_of-request_of : (c : Command) → command_of (request_of c) ≡ some c
unfolding command_of request_of
command_of-request_of enable_pairing_mode = refl
command_of-request_of disable_pairing_mode = refl
command_of-request_of get_pairing_approved_list = refl
command_of-request_of (approve_pairing uuid) = refl
command_of-request_of (deny_pairing uuid) = refl
command_of-request_of (unpair uuid) = refl
command_of-request_of get_pairing_blocked_list = refl
command_of-request_of (block_pairing uuid) = refl
command_of-request_of (unblock_pairing uuid) = refl
command_of-request_of clear_blocked_list = refl
command_of-request_of clear_approved_list = refl
command_of-request_of reset_wireless_config = refl
command_of-request_of (set_interval_length n) = refl
command_of-request_of (approve_interval_pairing uuid) = refl
command_of-request_of (sleep_device uuid) = refl
command_of-request_of (wake_device uuid) = refl
command_of-request_of get_pairing_approved_interval_list = refl

-- The states in which the stream takes a request.
abbrev pub is_free : ClientCallState → Bool
is_free connecting = true
is_free processing = false
is_free waiting = true
is_free finish = false

-- A command of a manager with a call data object sends exactly the command's request if the stream
-- is connecting or waiting, and the stream is then processing. Otherwise nothing is sent and the
-- call data object is unchanged.
pub perform_lem :
    {R : Type 0} (m : WirelessManager R) (command : Command) (c : CallData R)
    → m.cdata ≡ some c
    → let (m', actions) = perform m command in
      (actions ≡ (if is_free c.status then start_write (request_of command) ∷ [] else []))
      × (m'.cdata ≡ some (if is_free c.status then record c { status = processing } else c))
unfolding perform send_wireless_management_request
perform_lem m command c e = ground arith
