-- ===== src/Types/Names.antt =====
-- The names of the states of hardware (src/sdk_types.cpp). A value of a C enum is a number, also
-- one that is none of its constants: an `int32_t` is given as its bit pattern.
use ommo_sdk_external.Prelude.{ℕ, ◌==◌, if◌then◌else◌}
use Prim.Native.String.{String}

unfoldable pub get_hardware_status_name : ℕ → String
get_hardware_status_name status =
    if status == 0
    then "Unknown"
    else if status == 1
    then "Idle"
    else if status == 2
    then "SettingUp"
    else if status == 3
    then "WaitingOnCommand"
    else if status == 4
    then "Running"
    else if status == 5
    then "Error"
    else "Invalid"

unfoldable pub get_direct_comm_status_name : ℕ → String
get_direct_comm_status_name status =
    if status == 0
    then "None"
    else if status == 1
    then "Idle"
    else if status == 2
    then "Connected"
    else if status == 3
    then "DescriptorRequest"
    else if status == 4
    then "ChannelSearch"
    else "Invalid"
