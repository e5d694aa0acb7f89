-- ===== src/DataManager/Streams.antt =====
-- The streams of a DataManager (src/data_manager.cpp). The result lists the call data objects whose
-- CancelCall is called.
pub mod Laws
use ommo_sdk_external.Prelude.{
  ℕ, zero, suc, Bool, true, false, Option, none, some, List, [], ◌∷◌, if◌then◌else◌, ◌==◌, ◌>>=◌,
  is_some, lookup, insert, erase, map,
}
use ommo_sdk_external.DataManager.{DataManager}
use ommo_sdk_external.Hash.{hash_device_id}
use ommo_sdk_external.Types.{DeviceId}

unfoldable pub add_data_stream : DataManager → DeviceId → ℕ → DataManager × Bool
add_data_stream m device_id call_data =
    if is_some (lookup (hash_device_id device_id) m.device_data_streams) then (m, false) else (
      record m {
        device_data_streams = insert (hash_device_id device_id) call_data m.device_data_streams;
      },
      true,
    )

unfoldable pub remove_data_stream : DataManager → DeviceId → DataManager × Bool
remove_data_stream m device_id =
    if is_some (lookup (hash_device_id device_id) m.device_data_streams)
    then (
      record m { device_data_streams = erase (hash_device_id device_id) m.device_data_streams },
      true,
    )
    else (m, false)

unfoldable pub data_stream_exists : DataManager → DeviceId → Bool
data_stream_exists m device_id = is_some (lookup (hash_device_id device_id) m.device_data_streams)

unfoldable pub cancel_data_stream : DataManager → DeviceId → List ℕ × Bool
cancel_data_stream m device_id = elim (lookup (hash_device_id device_id) m.device_data_streams) [
  | none ↦ ([], false)
  | some call_data ↦ (call_data ∷ [], true)
]

abbrev pub stream_of : ℕ × ℕ → ℕ
stream_of (k, call_data) = call_data

unfoldable pub cancel_all_data_streams : DataManager → List ℕ
cancel_all_data_streams m = map stream_of m.device_data_streams

unfoldable pub clear_data_streams : DataManager → DataManager
clear_data_streams m = record m { device_data_streams = [] }

unfoldable pub cancel_data_frame_stream : DataManager → List ℕ × Bool
cancel_data_frame_stream m = elim m.dataframe_stream [
  | none ↦ ([], false)
  | some call_data ↦ (call_data ∷ [], true)
]

unfoldable pub remove_data_frame_stream : DataManager → DataManager
remove_data_frame_stream m = record m { dataframe_stream = none }

unfoldable pub set_data_frame_stream : DataManager → Option ℕ → DataManager
set_data_frame_stream m call_data = record m { dataframe_stream = call_data }

abbrev pub is_stream : Option ℕ → ℕ → Bool
is_stream none call_data = false
is_stream (some c) call_data = c == call_data

-- The loop of RemoveStream, with fuel for its rounds. Its body advances the iterator only where it
-- erases, and then it returns: where the first entry is another stream the next round is the same.
remove_loop : ℕ → List (ℕ × ℕ) → ℕ → Option (List (ℕ × ℕ) × Bool)
remove_loop zero streams call_data = none
remove_loop (suc fuel) [] call_data = some ([], false)
remove_loop (suc fuel) ((k, c) ∷ streams) call_data =
    let again = remove_loop fuel ((k, c) ∷ streams) call_data in
    if c == call_data then some (streams, true) else again

-- `none`: the fuel ran out.
unfoldable pub remove_stream : ℕ → DataManager → ℕ → Option (DataManager × Bool)
unfolding remove_loop
remove_stream fuel m call_data =
    if is_stream m.dataframe_stream call_data
    then some (record m { dataframe_stream = none }, true)
    else (remove_loop fuel m.device_data_streams call_data >>= λ r.
        some (record m { device_data_streams = r.0 }, r.1))

unfoldable pub clear_association : ℕ → DataManager → ℕ → Option (DataManager × Bool)
unfolding remove_stream
clear_association fuel m call_data = remove_stream fuel m call_data
