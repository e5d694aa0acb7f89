-- ===== src/DataManager/Streams/Laws.antt =====
-- Properties of the streams of a DataManager.
use ommo_sdk_external.Prelude.{
  ℕ, zero, suc, ◌≡◌, ◌≢◌, refl, true, false, Option, none, some, List, [], ◌∷◌, arith,
  if◌then◌else◌, lookup, insert, lookup-insert, lookup-erase,
}
use ommo_sdk_external.DataManager.{DataManager}
use ommo_sdk_external.DataManager.Streams.{
  add_data_stream, remove_data_stream, data_stream_exists, cancel_data_stream, is_stream,
  remove_loop, remove_stream, clear_association,
}
use ommo_sdk_external.Hash.{hash_device_id}
use ommo_sdk_external.Types.{DeviceId}

-- The call data of a device's stream.
abbrev pub stream_for : DataManager → DeviceId → Option ℕ
stream_for m d = lookup (hash_device_id d) m.device_data_streams

-- AddDataStream succeeds exactly if the device has no stream. Then the device has the new stream, and
-- otherwise the one it had; a device with another hash has what it had.
pub add_data_stream_lem :
    (m : DataManager) (d other : DeviceId) (call_data : ℕ)
    → hash_device_id other ≢ hash_device_id d
    → let (m', added) = add_data_stream m d call_data in
      (added ≡ (if data_stream_exists m d then false else true))
      × (stream_for m' d ≡ (if added then some call_data else stream_for m d))
      × (stream_for m' other ≡ stream_for m other)
unfolding add_data_stream data_stream_exists
add_data_stream_lem m d other call_data ne =
    let k = hash_device_id d in
    ground (
      arith,
      lookup-insert k k call_data m.device_data_streams,
      lookup-insert k (hash_device_id other) call_data m.device_data_streams,
    )

-- If a device has no stream, one that is added can be cancelled and removed: the cancel reaches the
-- call data that was added, and after the removal the device has no stream.
pub add_cancel_remove :
    (m : DataManager) (d : DeviceId) (call_data : ℕ)
    → data_stream_exists m d ≡ false
    → let m' = (add_data_stream m d call_data).0 in
      (cancel_data_stream m' d ≡ (call_data ∷ [], true))
      × ((remove_data_stream m' d).1 ≡ true)
      × (data_stream_exists (remove_data_stream m' d).0 d ≡ false)
unfolding add_data_stream data_stream_exists cancel_data_stream remove_data_stream
add_cancel_remove m d call_data missing =
    let k = hash_device_id d in
    ground (
      arith,
      lookup-insert k k call_data m.device_data_streams,
      lookup-erase k k (insert k call_data m.device_data_streams),
    )

remove_loop-hangs :
    (fuel k c call_data : ℕ) (streams : List (ℕ × ℕ))
    → c ≢ call_data
    → remove_loop fuel ((k, c) ∷ streams) call_data ≡ none
unfolding remove_loop
remove_loop-hangs zero k c call_data streams ne = refl
remove_loop-hangs (suc fuel) k c call_data streams ne =
    ground (arith, remove_loop-hangs fuel k c call_data streams ne)

-- If the first of the device streams is not the one to be removed, and neither is the data frame
-- stream, then RemoveStream does not return within any number of rounds of its loop.
pub remove_stream_hangs :
    (fuel k c call_data : ℕ) (streams : List (ℕ × ℕ)) (m : DataManager)
    → m.device_data_streams ≡ (k, c) ∷ streams
    → c ≢ call_data
    → is_stream m.dataframe_stream call_data ≡ false
    → clear_association fuel m call_data ≡ none
unfolding clear_association
remove_stream_hangs fuel k c call_data streams m first ne frame =
    rw (frame, first, remove_loop-hangs fuel k c call_data streams ne)

-- In the other cases RemoveStream returns within one round, and a stream that is removed is gone.
pub remove_stream_returns :
    (fuel k c : ℕ) (streams : List (ℕ × ℕ)) (m : DataManager)
    → (is_stream m.dataframe_stream c ≡ true
        → remove_stream (suc fuel) m c ≡ some (record m { dataframe_stream = none }, true))
      × (is_stream m.dataframe_stream c ≡ false
          → m.device_data_streams ≡ []
          → remove_stream (suc fuel) m c ≡ some (m, false))
      × (is_stream m.dataframe_stream c ≡ false
          → m.device_data_streams ≡ (k, c) ∷ streams
          → remove_stream (suc fuel) m c ≡ some (record m { device_data_streams = streams }, true))
unfolding remove_stream
remove_stream_returns fuel k c streams m = (λ f. rw f, λ f e. ground arith, λ f e. ground arith)
