-- ===== src/ClientManager/Racing.antt =====
-- Two threads in `UpdateDeviceDataStream` (src/client_manager.cpp) for one device and one data
-- manager: the request that opens its streams under `connected_devices_mtx_`, and the event that
-- reports the device, under `data_manager_list_mutex_`. Each test and each change of the data
-- manager is one step; between the test and the change the other thread may act.
use ommo_sdk_external.Prelude.{
  ℕ, suc, ◌<◌, ◌≡◌, refl, arith, true, false, some, List, [], ◌∷◌, ◌++◌, ◌==◌, ltb, lookup, insert,
  map, Bool-cases, inl, inr, lookup-insert, ==_refl,
}
use ommo_sdk_external.ClientManager.{
  open_device_data_stream, Updated, device_id_of, settings_of, requested_device, with_stream,
}
use ommo_sdk_external.DataManager.{DataManager}
use ommo_sdk_external.DataManager.Streams.{
  add_data_stream, data_stream_exists, cancel_data_stream, cancel_all_data_streams, stream_of,
}
use ommo_sdk_external.Hash.{hash_device_id}
use ommo_sdk_external.Types.{DeviceDescriptor}

-- What a thread does after it found that there is no stream: it opens one and saves its call data.
-- The answer of `AddDataStream` is not looked at.
unfoldable pub open_stream : ℕ → DataManager → DeviceDescriptor → Updated
open_stream next m device = record {
  manager = (add_data_stream m (device_id_of device) next).0;
  next_call = suc next;
  effects =
      open_device_data_stream next (settings_of m.request) (requested_device m.request device) ∷ [];
}

-- One thread alone does just that where the test fails.
pub with_stream-open :
    (next : ℕ) (m : DataManager) (device : DeviceDescriptor)
    → data_stream_exists m (device_id_of device) ≡ false
    → with_stream next m device ≡ open_stream next m device
unfolding with_stream open_stream
with_stream-open next m device e = rw e refl

-- Both threads have tested before either has saved its stream.
unfoldable pub both_open : ℕ → DataManager → DeviceDescriptor → Updated
both_open next m device =
    let first = open_stream next m device in
    let second = open_stream first.next_call first.manager device in
    record second { effects = first.effects ++ second.effects }

-- Every number is below the bound.
abbrev pub AllBelow : ℕ → List ℕ → Type 0
AllBelow n [] = Unit {0}
AllBelow n (x ∷ xs) = (x < n) × AllBelow n xs

AllBelow-suc : (n : ℕ) (xs : List ℕ) → AllBelow n xs → AllBelow (suc n) xs
AllBelow-suc n [] b = tt
AllBelow-suc n (x ∷ xs) (p, b) = (omega arith, AllBelow-suc n xs b)

insert-AllBelow :
    (k n : ℕ) (l : List (ℕ × ℕ))
    → AllBelow n (map stream_of l)
    → AllBelow (suc n) (map stream_of (insert k n l))
insert-AllBelow k n [] b = (omega arith, tt)
insert-AllBelow k n ((j, w) ∷ l) (p, b) =
    let rest = AllBelow-suc n (map stream_of l) b in
    elim (Bool-cases (j == k)) [
      | inl same ↦ rw same (omega arith, rest)
      | inr other ↦ elim (Bool-cases (ltb k j)) [
        | inl before ↦ rw (other, before) (omega arith, (omega arith, rest))
        | inr after ↦ rw (other, after) (omega arith, insert-AllBelow k n l b)
      ]
    ]

-- If two threads have both found that a device has no stream, each opens one. The data manager
-- keeps the first; to close the request, which cancels the streams that the data manager has, does
-- not cancel the other.
pub both_open-leaks :
    (next : ℕ) (m : DataManager) (device : DeviceDescriptor)
    → data_stream_exists m (device_id_of device) ≡ false
    → AllBelow next (cancel_all_data_streams m)
    → let r = both_open next m device in
      let request = requested_device m.request device in
      (r.effects
        ≡ open_device_data_stream next (settings_of m.request) request
          ∷ open_device_data_stream (suc next) (settings_of m.request) request
          ∷ [])
      × (cancel_data_stream r.manager (device_id_of device) ≡ (next ∷ [], true))
      × AllBelow (suc next) (cancel_all_data_streams r.manager)
unfolding both_open open_stream add_data_stream data_stream_exists cancel_data_stream
    cancel_all_data_streams
both_open-leaks next m device e b =
    let k = hash_device_id (device_id_of device) in
    let saved : lookup k (insert k next m.device_data_streams) ≡ some next =
      rw (lookup-insert k k next m.device_data_streams, ==_refl k) refl in
    rw (e, saved)
      (refl, rw (saved, cancel_data_stream) refl, insert-AllBelow k next m.device_data_streams b)
