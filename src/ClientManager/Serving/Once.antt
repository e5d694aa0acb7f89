-- ===== src/ClientManager/Serving/Once.antt =====
-- The effects of one report of a device on a data manager, and of a second one
-- (`ClientManager::UpdateDeviceDataStream`).
use ommo_sdk_external.Prelude.{
  ℕ, ◌≡◌, refl, ap, ◌∙◌, true, false, none, some, [], ◌∷◌, ==_refl, is_some, lookup, lookup-insert,
  Option-cases, inl, inr,
}
use ommo_sdk_external.ClientManager.{
  device_id_of, with_storage, with_stream, without_device, update_device_data_stream, settings_of,
  requested_device, open_device_data_stream, cancel, cancels,
}
use ommo_sdk_external.DataManager.{
  DataManager, is_device_data_requested, hash_device, is_storage_available,
}
use ommo_sdk_external.DataManager.Streams.{add_data_stream, data_stream_exists, cancel_data_stream}
use ommo_sdk_external.Hash.{hash_device_id}
use ommo_sdk_external.Types.{DeviceDescriptor}
use ommo_sdk_external.ClientManager.Serving.{
  has_storage, has_stream, requested-request, with_storage_lem, with_stream_lem, without_device_lem,
}

stored-same :
    (m : DataManager) (device : DeviceDescriptor)
    → has_storage (hash_device device) m ≡ true
    → with_storage m device ≡ m
unfolding is_storage_available
stored-same m device h = rw h refl

streamed-same :
    (next : ℕ) (m : DataManager) (device : DeviceDescriptor)
    → has_stream (hash_device device) m ≡ true
    → with_stream next m device ≡ record { manager = m; next_call = next; effects = [] }
unfolding with_stream data_stream_exists hash_device_id
streamed-same next m device h = rw h refl

stream-opened :
    (next : ℕ) (m : DataManager) (device : DeviceDescriptor)
    → has_stream (hash_device device) m ≡ false
    → let first = with_stream next m device in
      (first.effects
        ≡ open_device_data_stream next (settings_of m.request) (requested_device m.request device)
          ∷ [])
      × (lookup (hash_device device) first.manager.device_data_streams ≡ some next)
unfolding with_stream data_stream_exists add_data_stream hash_device_id
stream-opened next m device missing =
    let k = hash_device device in
    rw missing (refl, rw (lookup-insert k k next m.device_data_streams, ==_refl) refl)

update-wanted :
    (next : ℕ) (m : DataManager) (device : DeviceDescriptor)
    → is_device_data_requested m (device_id_of device) ≡ true
    → update_device_data_stream next m device true ≡ with_stream next (with_storage m device) device
unfolding update_device_data_stream
update-wanted next m device wanted = rw wanted refl

-- A connected device that is asked for and has no stream is given one, with the settings of the
-- request, under a new call data object; a second report of it then changes nothing.
pub connect_once :
    (next : ℕ) (m : DataManager) (device : DeviceDescriptor)
    → is_device_data_requested m (device_id_of device) ≡ true
    → has_stream (hash_device device) m ≡ false
    → let first = update_device_data_stream next m device true in
      (first.effects
        ≡ open_device_data_stream next (settings_of m.request) (requested_device m.request device)
          ∷ [])
      × (lookup (hash_device device) first.manager.device_data_streams ≡ some next)
      × (update_device_data_stream first.next_call first.manager device true
          ≡ record first { effects = [] })
connect_once next m device wanted missing =
    let k = hash_device device in
    let a = with_storage m device in
    let first = with_stream next a device in
    let n = first.manager in
    let (request, type, stored, kept, streams) = with_storage_lem m device k in
    let (request', type', streamed, kept', storages) = with_stream_lem next a device k in
    let missing' : has_stream k a ≡ false = ap (λ t. is_some (lookup k t)) streams ∙ missing in
    let (opened, saved) = stream-opened next a device missing' in
    let opened' =
      opened
      ∙ ap (λ r. open_device_data_stream next (settings_of r) (requested_device r device) ∷ [])
          request in
    let wanted' : is_device_data_requested n (device_id_of device) ≡ true =
      requested-request m n device (request' ∙ request) ∙ wanted in
    let stored' : has_storage k n ≡ true = ap (λ t. is_some (lookup k t)) storages ∙ stored in
    rw (update-wanted next m device wanted) (
      opened',
      saved,
      update-wanted first.next_call n device wanted'
          ∙ ap (λ t. with_stream first.next_call t device) (stored-same n device stored')
          ∙ streamed-same first.next_call n device streamed,
    )

cancels-stream :
    (m : DataManager) (device : DeviceDescriptor)
    → cancels (cancel_data_stream m (device_id_of device)).0
      ≡ (elim (lookup (hash_device device) m.device_data_streams) [
        | none ↦ []
        | some call ↦ cancel call ∷ []
      ])
unfolding cancel_data_stream hash_device_id
cancels-stream m device = elim (Option-cases (lookup (hash_device device) m.device_data_streams)) [
  | inl missing ↦ rw (cancel_data_stream, missing) refl
  | inr (call, found) ↦ rw (cancel_data_stream, found) refl
]

-- A device that is asked for and is reported as removed has neither storage nor stream afterwards;
-- the call that is cancelled is the one its stream had, and there is none if it had no stream.
pub disconnect_once :
    (next : ℕ) (m : DataManager) (device : DeviceDescriptor)
    → is_device_data_requested m (device_id_of device) ≡ true
    → let removed = update_device_data_stream next m device false in
      (has_storage (hash_device device) removed.manager ≡ false)
      × (has_stream (hash_device device) removed.manager ≡ false)
      × (removed.effects ≡ (elim (lookup (hash_device device) m.device_data_streams) [
        | none ↦ []
        | some call ↦ cancel call ∷ []
      ]))
unfolding update_device_data_stream without_device
disconnect_once next m device wanted =
    let (a, b, no_storage, no_stream, c, d) = without_device_lem next m device 0 in
    rw wanted (no_storage, no_stream, cancels-stream m device)
