-- ===== src/Storage/Device/History.antt =====
-- What a storage answers after any sequence of pushes since its creation.
use ommo_sdk_external.Prelude.{
  >>=-some, ℕ, suc, ◌+◌, ◌-◌, ◌≤◌, ◌<◌, ◌≡◌, refl, sym, ap, ◌∙◌, true, Option, some, List, [], ◌∷◌,
  ◌++◌, append-nil, append_assoc, arith, length, drop, drop-drop, ltb, leb, ◌>>=◌, length-append,
}
use ommo_sdk_external.Buffer.{success, create}
use mathlib.Core.Path.{subst}
use ommo_sdk_external.Buffer.Copy.{contents, length-contents}
use ommo_sdk_external.Buffer.Log.{number, Stores-InBounds}
use ommo_sdk_external.Buffer.Log.Save.{create-Stores}
use ommo_sdk_external.Convert.{convert_all, proto_to_tracking_device_data}
use ommo_sdk_external.Proto
use ommo_sdk_external.Storage.Device.{
  DeviceDataStorage, blank_packet, new_storage, is_own, push_data, get_latest_data_count,
}
use ommo_sdk_external.Storage.Device.Refine.{Holds, push_data_lem, get_latest_data_count_lem}
use ommo_sdk_external.Types.{DeviceDescriptor, TrackingDeviceData}

-- Several packets, one after the other.
unfoldable pub push_all :
    DeviceDataStorage → List Proto.TrackingDeviceData → Option DeviceDataStorage
push_all s [] = some s
push_all s (p ∷ ps) = do (t, accepted) ← push_data s p; push_all t ps

-- Every packet comes from the device.
abbrev pub AllOwn : DeviceDescriptor → List Proto.TrackingDeviceData → Type 0
AllOwn device [] = Unit {0}
AllOwn device (p ∷ ps) = (is_own device p ≡ true) × AllOwn device ps

convert_all-cons :
    (p : Proto.TrackingDeviceData) (ps : List Proto.TrackingDeviceData)
    (ds : List TrackingDeviceData)
    → convert_all (p ∷ ps) ≡ some ds
    → (d : TrackingDeviceData) × (rest : List TrackingDeviceData) × (proto_to_tracking_device_data p
        ≡ some d)
      × (convert_all ps ≡ some rest)
      × (d ∷ rest ≡ ds)
unfolding convert_all
convert_all-cons p ps ds e =
    let (d, found, e2) = >>=-some (proto_to_tracking_device_data p) _ e in
    let (rest, others, e3) = >>=-some (convert_all ps) _ e2 in (d, rest, found, others, cc)

convert_all-nil : (ds : List TrackingDeviceData) → convert_all [] ≡ some ds → ds ≡ []
unfolding convert_all
convert_all-nil ds e = cc

push_all_lem :
    (ps : List Proto.TrackingDeviceData) (s : DeviceDataStorage) (h ds : List TrackingDeviceData)
    → Holds s h
    → AllOwn s.device ps
    → convert_all ps ≡ some ds
    → length h + length ds < 4294967296
    → (t : DeviceDataStorage) × (push_all s ps ≡ some t)
      × Holds t (h ++ ds)
      × (t.buffers.buffer_size ≡ s.buffers.buffer_size)
unfolding push_all
push_all_lem [] s h ds v own e k =
    let none_left : ds ≡ [] = convert_all-nil ds e in (s, refl, rw (none_left, append-nil) v, refl)
push_all_lem (p ∷ ps) s h ds v own e k =
    let (d, rest, found, others, split) = convert_all-cons p ps ds e in
    let len : length ds ≡ suc (length rest) = ap length (sym split) in
    let (t, pushed, w, same, size) = push_data_lem s h p d v own.0 found (omega arith) in
    let (u, all, w2, size2) =
      push_all_lem ps t (h ++ (d ∷ [])) rest w (rw same own.1) others
        (omega (arith, length-append h (d ∷ []))) in
    (
      u,
      rw pushed all,
      subst (Holds u) (append_assoc h (d ∷ []) rest ∙ ap (λ r. h ++ r) split) w2,
      size2 ∙ size,
    )

-- From creation on, a storage with room for at least one packet and for at most 2^30 packets takes
-- every packet of its device that can be converted, faults on none, keeps its size, and holds what it
-- was given. This holds while fewer than 2^32 packets have come.
pub push_all_from_new :
    (device : DeviceDescriptor) (size : ℕ) (ps : List Proto.TrackingDeviceData)
    (ds : List TrackingDeviceData)
    → 0 < size
    → size ≤ 1073741824
    → AllOwn device ps
    → convert_all ps ≡ some ds
    → length ds < 4294967296
    → (t : DeviceDataStorage) × (push_all (new_storage device size) ps ≡ some t)
      × Holds t ds
      × (t.buffers.buffer_size ≡ size)
unfolding new_storage create
push_all_from_new device size ps ds pos small own e k =
    push_all_lem ps (new_storage device size) [] ds (create-Stores blank_packet size pos small) own
      e (omega arith)

-- On a valid storage, a request for at most `buffer_size` packets, of which so many have come, is
-- answered in full with exactly the last packets pushed, numbered from the first one ever pushed.
pub retains_latest :
    (s : DeviceDataStorage) (h : List TrackingDeviceData) (n : ℕ)
    → Holds s h
    → 0 < n
    → n ≤ s.buffers.buffer_size
    → n ≤ length h
    → get_latest_data_count s n
      ≡ some
          (record { state = success; packets = drop (length h - n) (number 0 h); packet_count = n })
retains_latest s h n v pos fits come =
    let total = s.buffers.read_buffer.data_num + s.buffers.write_buffer.data_num in
    let len = length-contents s.buffers (Stores-InBounds v) in
    let enough : n ≤ total = grind (arith, v.from_start, v.read_full) in
    let a : ltb 0 n ≡ true = ground arith in
    let b : leb n (length (contents s.buffers)) ≡ true = ground (arith, len) in
    let e : length h - total + (length (contents s.buffers) - n) ≡ length h - n =
      omega (arith, v) in
    get_latest_data_count_lem s h n v
    ∙ rw (a, b)
        (ap (λ r. some (record { state = success; packets = r; packet_count = n }))
          (ap (drop (length (contents s.buffers) - n)) v.kept
            ∙ drop-drop (length (contents s.buffers) - n) (length h - total) (number 0 h)
            ∙ ap (λ (k : ℕ). drop k (number 0 h)) e))
