-- ===== src/Storage/Device/Refine.antt =====
-- The device storage (src/device_data_storage.cpp) against the list of everything that was pushed
-- into it.
use ommo_sdk_external.Prelude.{
  ℕ, suc, ◌+◌, ◌-◌, ◌<◌, ◌≡◌, refl, ap, ◌∙◌, Bool, true, false, Option, some, List, [], ◌∷◌, ◌++◌,
  arith, length, get_elem?, drop, drop-all, get_elem?_in, ltb, ◌==◌, Bool-cases, inl, inr,
}
use ommo_sdk_external.Buffer.{Packet, no_packets}
use ommo_sdk_external.Buffer.Copy.{contents, length-contents}
use ommo_sdk_external.Buffer.Log.{Stores, Stores-InBounds, latest_of, get_latest_count_lem}
use ommo_sdk_external.Buffer.Log.Save.{save_packet_lem}
use ommo_sdk_external.Convert.{proto_to_tracking_device_data}
use ommo_sdk_external.Proto
use ommo_sdk_external.Storage.{respond_one, index_test, since_of}
use ommo_sdk_external.Storage.Index.{
  oldest, read-at, write-at, read-elem, write-elem, since_of-contents, since_numbered,
}
use ommo_sdk_external.Storage.Device.{
  DeviceDataStorage, blank_packet, is_own, push_data, get_latest_data, get_latest_data_count,
  get_data_since_index, since_read,
}
use ommo_sdk_external.Storage.Since.{since_write_lem, since_both_lem, since_all_lem}
use ommo_sdk_external.Types.{TrackingDeviceData}

-- The storage is valid and has been given the device data `h`, oldest first.
abbrev pub Holds : DeviceDataStorage → List TrackingDeviceData → Type 0
Holds s h = Stores s.buffers h

-- What is said of the result of a push: it did not fault, the packet was accepted, the storage is
-- for the same device, and it has been given `h`.
abbrev pub Pushed :
    DeviceDataStorage → List TrackingDeviceData → Option (DeviceDataStorage × Bool) → Type 0
Pushed s h r =
    (t : DeviceDataStorage) × (r ≡ some (t, true))
    × Holds t h
    × (t.device ≡ s.device)
    × (t.buffers.buffer_size ≡ s.buffers.buffer_size)

-- On a valid storage, PushData of a packet of the storage's own device that can be converted is
-- accepted without a fault and appends the converted packet to what the storage has been given,
-- while fewer than 2^32 - 1 packets have come. The storage stays valid.
pub push_data_lem :
    (s : DeviceDataStorage) (h : List TrackingDeviceData) (packet : Proto.TrackingDeviceData)
    (d : TrackingDeviceData)
    → Holds s h
    → is_own s.device packet ≡ true
    → proto_to_tracking_device_data packet ≡ some d
    → length h + 1 < 4294967296
    → Pushed s (h ++ (d ∷ [])) (push_data s packet)
unfolding push_data
push_data_lem s h packet d v own converted room =
    let (buffers, e, w, same) = save_packet_lem s.buffers d v room in
    let has_room : ltb s.buffers.write_buffer.data_num s.buffers.buffer_size ≡ true =
      ground (arith, v.write_room) in
    (record s { buffers = buffers }, rw (own, has_room, converted, e), w, refl, same)

-- On one storage: the answer of a single read of the last stored packet.
respond_one_last :
    (xs : List (Packet TrackingDeviceData)) (source : List (Packet TrackingDeviceData)) (i j : ℕ)
    → j + 1 ≡ length xs
    → get_elem? source i ≡ get_elem? xs j
    → respond_one source i ≡ some (latest_of 1 xs)
unfolding respond_one
respond_one_last xs source i j h e =
    let (p, found, cut) = get_elem?_in xs j (omega arith) in
    let last : drop (length xs - 1) xs ≡ p ∷ [] =
      ap (λ (k : ℕ). drop k xs) (omega arith)
      ∙ cut
      ∙ ap (λ r. p ∷ r) (drop-all (suc j) xs (omega arith)) in
    rw (e, found) (ground (arith, last))

-- `GetLatestData()` of a valid storage answers with the last packet held, or with nothing if there
-- is none.
pub get_latest_data_lem :
    (s : DeviceDataStorage) (h : List TrackingDeviceData)
    → Holds s h
    → get_latest_data s ≡ some (latest_of 1 (contents s.buffers))
unfolding get_latest_data
get_latest_data_lem s h v =
    let b = Stores-InBounds v in
    let c = contents s.buffers in
    let r = s.buffers.read_buffer.data_num in
    let w = s.buffers.write_buffer.data_num in
    ground (
      arith,
      length-contents s.buffers b,
      respond_one_last c s.buffers.write_buffer.packets (w - 1) (r + (w - 1)),
      write-elem s.buffers (w - 1) b,
      respond_one_last c s.buffers.read_buffer.packets (r - 1) (r - 1),
      read-elem s.buffers (r - 1) b,
    )

-- `GetLatestData(request_count)` of a valid storage faults nowhere and answers with the last
-- packets held: with the number asked for, or with all of them as partial data.
pub get_latest_data_count_lem :
    (s : DeviceDataStorage) (h : List TrackingDeviceData) (request_count : ℕ)
    → Holds s h
    → get_latest_data_count s request_count ≡ some (latest_of request_count (contents s.buffers))
unfolding get_latest_data_count
get_latest_data_count_lem s h n v =
    get_latest_count_lem blank_packet s.buffers n (Stores-InBounds v)

-- The tail of GetDataSinceIndex once the request is known not to be newer than all that is held and
-- not to begin in the write buffer.
since_read-since :
    (s : DeviceDataStorage) (h : List TrackingDeviceData) (i : ℕ)
    → Holds s h
    → i < length h
    → i < oldest s.buffers h + s.buffers.read_buffer.data_num
    → since_read s i ≡ some (since_numbered i (oldest s.buffers h) (contents s.buffers))
unfolding since_read index_test
since_read-since s h i v has before =
    let b = Stores-InBounds v in
    let held : 0 < s.buffers.read_buffer.data_num = grind (arith, v.from_start, v.held) in
    let (x, first) = read-at s.buffers h 0 v held in
    let pos : ltb 0 s.buffers.read_buffer.data_num ≡ true = ground arith in
    rw (pos, first)
      (ground (
        arith,
        length-contents s.buffers b,
        since_both_lem blank_packet s.buffers h i v held,
        since_all_lem blank_packet s.buffers h v,
        v.held,
      ))

since_read-empty :
    (s : DeviceDataStorage) (i : ℕ)
    → ltb 0 s.buffers.read_buffer.data_num ≡ false
    → since_read s i ≡ some no_packets
unfolding since_read index_test
since_read-empty s i e = rw (e, index_test)

-- `GetDataSinceIndex(start_idx)` of a valid storage faults nowhere. It answers with the packets
-- held from the requested index on, complete if the oldest packet held is not later, and with
-- nothing if no such packet has come.
pub get_data_since_index_lem :
    (s : DeviceDataStorage) (h : List TrackingDeviceData) (start_idx : ℕ)
    → Holds s h
    → get_data_since_index s start_idx ≡ some (since_of start_idx (contents s.buffers))
unfolding get_data_since_index index_test
get_data_since_index_lem s h i v = elim (Bool-cases (ltb 0 s.buffers.write_buffer.data_num)) [
  | inl pos ↦
      let (x, last) = write-at s.buffers h (s.buffers.write_buffer.data_num - 1) v (ground arith) in
      let (y, first) = write-at s.buffers h 0 v (ground arith) in
      rw (pos, last, first, since_of-contents i s.buffers h v)
        (ground (
          arith,
          length-contents s.buffers (Stores-InBounds v),
          since_write_lem blank_packet s.buffers h i v,
          since_read-since s h i v,
          v.held,
        ))
  | inr empty ↦ rw empty (elim (Bool-cases (ltb 0 s.buffers.read_buffer.data_num)) [
    | inl held ↦
        let (x, last) = read-at s.buffers h (s.buffers.read_buffer.data_num - 1) v (ground arith) in
        let zero_write : (s.buffers.write_buffer.data_num == 0) ≡ true = ground arith in
        rw (zero_write, held, last, since_of-contents i s.buffers h v)
          (ground (
            arith,
            length-contents s.buffers (Stores-InBounds v),
            since_read-since s h i v,
            v.held,
          ))
    | inr none_held ↦
        rw (none_held, since_of-contents i s.buffers h v)
          (ground (arith, length-contents s.buffers (Stores-InBounds v), since_read-empty s i))
  ])
]
