-- ===== src/Storage/BaseStation/Refine.antt =====
-- The base station storage (src/basestation_data_storage.cpp) against the list of everything that
-- was pushed into it.
use ommo_sdk_external.Prelude.{
  ℕ, zero, suc, ◌+◌, ◌-◌, ◌≤◌, ◌<◌, ◌≡◌, refl, sym, ap, ◌∙◌, ◌⊎◌, inl, inr, true, false, Option,
  none, some, List, [], ◌∷◌, ◌++◌, arith, length, get_elem?, drop, drop-set, replicate, ltb, ◌==◌,
  Bool-cases, ==_iff, length-append,
}
use ommo_sdk_external.Buffer.{
  Packet, create, no_packets, save_packet, reset_write_buffer, switch_buffer_pointer,
}
use ommo_sdk_external.Buffer.Copy.{contents, length-contents}
use ommo_sdk_external.Buffer.Log.{Stores, Stores-InBounds, latest_of, get_latest_count_lem}
use ommo_sdk_external.Buffer.Log.Save.{
  create-Stores, write_packet_lem, saved, emptied, saved-Stores, emptied-Stores,
}
use ommo_sdk_external.Storage.{since_of, index_test}
use ommo_sdk_external.Storage.Index.{oldest, read-at, write-at, since_numbered, since_of-contents}
use ommo_sdk_external.Storage.Since.{since_write_lem, since_both_lem, since_all_lem}
use ommo_sdk_external.Storage.BaseStation.{
  BaseStationDataStorage, blank_packet, new_storage, push_data, get_latest_data_count,
  get_data_since_index, since_read,
}
use mathlib.Core.Path.{subst}
use ommo_sdk_external.Types.{BaseStationData}

abbrev pub All : {A : Type 0} → (A → Type 0) → List A → Type 0
All P [] = Unit {0}
All P (x ∷ xs) = P x × All P xs

-- A slot that holds nothing current: never written, or overwritten a whole buffer ago.
abbrev pub IsOld : ℕ → ℕ → Packet BaseStationData → Type 0
IsOld size n p = (p.packet_idx ≡ 0) ⊎ (p.packet_idx + size < n)

-- The storage is valid and has been given `h`, and what lies behind the count of the write buffer
-- is old.
pub record Holds (s : BaseStationDataStorage) (h : List BaseStationData) : Type 0 where
  pub stores : Stores s.buffers h
  pub old_slots :
      All
        (IsOld s.buffers.buffer_size (length h))
        (drop s.buffers.write_buffer.data_num s.buffers.write_buffer.packets)
  pub blank_read :
      s.buffers.read_buffer.data_num ≡ 0 → All (λ p. p.packet_idx ≡ 0) s.buffers.read_buffer.packets

All-map :
    {A : Type 0} (P Q : A → Type 0) (xs : List A) → ((x : A) → P x → Q x) → All P xs → All Q xs
All-map P Q [] f h = tt
All-map P Q (x ∷ xs) f h = (f x h.0, All-map P Q xs f h.1)

All-tail :
    {A : Type 0} (P : A → Type 0) (n : ℕ) (xs : List A)
    → All P (drop n xs)
    → All P (drop (suc n) xs)
All-tail P zero [] h = tt
All-tail P zero (x ∷ xs) h = h.1
All-tail P (suc n) [] h = tt
All-tail P (suc n) (x ∷ xs) h = All-tail P n xs h

All-replicate : {A : Type 0} (P : A → Type 0) (n : ℕ) (a : A) → P a → All P (replicate n a)
All-replicate P zero a h = tt
All-replicate P (suc n) a h = (h, All-replicate P n a h)

pub All-at :
    {A : Type 0} (P : A → Type 0) (xs : List A) (i : ℕ) (a : A)
    → All P xs
    → get_elem? xs i ≡ some a
    → P a
All-at P [] i a h e = cc
All-at P (x ∷ xs) zero a h e = let q : x ≡ a = cc in subst P q h.0
All-at P (x ∷ xs) (suc i) a h e = All-at P xs i a h.1 e

-- Every element found by its index has the property.
All-of :
    {A : Type 0} (P : A → Type 0) (xs : List A)
    → ((i : ℕ) (a : A) → get_elem? xs i ≡ some a → P a)
    → All P xs
All-of P [] f = tt
All-of P (x ∷ xs) f = (f 0 x refl, All-of P xs (λ i a e. f (suc i) a e))

pub new_storage-Holds : (size : ℕ) → 0 < size → size ≤ 1073741824 → Holds (new_storage size) []
unfolding new_storage create
new_storage-Holds size pos small = record {
  stores = create-Stores blank_packet size pos small;
  old_slots = All-replicate (IsOld size 0) size blank_packet (inl refl);
  blank_read = λ e. All-replicate (λ p. p.packet_idx ≡ 0) size blank_packet refl;
}

abbrev idx_of : Option (Packet BaseStationData) → ℕ
idx_of none = 0
idx_of (some p) = p.packet_idx

pub get_elem?-lt :
    {A : Type 0} (xs : List A) (i : ℕ) (a : A) → get_elem? xs i ≡ some a → i < length xs
get_elem?-lt [] i a e = cc
get_elem?-lt (x ∷ xs) zero a e = omega arith
get_elem?-lt (x ∷ xs) (suc i) a e = omega (arith, get_elem?-lt xs i a e)

-- A full read buffer is old as soon as another buffer has been filled.
read-IsOld :
    (s : BaseStationDataStorage) (h : List BaseStationData)
    → Holds s h
    → s.buffers.write_buffer.data_num + 1 ≡ s.buffers.buffer_size
    → All (IsOld s.buffers.buffer_size (suc (length h))) s.buffers.read_buffer.packets
read-IsOld s h v full = elim v.stores.read_full [
  | inl empty ↦
      All-map (λ p. p.packet_idx ≡ 0) (IsOld s.buffers.buffer_size (suc (length h)))
        s.buffers.read_buffer.packets (λ p e. inl e) (v.blank_read empty)
  | inr whole ↦
      All-of (IsOld s.buffers.buffer_size (suc (length h))) s.buffers.read_buffer.packets λ i p e.
        let k = get_elem?-lt s.buffers.read_buffer.packets i p e in
        let (x, found) = read-at s.buffers h i v.stores (omega (arith, v.stores)) in
        let same : p.packet_idx ≡ oldest s.buffers h + i = cc (ap idx_of (sym e ∙ found)) in
        inr (omega (arith, v.stores))
]

-- With room left, the slots behind the new packet stay old.
room-IsOld :
    (s : BaseStationDataStorage) (h : List BaseStationData) (packet : BaseStationData)
    → Holds s h
    → All
        (IsOld s.buffers.buffer_size (suc (length h)))
        (drop (s.buffers.write_buffer.data_num + 1) (saved s.buffers packet).write_buffer.packets)
room-IsOld s h packet v =
    let w = s.buffers.write_buffer.data_num in
    let e : w + 1 ≡ suc w = omega arith in
    rw (e, drop-set)
      (All-map (IsOld s.buffers.buffer_size (length h))
        (IsOld s.buffers.buffer_size (suc (length h))) (drop (suc w) s.buffers.write_buffer.packets)
        (λ p old. omega (arith, old))
        (All-tail (IsOld s.buffers.buffer_size (length h)) w s.buffers.write_buffer.packets
          v.old_slots))

-- On a valid base station storage, every push is accepted without a fault and appends to what the
-- storage has been given, while fewer than 2^32 - 1 packets have come. The size and the stream
-- stay.
pub base_station_push_lem :
    (s : BaseStationDataStorage) (h : List BaseStationData) (packet : BaseStationData)
    → Holds s h
    → length h + 1 < 4294967296
    → (t : BaseStationDataStorage) × (push_data s packet ≡ some (t, true))
      × Holds t (h ++ (packet ∷ []))
      × (t.buffers.buffer_size ≡ s.buffers.buffer_size)
      × (t.base_station_stream ≡ s.base_station_stream)
unfolding push_data save_packet reset_write_buffer switch_buffer_pointer
base_station_push_lem s h packet v k =
    let size = s.buffers.buffer_size in
    let has_room : ltb s.buffers.write_buffer.data_num size ≡ true =
      ground (arith, v.stores.write_room) in
    let written = write_packet_lem s.buffers packet v.stores in
    let grown : length (h ++ (packet ∷ [])) ≡ suc (length h) =
      omega (arith, length-append h (packet ∷ [])) in
    elim (Bool-cases (s.buffers.write_buffer.data_num + 1 == size)) [
      | inl full ↦ (
        record s { buffers = emptied s.buffers packet },
        rw (has_room, written, full),
        record {
          stores = emptied-Stores s.buffers packet v.stores k ((==_iff _ _).0 full);
          old_slots = rw grown (read-IsOld s h v ((==_iff _ _).0 full));
          blank_read = λ e. absurd (omega (arith, e));
        },
        refl,
        refl,
      )
      | inr room ↦ (
        record s { buffers = saved s.buffers packet },
        rw (has_room, written, room),
        record {
          stores = saved-Stores s.buffers packet v.stores k (λ e. ground (arith, e));
          old_slots = rw grown (room-IsOld s h packet v);
          blank_read = v.blank_read;
        },
        refl,
        refl,
      )
    ]

-- `GetLatestData(request_count)` answers with the last packets that were pushed.
pub base_station_latest_count_lem :
    (s : BaseStationDataStorage) (h : List BaseStationData) (request_count : ℕ)
    → Holds s h
    → get_latest_data_count s request_count ≡ some (latest_of request_count (contents s.buffers))
unfolding get_latest_data_count
base_station_latest_count_lem s h n v =
    get_latest_count_lem blank_packet s.buffers n (Stores-InBounds v.stores)

since_read-since :
    (s : BaseStationDataStorage) (h : List BaseStationData) (i : ℕ)
    → Stores s.buffers h
    → 0 < s.buffers.read_buffer.data_num
    → i < length h
    → i < oldest s.buffers h + s.buffers.read_buffer.data_num
    → since_read s i ≡ some (since_numbered i (oldest s.buffers h) (contents s.buffers))
unfolding since_read index_test
since_read-since s h i v held has before =
    let (x, first) = read-at s.buffers h 0 v held in
    let pos : ltb 0 s.buffers.read_buffer.data_num ≡ true = ground arith in
    rw (pos, first)
      (ground (
        arith,
        length-contents s.buffers (Stores-InBounds v),
        since_both_lem blank_packet s.buffers h i v held,
        since_all_lem blank_packet s.buffers h v,
        v.held,
      ))

since_read-empty :
    (s : BaseStationDataStorage) (i : ℕ)
    → ltb 0 s.buffers.read_buffer.data_num ≡ false
    → since_read s i ≡ some no_packets
unfolding since_read index_test
since_read-empty s i e = rw (e, index_test)

-- While the write buffer of a valid base station storage holds a packet, or the request is for one
-- that has come, or nothing has come, `GetDataSinceIndex(start_idx)` answers with the packets from
-- the requested index on, complete if the oldest packet held is not later.
pub base_station_since_lem :
    (s : BaseStationDataStorage) (h : List BaseStationData) (start_idx : ℕ)
    → Holds s h
    → (0 < s.buffers.write_buffer.data_num) ⊎ (start_idx < length h) ⊎ (length h ≡ 0)
    → get_data_since_index s start_idx ≡ some (since_of start_idx (contents s.buffers))
unfolding get_data_since_index index_test
base_station_since_lem s h i holds met =
    let v = holds.stores in
    let len = length-contents s.buffers (Stores-InBounds v) in
    elim (Bool-cases (ltb 0 s.buffers.write_buffer.data_num)) [
      | inl pos ↦
          let (x, last) =
            write-at s.buffers h (s.buffers.write_buffer.data_num - 1) v (ground arith) in
          let (y, first) = write-at s.buffers h 0 v (ground arith) in
          rw (pos, last, first, since_of-contents i s.buffers h v)
            (ground (
              arith,
              len,
              since_write_lem blank_packet s.buffers h i v,
              since_read-since s h i v,
              v.held,
            ))
      | inr empty ↦ rw empty (elim (Bool-cases (ltb 0 s.buffers.read_buffer.data_num)) [
        | inl held ↦ rw (since_of-contents i s.buffers h v) (
            since_read-since s h i v (ground arith) (ground (arith, met, v.held))
              (ground (arith, met, v.held)))
        | inr none_held ↦
            rw (since_of-contents i s.buffers h v)
              (ground (arith, len, since_read-empty s i none_held))
      ])
    ]
