-- ===== src/Memory/Storage/Laws.antt =====
-- A device data storage neither leaks nor frees twice, whatever is pushed into it.
use ommo_sdk_external.Prelude.{
  ℕ, zero, suc, ◌+◌, ◌≤◌, ◌<◌, ◌≡◌, refl, arith, some, List, [], ◌∷◌, length, get_elem?, set,
  replicate, length-set, length-replicate, get_elem?_in, ltb, ◌==◌, Bool-cases, inl, inr,
}
use ommo_sdk_external.Memory.{Heap, ◌>>=◌, new, Array}
use ommo_sdk_external.Memory.Rules.{
  Changes, IsValid, Blocks, nothing, at, total, give->>=, delete->>, new->>=, >>=-Changes, frame,
  pure_lem,
}
use ommo_sdk_external.Memory.Results.{
  Results, >>=-Results, pure-Results, any-Results, >>=-Changes_when,
}
use ommo_sdk_external.Memory.Structs.{
  PacketMembers, owns_object, owns_descriptor, owns_array, owns_packet, owns_data,
}
use ommo_sdk_external.Memory.Create.{new_device_descriptor, new_tracking_device_data, moved}
use ommo_sdk_external.Memory.Create.Laws.{
  Gives, get->>=, moved-Gives, new_device_descriptor-Gives, new_tracking_device_data-Gives,
}
use ommo_sdk_external.Memory.Destroy.{destroy_device_packet_members}
use ommo_sdk_external.Memory.Destroy.Laws.{
  Frees, destroy_device_packet_members-Frees, destroy_device_descriptor-Frees,
}
use ommo_sdk_external.Memory.Lifetimes.{Keeps}
use ommo_sdk_external.Memory.Storage.{
  StorageMemory, empty_packet, new_storage_memory, replace_slot, replace_packet, write_slot,
  switched, advance, push_memory, empty_both, destroy_storage_memory, push_many,
}

total-set :
    (xs : List PacketMembers) (i : ℕ) (x old : PacketMembers) (a : ℕ)
    → get_elem? xs i ≡ some old
    → total owns_packet (set xs i x) a + owns_packet old a
      ≡ total owns_packet xs a + owns_packet x a
total-set [] i x old a e = absurd (cc)
total-set (y ∷ xs) zero x old a e = let same : y ≡ old = cc in rw same (omega arith)
total-set (y ∷ xs) (suc i) x old a e = omega (arith, total-set xs i x old a e)

total-empty : (n a : ℕ) → total owns_packet (replicate n empty_packet) a ≡ 0
total-empty zero a = refl
total-empty (suc n) a = omega (arith, total-empty n a)

abbrev packets : List PacketMembers → Blocks
packets = total owns_packet

replace_slot-Changes :
    (xs : List PacketMembers) (i : ℕ) (old : PacketMembers)
    → get_elem? xs i ≡ some old
    → Changes (packets xs) packets (replace_slot xs i old)
replace_slot-Changes xs i old e =
    give->>= {rest = packets (set xs i empty_packet)}
      (λ a. omega (arith, total-set xs i empty_packet old a e))
      (destroy_device_packet_members-Frees old)
      (λ x. get->>= (moved-Gives owns_data new_tracking_device_data-Gives) (λ d.
        let p : PacketMembers = record { device_data = d } in
        pure_lem (set xs i p)
          (λ a. omega (arith, total-set xs i empty_packet old a e, total-set xs i p old a e))))

replace_packet-Changes :
    (r : Array PacketMembers) (i : ℕ)
    → i < length r.elements
    → Changes (owns_array owns_packet r) (owns_array owns_packet) (replace_packet r i)
unfolding replace_packet
replace_packet-Changes r i h =
    let (old, found, cut) = get_elem?_in r.elements i h in
    rw found (
      >>=-Changes
        (frame (at r.address) (replace_slot-Changes r.elements i old found) (λ a. omega arith)
          (λ xs a. refl))
        (λ xs. pure_lem (record r { elements = xs }) (λ a. omega arith)))

replace_packet-Results :
    (r : Array PacketMembers) (i : ℕ)
    → i < length r.elements
    → Results (λ r'. length r'.elements ≡ length r.elements) (replace_packet r i)
unfolding replace_packet
replace_packet-Results r i h =
    let (old, found, cut) = get_elem?_in r.elements i h in
    rw found (
      >>=-Results {P = λ xs. length xs ≡ length r.elements}
        (>>=-Results (any-Results (destroy_device_packet_members old)) (λ x u.
          >>=-Results (any-Results (moved new_tracking_device_data))
            (λ d u. pure-Results _ (length-set r.elements i (record { device_data = d })))))
        (λ xs e. pure-Results _ e))

abbrev pub owns_storage : StorageMemory → Blocks
owns_storage s a =
    owns_object owns_descriptor s.device a
    + (owns_array owns_packet s.packet_buffer1 a + owns_array owns_packet s.packet_buffer2 a)

-- Both arrays have the size of the buffer, which is not 0.
pub record IsSized (s : StorageMemory) : Type 0 where
  pub positive : 0 < s.buffer_size
  pub size1 : length s.packet_buffer1.elements ≡ s.buffer_size
  pub size2 : length s.packet_buffer2.elements ≡ s.buffer_size
  pub filled : s.data_num ≤ s.buffer_size

write_slot-Changes :
    (s : StorageMemory) (i : ℕ)
    → IsSized s
    → i < s.buffer_size
    → Changes (owns_storage s) owns_storage (write_slot s i)
unfolding write_slot
write_slot-Changes s i v h = elim (Bool-cases s.writes_to_1) [
  | inl e ↦ rw e (
      >>=-Changes
        (frame
          (λ a. owns_object owns_descriptor s.device a + owns_array owns_packet s.packet_buffer2 a)
          (replace_packet-Changes s.packet_buffer1 i (omega (arith, v.size1))) (λ a. omega arith)
          (λ r a. refl))
        (λ r. pure_lem _ (λ a. omega arith)))
  | inr e ↦ rw e (
      >>=-Changes
        (frame
          (λ a. owns_object owns_descriptor s.device a + owns_array owns_packet s.packet_buffer1 a)
          (replace_packet-Changes s.packet_buffer2 i (omega (arith, v.size2))) (λ a. omega arith)
          (λ r a. refl))
        (λ r. pure_lem _ (λ a. omega arith)))
]

write_slot-Results :
    (s : StorageMemory) (i : ℕ)
    → IsSized s
    → i < s.buffer_size
    → Results
        (λ s'. IsSized s' × (s'.buffer_size ≡ s.buffer_size) × (s'.data_num ≡ s.data_num))
        (write_slot s i)
unfolding write_slot
write_slot-Results s i v h = elim (Bool-cases s.writes_to_1) [
  | inl e ↦ rw e (
      >>=-Results (replace_packet-Results s.packet_buffer1 i (omega (arith, v.size1)))
        (λ r k. pure-Results _ (ground arith, refl, refl)))
  | inr e ↦ rw e (
      >>=-Results (replace_packet-Results s.packet_buffer2 i (omega (arith, v.size2)))
        (λ r k. pure-Results _ (ground arith, refl, refl)))
]

advance-IsSized : (s : StorageMemory) → IsSized s → s.data_num < s.buffer_size → IsSized (advance s)
advance-IsSized s v h = elim (Bool-cases (s.data_num + 1 == s.buffer_size)) [
  | inl e ↦
      rw e
        (record { positive = v.positive; size1 = v.size1; size2 = v.size2; filled = omega arith })
  | inr e ↦
      rw e
        (record { positive = v.positive; size1 = v.size1; size2 = v.size2; filled = omega arith })
]

advance-owns : (s : StorageMemory) (a : ℕ) → owns_storage s a ≡ owns_storage (advance s) a
advance-owns s a = elim (Bool-cases (s.data_num + 1 == s.buffer_size)) [
  | inl e ↦ rw e refl
  | inr e ↦ rw e refl
]

switched-IsSized : (s : StorageMemory) → IsSized s → IsSized (switched s)
switched-IsSized s v = record {
  positive = v.positive;
  size1 = v.size1;
  size2 = v.size2;
  filled = v.filled;
}

push_memory-Changes :
    (s : StorageMemory) → IsSized s → Changes (owns_storage s) owns_storage (push_memory s)
unfolding push_memory
push_memory-Changes s v = elim (Bool-cases (ltb s.data_num s.buffer_size)) [
  | inl room ↦ rw room (
      >>=-Changes (write_slot-Changes s s.data_num v (ground arith))
        (λ w. pure_lem (advance w) (advance-owns w)))
  | inr full ↦ rw full (
      >>=-Changes (write_slot-Changes (switched s) 0 (switched-IsSized s v) v.positive)
        (λ w. pure_lem _ (λ a. refl)))
]

push_memory-Results : (s : StorageMemory) → IsSized s → Results IsSized (push_memory s)
unfolding push_memory
push_memory-Results s v = elim (Bool-cases (ltb s.data_num s.buffer_size)) [
  | inl room ↦ rw room (
      >>=-Results (write_slot-Results s s.data_num v (ground arith))
        (λ w k. pure-Results (advance w) (advance-IsSized w k.0 (ground arith))))
  | inr full ↦ rw full (
      >>=-Results (write_slot-Results (switched s) 0 (switched-IsSized s v) v.positive)
        (λ w k. pure-Results _ (ground arith)))
]

-- Whatever the number of packets, the storage owns what it should.
push_many-Changes :
    (n : ℕ) (s : StorageMemory) → IsSized s → Changes (owns_storage s) owns_storage (push_many n s)
unfolding push_many
push_many-Changes zero s v = pure_lem s (λ a. refl)
push_many-Changes (suc n) s v =
    >>=-Changes_when (push_memory-Results s v) (push_memory-Changes s v)
      (λ s' v'. push_many-Changes n s' v')

push_many-Results : (n : ℕ) (s : StorageMemory) → IsSized s → Results IsSized (push_many n s)
unfolding push_many
push_many-Results zero s v = pure-Results s v
push_many-Results (suc n) s v =
    >>=-Results (push_memory-Results s v) (λ s' v'. push_many-Results n s' v')

empty_both-Frees :
    (xs ys : List PacketMembers)
    → length xs ≡ length ys
    → Frees (λ a. packets xs a + packets ys a) (empty_both xs ys)
unfolding empty_both
empty_both-Frees [] [] e = pure_lem tt (λ a. refl)
empty_both-Frees [] (y ∷ ys) e = absurd (omega arith)
empty_both-Frees (x ∷ xs) [] e = absurd (omega arith)
empty_both-Frees (x ∷ xs) (y ∷ ys) e =
    give->>= {rest = λ a. owns_packet y a + (packets xs a + packets ys a)} (λ a. omega arith)
      (destroy_device_packet_members-Frees x)
      (λ x'.
        give->>= {rest = λ a. packets xs a + packets ys a} (λ a. refl)
          (destroy_device_packet_members-Frees y) (λ y'. empty_both-Frees xs ys (omega arith)))

destroy_storage_memory-Frees :
    (s : StorageMemory) → IsSized s → Frees (owns_storage s) (destroy_storage_memory s)
unfolding destroy_storage_memory
destroy_storage_memory-Frees s v =
    give->>=
      {rest = λ a.
        at s.packet_buffer1.address a
        + (at s.packet_buffer2.address a + owns_object owns_descriptor s.device a)}
      (λ a. omega arith)
      (empty_both-Frees s.packet_buffer1.elements s.packet_buffer2.elements
        (omega (arith, v.size1, v.size2)))
      (λ x.
        delete->> s.packet_buffer1.address (λ a. refl)
          (delete->> s.packet_buffer2.address (λ a. refl)
            (destroy_device_descriptor-Frees (some s.device))))

new_storage_memory-Changes : (size : ℕ) → Gives owns_storage (new_storage_memory size)
unfolding new_storage_memory
new_storage_memory-Changes size =
    get->>= new_device_descriptor-Gives
      (λ d. new->>= (λ p. new->>= (λ q. pure_lem _ (λ a. omega (arith, total-empty size a)))))

new_storage_memory-Results : (size : ℕ) → 0 < size → Results IsSized (new_storage_memory size)
unfolding new_storage_memory
new_storage_memory-Results size h = >>=-Results (any-Results new_device_descriptor) (λ d u.
    >>=-Results (any-Results new) (λ p u. >>=-Results (any-Results new) (λ q u.
      pure-Results _ (record {
        positive = h;
        size1 = length-replicate size empty_packet;
        size2 = length-replicate size empty_packet;
        filled = omega arith;
      }))))

-- A storage of a size above 0 is created, takes any number of packets and is destroyed with no
-- fault: no index is outside its array, no block is deleted twice, and in the end exactly the blocks
-- that were allocated before are allocated.
pub storage_lem :
    (h : Heap)
    → IsValid h
    → (size n : ℕ) → 0 < size
    → Keeps h ((new_storage_memory size >>= λ s. (push_many n s >>= destroy_storage_memory)) h)
unfolding Keeps
storage_lem h v size n pos =
    let c =
      >>=-Changes_when {post = λ x. nothing} {f = λ s. (push_many n s >>= destroy_storage_memory)}
        (new_storage_memory-Results size pos) (new_storage_memory-Changes size)
        (λ s k.
          >>=-Changes_when (push_many-Results n s k) (push_many-Changes n s k)
            destroy_storage_memory-Frees) in
    let (x, h', e, v', balance) = c.run h v (λ a. omega arith) in
    (h', e, v', λ a. omega (arith, balance a))
