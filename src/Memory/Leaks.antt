-- ===== src/Memory/Leaks.antt =====
-- Two Destroy functions of src/sdk_types.cpp that do not do as the others. A tracking group event
-- leaves the members of its devices allocated. A wireless event whose members were destroyed keeps
-- a pointer to the array that was deleted.
use ommo_sdk_external.Prelude.{ℕ, ◌+◌, ◌≤◌, ◌≡◌, refl, arith, none, some, List, [], length}
use ommo_sdk_external.Memory.{Heap, M, Object, Ptr, count, ◌>>=◌, new, delete, for_each, move_out}
use ommo_sdk_external.Memory.Rules.{
  Changes, IsValid, nothing, at, block, total, give->>=, delete-Changes, frame, pure_lem,
}
use ommo_sdk_external.Memory.Results.{
  Results, All, >>=-Results, pure-Results, any-Results, fill-Results,
}
use ommo_sdk_external.Memory.Structs.{
  DescriptorMembers, DevicesMembers, EventMembers, WirelessMembers, owns_descriptor, owns_event,
  owns_wireless, owns_object,
}
use ommo_sdk_external.Memory.Create.{
  new_tracking_group_event, new_tracking_group, new_device_descriptor, new_array, moved,
}
use ommo_sdk_external.Memory.Create.Laws.{new_tracking_group_event-Gives}
use ommo_sdk_external.Memory.Destroy.{
  destroy_tracking_group_event, destroy_tracking_group_event_members,
  destroy_tracking_group_members, destroy_wireless_management_event_members, delete_element,
}
use ommo_sdk_external.Memory.Destroy.Laws.{
  Frees, ends, destroy_wireless_management_event_members-Frees,
}

-- Both arrays of the descriptor are allocated.
abbrev pub IsFull : DescriptorMembers → Type 0
IsFull m =
    (s : ℕ) × (f : ℕ) × (m.sensor_unit_descriptors ≡ some s) × (m.supported_fusion_modes ≡ some f)

descriptor-IsFull : Results (λ o. IsFull o.members) new_device_descriptor
unfolding new_device_descriptor
descriptor-IsFull = >>=-Results (any-Results new) (λ p u.
    >>=-Results (any-Results new)
      (λ s u. >>=-Results (any-Results new) (λ f u. pure-Results _ (s, f, refl, refl))))

moved-Results :
    {A : Type 0} (P : A → Type 0) {make : M (Object A)}
    → Results (λ o. P o.members) make
    → Results P (moved make)
unfolding moved move_out
moved-Results P r =
    >>=-Results r
      (λ o p. >>=-Results (any-Results (delete (some o.at))) (λ x u. pure-Results o.members p))

-- So many devices, each of which is full.
abbrev pub Holds : ℕ → List DescriptorMembers → Type 0
Holds n devices = (length devices ≡ n) × All IsFull devices

group_event-Results :
    (n : ℕ)
    → Results (λ o. Holds n o.members.tracking_group.devices.elements) (new_tracking_group_event n)
unfolding new_tracking_group_event new_tracking_group new_array
group_event-Results n = >>=-Results (any-Results new) (λ p u.
    >>=-Results
      (moved-Results (λ g. Holds n g.devices.elements)
        (>>=-Results (any-Results new) (λ q u.
          >>=-Results {P = λ r. Holds n r.elements}
            (>>=-Results (any-Results new) (λ r u.
              >>=-Results (fill-Results (moved-Results IsFull descriptor-IsFull) n)
                (λ xs e. pure-Results _ e)))
            (λ r e. pure-Results _ e))))
      (λ g e. pure-Results _ e))

group-Frees : (m : DevicesMembers) → Frees (at m.devices.address) (destroy_tracking_group_members m)
unfolding destroy_tracking_group_members
group-Frees m = ends _ (delete-Changes m.devices.address)

members-Frees :
    (m : EventMembers)
    → Frees (at m.tracking_group.devices.address) (destroy_tracking_group_event_members m)
unfolding destroy_tracking_group_event_members
members-Frees m =
    give->>= {rest = nothing} (λ a. omega arith) (group-Frees m.tracking_group)
      (λ g. pure_lem _ (λ a. refl))

-- The blocks that the members of the devices own are not given up.
event-Changes :
    (o : Object EventMembers)
    → Changes
        (owns_object owns_event o)
        (λ x. total owns_descriptor o.members.tracking_group.devices.elements)
        (destroy_tracking_group_event (some o))
unfolding destroy_tracking_group_event
event-Changes o =
    give->>=
      {rest = λ a. block o.at a + total owns_descriptor o.members.tracking_group.devices.elements a}
      {f = λ x. delete (some o.at)} (λ a. omega arith) (members-Frees o.members)
      (λ x.
        frame (total owns_descriptor o.members.tracking_group.devices.elements)
          (delete-Changes (some o.at)) (λ a. omega arith) (λ y a. omega arith))

-- Every tracking group event that is created and destroyed leaves the two arrays of each of its
-- devices allocated.
pub tracking_group_event_leaks :
    (h : Heap)
    → IsValid h
    → (n : ℕ)
    → (h' : Heap) × (devices : List DescriptorMembers) × ((new_tracking_group_event n >>= λ o.
            destroy_tracking_group_event (some o))
          h
        ≡ some (tt, h'))
      × Holds n devices
      × ((a : ℕ) → count a h'.live ≡ count a h.live + total owns_descriptor devices a)
tracking_group_event_leaks h v n =
    let (o, h1, e1, v1, c1) = (new_tracking_group_event-Gives n).run h v (λ a. omega arith) in
    let (x, h2, e2, v2, c2) = (event-Changes o).run h1 v1 (λ a. omega (arith, c1 a)) in
    (
      h2,
      o.members.tracking_group.devices.elements,
      rw e1 e2,
      (group_event-Results n).get h o h1 e1,
      λ a. omega (arith, c1 a, c2 a),
    )

-- What the members of a wireless event are after their destruction.
abbrev Dangles : Ptr → WirelessMembers → Type 0
Dangles p x =
    (x.siu_uuids ≡ none)
    × (x.device_pairing_information.elements ≡ [])
    × (x.device_pairing_information.address ≡ p)

wireless_members-Results :
    (m : WirelessMembers)
    → Results
        (Dangles m.device_pairing_information.address)
        (destroy_wireless_management_event_members m)
unfolding destroy_wireless_management_event_members
wireless_members-Results m = >>=-Results (any-Results (delete m.siu_uuids)) (λ x u.
    >>=-Results (any-Results (for_each delete_element m.device_pairing_information.elements))
      (λ y u.
        >>=-Results (any-Results (delete m.device_pairing_information.address))
          (λ z u. pure-Results _ (refl, refl, refl))))

Dangles-faults :
    (x : WirelessMembers) (p : ℕ) (h : Heap)
    → Dangles (some p) x
    → count p h.live ≡ 0
    → destroy_wireless_management_event_members x h ≡ none
unfolding destroy_wireless_management_event_members delete for_each
Dangles-faults x p h d e = rw (d.0, d.1, d.2, e) refl

-- A wireless event whose members were destroyed keeps a pointer to the array of its pairing
-- information: to destroy them once more is a fault.
pub wireless_members_dangle :
    (h : Heap)
    → IsValid h
    → (m : WirelessMembers) (p : ℕ) → m.device_pairing_information.address ≡ some p
    → ((a : ℕ) → owns_wireless m a ≤ count a h.live)
    → (destroy_wireless_management_event_members m >>= destroy_wireless_management_event_members) h
      ≡ none
wireless_members_dangle h v m p e has =
    let (x, h', first, v', balance) =
      (destroy_wireless_management_event_members-Frees m).run h v has in
    let d : Dangles (some p) x = rw e at ((wireless_members-Results m).get h x h' first) in
    let owned : block p p ≤ owns_wireless m p = rw e (ground arith) in
    let gone : count p h'.live ≡ 0 = ground (arith, balance p, v.once p, owned) in
    rw first (Dangles-faults x p h' d gone)
