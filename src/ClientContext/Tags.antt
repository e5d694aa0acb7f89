-- ===== src/ClientContext/Tags.antt =====
-- About the tags of requests (src/client_context.cpp): which data manager each tag names.
use ommo_sdk_external.Prelude.{
  ℕ, suc, ◌+◌, ◌<◌, ◌≡◌, ◌≢◌, refl, sym, ap, ◌∙◌, Option, none, some, List, [], ◌∷◌, ◌++◌, arith,
  u32, ==_refl, lookup, erase, lookup-insert, lookup-erase, Each, Each-insert, Each-lookup,
  Each-weaken, Option-cases, inl, inr,
}
use mathlib.Core.Path.{subst}
use ommo_sdk_external.Buffer.{no_packets}
use ommo_sdk_external.ClientContext.{
  ClientContext, new_client_context, take_tag, request_device_data, close_request, ask,
  get_latest_data,
}
use ommo_sdk_external.ClientManager.{
  ClientManager, Effect, remove_manager, open_device_data_streams,
}
use ommo_sdk_external.ClientManager
use ommo_sdk_external.ClientManager.Serving.{connect_each_lem, Each-append}
use ommo_sdk_external.DataManager.{DataManager, new_data_manager}
use ommo_sdk_external.Types.{device_data, DeviceId, DataRequest}

-- The data manager that a tag names.
abbrev pub manager_of : ClientContext → ℕ → Option DataManager
manager_of c tag = elim (lookup tag c.data_managers) [
  | none ↦ none
  | some manager ↦ lookup manager c.client_manager.data_manager_list
]

pub unnamed :
    (c : ClientContext) (tag : ℕ) → lookup tag c.data_managers ≡ none → manager_of c tag ≡ none
unnamed c tag e = rw (manager_of, e) refl

pub named :
    (c : ClientContext) (tag manager : ℕ)
    → lookup tag c.data_managers ≡ some manager
    → manager_of c tag ≡ lookup manager c.client_manager.data_manager_list
named c tag manager e = rw (manager_of, e) refl

unanswered :
    (c : ClientContext) (tag : ℕ) (device_id : DeviceId)
    → lookup tag c.data_managers ≡ none
    → get_latest_data c tag device_id ≡ some no_packets
unfolding get_latest_data ask
unanswered c tag device_id e = rw (ask, e) refl

-- Tags and numbers in use are older than the next ones, and two tags name two data managers.
pub record IsValid (c : ClientContext) : Type 0 where
  pub old_tags : Each (λ tag manager. tag < c.data_managers_tag_source) c.data_managers
  pub old_managers : Each (λ tag manager. manager < c.client_manager.next_manager) c.data_managers
  pub old_numbers :
      Each (λ i m. i < c.client_manager.next_manager) c.client_manager.data_manager_list
  pub distinct :
      (t u manager : ℕ)
      → lookup t c.data_managers ≡ some manager
      → lookup u c.data_managers ≡ some manager
      → t ≡ u

lookup-append :
    (k i : ℕ) (m : DataManager) (ms : List (ℕ × DataManager))
    → k ≢ i
    → lookup k (ms ++ ((i, m) ∷ [])) ≡ lookup k ms
lookup-append k i m [] ne = ground arith
lookup-append k i m ((j, n) ∷ ms) ne = ground (arith, lookup-append k i m ms ne)

lookup-append_last :
    (i : ℕ) (m : DataManager) (ms : List (ℕ × DataManager))
    → Each (λ j n. j < i) ms
    → lookup i (ms ++ ((i, m) ∷ [])) ≡ some m
lookup-append_last i m [] h = ground arith
lookup-append_last i m ((j, n) ∷ ms) h =
    let before = h.0 in ground (arith, lookup-append_last i m ms h.1)

lookup-remove_manager :
    (k number : ℕ) (ms : List (ℕ × DataManager))
    → k ≢ number
    → lookup k (remove_manager number ms) ≡ lookup k ms
unfolding remove_manager
lookup-remove_manager k number [] ne = refl
lookup-remove_manager k number ((j, n) ∷ ms) ne =
    ground (arith, lookup-remove_manager k number ms ne)

fresh_tag :
    (c : ClientContext) → IsValid c → lookup c.data_managers_tag_source c.data_managers ≡ none
fresh_tag c v = elim (Option-cases (lookup c.data_managers_tag_source c.data_managers)) [
  | inl missing ↦ missing
  | inr (h, found) ↦
      let old =
        Each-lookup (λ tag manager. tag < c.data_managers_tag_source) c.data_managers_tag_source
          c.data_managers h v.old_tags found in
      absurd (omega arith)
]

fresh_manager :
    (c : ClientContext)
    → IsValid c
    → (tag : ℕ) → lookup tag c.data_managers ≢ some c.client_manager.next_manager
fresh_manager c v tag found =
    let old =
      Each-lookup (λ t k. k < c.client_manager.next_manager) tag c.data_managers
        c.client_manager.next_manager v.old_managers found in
    absurd (omega arith)

-- What both kinds of request do, for a data manager `m` that the client has added: the tag is new and
-- names it, and every other tag names what it named.
abbrev Requested : ClientContext → ClientContext → ℕ → DataManager → Type 0
Requested c c' tag m =
    (manager_of c tag ≡ none)
    × (manager_of c' tag ≡ some m)
    × ((other : ℕ) → other ≢ tag → manager_of c' other ≡ manager_of c other)

taken_tag_lem :
    (c : ClientContext) (client : ClientManager) (effects : List Effect) (m : DataManager)
    → IsValid c
    → client.data_manager_list
      ≡ c.client_manager.data_manager_list ++ ((c.client_manager.next_manager, m) ∷ [])
    → let (c', out, tag) = take_tag c (client, effects, c.client_manager.next_manager) in
      Requested c c' tag m
unfolding take_tag
taken_tag_lem c client effects m v e =
    let n = c.client_manager.next_manager in
    let ms = c.client_manager.data_manager_list in
    let tag = c.data_managers_tag_source in
    let c' = (take_tag c (client, effects, n)).0 in
    let here : lookup tag c'.data_managers ≡ some n =
      rw (lookup-insert tag tag n c.data_managers, ==_refl) refl in
    (
      unnamed c tag (fresh_tag c v),
      named c' tag n here ∙ ap (lookup n) e ∙ lookup-append_last n m ms v.old_numbers,
      λ other ne.
          let kept : lookup other c'.data_managers ≡ lookup other c.data_managers =
            ground (arith, lookup-insert tag other n c.data_managers) in
          elim (Option-cases (lookup other c.data_managers)) [
            | inl missing ↦ unnamed c' other (kept ∙ missing) ∙ sym (unnamed c other missing)
            | inr (h, found) ↦
                let old : h < n =
                  Each-lookup (λ tag manager. manager < n) other c.data_managers h v.old_managers
                    found in
                named c' other h (kept ∙ found)
                ∙ ap (lookup h) e
                ∙ lookup-append h n m ms (omega arith)
                ∙ sym (named c other h found)
          ],
    )

client-close :
    (client : ClientManager) (k number : ℕ)
    → k ≢ number
    → lookup k (ClientManager.close_request client number).0.data_manager_list
      ≡ lookup k client.data_manager_list
unfolding ClientManager.close_request
client-close client k number ne = elim (Option-cases (lookup number client.data_manager_list)) [
  | inl missing ↦ rw (ClientManager.close_request, missing) refl
  | inr (m, found) ↦
      rw (ClientManager.close_request, found)
        (lookup-remove_manager k number client.data_manager_list ne)
]

-- On valid tags, after a request is closed its tag names nothing and GetLatestData answers it
-- without data, and every other tag names the data manager that it named.
pub close_request_lem :
    (c : ClientContext) (tag other : ℕ) (device_id : DeviceId)
    → IsValid c
    → other ≢ tag
    → let c' = (close_request c tag).0 in
      (get_latest_data c' tag device_id ≡ some no_packets)
      × (manager_of c' tag ≡ none)
      × (manager_of c' other ≡ manager_of c other)
unfolding close_request
close_request_lem c tag other device_id v ne = elim (Option-cases (lookup tag c.data_managers)) [
  | inl missing ↦
      rw (close_request, missing) (unanswered c tag device_id missing, unnamed c tag missing, refl)
  | inr (h, found) ↦
      let client = (ClientManager.close_request c.client_manager h).0 in
      let c' : ClientContext = record c {
        client_manager = client;
        data_managers = erase tag c.data_managers;
      } in
      let gone : lookup tag c'.data_managers ≡ none =
        ground (arith, lookup-erase tag tag c.data_managers) in
      let kept : lookup other c'.data_managers ≡ lookup other c.data_managers =
        ground (arith, lookup-erase tag other c.data_managers) in
      let stays : manager_of c' other ≡ manager_of c other =
        elim (Option-cases (lookup other c.data_managers)) [
          | inl missing ↦ unnamed c' other (kept ∙ missing) ∙ sym (unnamed c other missing)
          | inr (k, other_found) ↦
              let ne2 : k ≢ h =
                λ same. ne (v.distinct other tag h (other_found ∙ ap some same) found) in
              named c' other k (kept ∙ other_found)
              ∙ client-close c.client_manager k h ne2
              ∙ sym (named c other k other_found)
        ] in
      rw (close_request, found) (unanswered c' tag device_id gone, unnamed c' tag gone, stays)
]

-- On valid tags, a request of device data answers with a tag that named nothing. The tag names the
-- new data manager of that request, and every other tag names what it named.
pub request_device_data_lem :
    (c : ClientContext) (request : DataRequest) (other : ℕ)
    → IsValid c
    → other ≢ c.data_managers_tag_source
    → let (c', out, tag) = request_device_data c request in
      (m : DataManager) × (manager_of c tag ≡ none)
      × (manager_of c' tag ≡ some m)
      × (m.request ≡ request)
      × (m.stream_type ≡ device_data)
      × (manager_of c' other ≡ manager_of c other)
unfolding request_device_data ClientManager.request_device_data open_device_data_streams
    new_data_manager
request_device_data_lem c request other v ne =
    let client = c.client_manager in
    let m = new_data_manager request device_data in
    let opened = open_device_data_streams client.next_call m client.connected_devices in
    let ((same, same_type, others), served) =
      connect_each_lem client.connected_devices client.next_call m in
    let (c', effects, number) = ClientManager.request_device_data client request in
    let (new, named_now, kept) = taken_tag_lem c c' effects opened.manager v refl in
    (opened.manager, new, named_now, same, same_type, kept other ne)

take_tag-IsValid :
    (c : ClientContext) (client : ClientManager) (effects : List Effect) (m : DataManager)
    → IsValid c
    → client.data_manager_list
      ≡ c.client_manager.data_manager_list ++ ((c.client_manager.next_manager, m) ∷ [])
    → client.next_manager ≡ suc c.client_manager.next_manager
    → c.data_managers_tag_source + 1 < 4294967296
    → IsValid (take_tag c (client, effects, c.client_manager.next_manager)).0
unfolding take_tag
take_tag-IsValid c client effects m v e next room =
    let n = c.client_manager.next_manager in
    let tag = c.data_managers_tag_source in
    let ts = c.data_managers in
    let wrap : u32 (tag + 1) ≡ tag + 1 = omega arith in
    record {
      old_tags =
          Each-insert (λ t k. t < u32 (tag + 1)) tag n ts (omega arith)
            (Each-weaken (λ t k. t < tag) (λ t k. t < u32 (tag + 1)) ts (λ t k h. omega arith)
              v.old_tags);
      old_managers =
          Each-insert (λ t k. k < client.next_manager) tag n ts (ground (arith, next))
            (Each-weaken (λ t k. k < n) (λ t k. k < client.next_manager) ts
              (λ t k h. ground (arith, next)) v.old_managers);
      old_numbers =
          subst (λ ms. Each (λ i m'. i < client.next_manager) ms) (sym e)
            (Each-append (λ i m'. i < client.next_manager) c.client_manager.data_manager_list n m
              (Each-weaken (λ i m'. i < n) (λ i m'. i < client.next_manager)
                c.client_manager.data_manager_list (λ i m' h. ground (arith, next)) v.old_numbers)
              (ground (arith, next)));
      distinct = λ t u k at_t at_u. ground (
        arith,
        lookup-insert tag t n ts,
        lookup-insert tag u n ts,
        v.distinct t u k,
        fresh_manager c v t,
        fresh_manager c v u,
      );
    }

-- A request of device data keeps the tags valid, while the new tag is below 2^32 - 1.
pub request_device_data-IsValid :
    (c : ClientContext) (request : DataRequest)
    → IsValid c
    → c.data_managers_tag_source + 1 < 4294967296
    → IsValid (request_device_data c request).0
unfolding request_device_data ClientManager.request_device_data
request_device_data-IsValid c request v room =
    let client = c.client_manager in
    let m = new_data_manager request device_data in
    let opened = open_device_data_streams client.next_call m client.connected_devices in
    let (c', effects, number) = ClientManager.request_device_data client request in
    take_tag-IsValid c c' effects opened.manager v refl refl room

-- A new client context is valid.
pub new_client_context-IsValid :
    (client : ClientManager) → client.data_manager_list ≡ [] → IsValid (new_client_context client)
unfolding new_client_context
new_client_context-IsValid client e = record {
  old_tags = tt;
  old_managers = tt;
  old_numbers = subst (λ ms. Each (λ i m. i < client.next_manager) ms) (sym e) tt;
  distinct = λ t u manager at_t at_u. cc;
}
