-- ===== src/BaseStations.antt =====
-- The requests of base station data: those of `ClientManager` (src/client_manager.cpp), each with a
-- storage and a stream of its own, and those of `ClientContext` (src/client_context.cpp), which
-- share one. A shared pointer to a storage is known by a number.
pub mod Closing
pub mod Reads
use ommo_sdk_external.Prelude.{
  ℕ, zero, suc, ◌+◌, Bool, true, false, Option, none, some, List, [], ◌∷◌, ◌++◌, u32, if◌then◌else◌,
  ◌==◌, ◌>>=◌,
}
use ommo_sdk_external.Storage.BaseStation.{
  BaseStationDataStorage, new_storage, set_data_stream, cancel_data_stream,
}

pub record StorageList : Type 0 where
  pub base_station_data_storage_list : List (ℕ × BaseStationDataStorage)
  pub next_storage : ℕ
  pub next_call : ℕ

-- The default of the constructor's `buffer_size`.
abbrev pub default_size : ℕ
default_size = 500

-- The stream is opened under the number of its new call data object.
unfoldable pub request_base_station_data : StorageList → StorageList × ℕ
request_base_station_data c = (
  record {
    base_station_data_storage_list =
        c.base_station_data_storage_list
        ++ ((c.next_storage, set_data_stream (new_storage default_size) (some c.next_call)) ∷ []);
    next_storage = suc c.next_storage;
    next_call = suc c.next_call;
  },
  c.next_storage,
)

abbrev pub cancelled : BaseStationDataStorage → List ℕ
cancelled s = elim (cancel_data_stream s) [ none ↦ [] | some call_data ↦ call_data ∷ [] ]

-- The loop, with fuel for its rounds. Its body advances the iterator only where it erases. The
-- result is the list that is left and the calls that were cancelled.
unfoldable pub close_loop :
    ℕ → List (ℕ × BaseStationDataStorage) → ℕ → Option (List (ℕ × BaseStationDataStorage) × List ℕ)
close_loop zero storages number = none
close_loop (suc fuel) [] number = some ([], [])
close_loop (suc fuel) ((i, s) ∷ storages) number =
    let again = close_loop fuel ((i, s) ∷ storages) number in
    if i == number then some (storages, cancelled s) else again

unfoldable pub close_base_station_data_request :
    ℕ → StorageList → Option ℕ → Option (StorageList × List ℕ)
close_base_station_data_request fuel c none = some (c, [])
close_base_station_data_request fuel c (some number) =
    close_loop fuel c.base_station_data_storage_list number >>= λ r.
    some (record c { base_station_data_storage_list = r.0 }, r.1)

-- The part of `ClientContext::impl` for base stations; the source of tags is shared with the other
-- requests.
pub record SharedRequests : Type 0 where
  pub client : StorageList
  pub base_station_data_storage : Option ℕ
  pub base_station_request_list : List ℕ
  pub tag_source : ℕ

unfoldable pub request_shared : SharedRequests → SharedRequests × ℕ
request_shared c = elim c.base_station_data_storage [
  | none ↦
      let (client, storage) = request_base_station_data c.client in
      (
        record {
          client = client;
          base_station_data_storage = some storage;
          base_station_request_list = c.tag_source ∷ c.base_station_request_list;
          tag_source = u32 (c.tag_source + 1);
        },
        c.tag_source,
      )
  | some storage ↦ (
    record c {
      base_station_request_list = c.tag_source ∷ c.base_station_request_list;
      tag_source = u32 (c.tag_source + 1);
    },
    c.tag_source,
  )
]

abbrev pub without_tag : ℕ → List ℕ → List ℕ
without_tag tag [] = []
without_tag tag (t ∷ ts) = let rest = without_tag tag ts in if t == tag then rest else t ∷ rest

unfoldable pub close_shared : ℕ → SharedRequests → ℕ → Option (SharedRequests × List ℕ)
close_shared fuel c request_tag =
    close_if_empty (without_tag request_tag c.base_station_request_list)
  where
    close_if_empty : List ℕ → Option (SharedRequests × List ℕ)
    close_if_empty [] =
        close_base_station_data_request fuel c.client c.base_station_data_storage >>= λ r.
        some (record c { client = r.0; base_station_request_list = [] }, r.1)
    close_if_empty (t ∷ ts) = some (record c { base_station_request_list = t ∷ ts }, [])
