-- ===== src/BaseStations/Reads.antt =====
-- The functions of `ClientContext` that read base station data (src/client_context.cpp). `none` is
-- the answer where the model's client does not have the storage.
use ommo_sdk_external.Prelude.{
  ℕ, ◌≡◌, refl, Bool, true, false, Option, none, some, List, [], ◌∷◌, if◌then◌else◌, ◌==◌, lookup,
}
use ommo_sdk_external.Buffer.{DataResponse, no_packets}
use ommo_sdk_external.Types.{BaseStationData}
use ommo_sdk_external.Storage.BaseStation.{BaseStationDataStorage}
use ommo_sdk_external.Storage.BaseStation
use ommo_sdk_external.BaseStations.{SharedRequests}

abbrev pub is_open : ℕ → List ℕ → Bool
is_open tag [] = false
is_open tag (t ∷ ts) = let rest = is_open tag ts in if t == tag then true else rest

-- What a read asks of the storage that the number names.
abbrev pub ask_storage :
    List (ℕ × BaseStationDataStorage)
    → (BaseStationDataStorage → Option (DataResponse BaseStationData))
    → Option ℕ
    → Option (DataResponse BaseStationData)
ask_storage storages query none = some no_packets
ask_storage storages query (some number) = elim (lookup number storages) [
  | none ↦ none
  | some s ↦ query s
]

-- No data without a storage or for a tag that is not open.
unfoldable pub read_shared :
    SharedRequests
    → ℕ
    → (BaseStationDataStorage → Option (DataResponse BaseStationData))
    → Option (DataResponse BaseStationData)
read_shared c request_tag query =
    if is_open request_tag c.base_station_request_list
    then ask_storage c.client.base_station_data_storage_list query c.base_station_data_storage
    else some no_packets

unfoldable pub get_latest_base_station_data :
    SharedRequests → ℕ → Option (DataResponse BaseStationData)
unfolding read_shared
get_latest_base_station_data c request_tag = read_shared c request_tag BaseStation.get_latest_data

unfoldable pub get_latest_base_station_data_count :
    SharedRequests → ℕ → ℕ → Option (DataResponse BaseStationData)
unfolding read_shared
get_latest_base_station_data_count c request_tag num_packets =
    read_shared c request_tag (λ s. BaseStation.get_latest_data_count s num_packets)

unfoldable pub get_base_station_data_since_index :
    SharedRequests → ℕ → ℕ → Option (DataResponse BaseStationData)
unfolding read_shared
get_base_station_data_since_index c request_tag start_index =
    read_shared c request_tag (λ s. BaseStation.get_data_since_index s start_index)

-- Two open tags read the same data, by each of the three functions, and a tag that is not open reads
-- no data.
pub tags_share :
    (c : SharedRequests) (first second closed n : ℕ)
    → is_open first c.base_station_request_list ≡ true
    → is_open second c.base_station_request_list ≡ true
    → is_open closed c.base_station_request_list ≡ false
    → (get_latest_base_station_data c first ≡ get_latest_base_station_data c second)
      × (get_latest_base_station_data_count c first n
          ≡ get_latest_base_station_data_count c second n)
      × (get_base_station_data_since_index c first n ≡ get_base_station_data_since_index c second n)
      × (get_latest_base_station_data c closed ≡ some no_packets)
      × (get_latest_base_station_data_count c closed n ≡ some no_packets)
      × (get_base_station_data_since_index c closed n ≡ some no_packets)
unfolding get_latest_base_station_data get_latest_base_station_data_count
    get_base_station_data_since_index
tags_share c first second closed n a b e =
    (rw (a, b) refl, rw (a, b) refl, rw (a, b) refl, rw e refl, rw e refl, rw e refl)
