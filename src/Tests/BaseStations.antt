-- ===== src/Tests/BaseStations.antt =====
-- The theorems about base station requests at concrete inputs.
use ommo_sdk_external.Prelude.{◌≡◌, refl, none, some, [], ◌∷◌, arith}
use ommo_sdk_external.BaseStations.{
  StorageList, SharedRequests, close_base_station_data_request, request_shared, close_shared,
}
use ommo_sdk_external.BaseStations.Closing.{no_requests, close_hangs, reused_after_close}
use ommo_sdk_external.Tests.Data.{base_two}

-- Two requests are open.
abbrev two_open : StorageList
two_open = record {
  base_station_data_storage_list = (0, base_two) ∷ (1, base_two) ∷ [];
  next_storage = 2;
  next_call = 5;
}

close_hangs_example : close_base_station_data_request 1000 two_open (some 1) ≡ none
close_hangs_example =
    close_hangs 1000 0 1 base_two ((1, base_two) ∷ []) two_open refl (λ e. omega (arith, e))

reused_after_close_example :
    let (first, tag) = request_shared (no_requests 0 3 1) in
    (closed : SharedRequests) × (close_shared 1 first tag ≡ some (closed, 3 ∷ []))
    × ((request_shared closed).0.base_station_data_storage ≡ some 0)
    × ((request_shared closed).0.client.base_station_data_storage_list ≡ [])
    × ((request_shared closed).0.client.next_call ≡ 4)
reused_after_close_example = reused_after_close 0 0 3 1
