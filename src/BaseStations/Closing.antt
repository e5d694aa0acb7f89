-- ===== src/BaseStations/Closing.antt =====
-- What the closing of base station requests does.
use ommo_sdk_external.Prelude.{
  ℕ, zero, suc, ◌≡◌, ◌≢◌, refl, none, some, List, [], ◌∷◌, arith, ==_refl,
}
use ommo_sdk_external.BaseStations.{
  StorageList, SharedRequests, request_base_station_data, close_loop,
  close_base_station_data_request, request_shared, close_shared,
}
use ommo_sdk_external.Storage.BaseStation.{
  BaseStationDataStorage, set_data_stream, cancel_data_stream,
}

close_loop-hangs :
    (fuel i number : ℕ) (s : BaseStationDataStorage) (storages : List (ℕ × BaseStationDataStorage))
    → i ≢ number
    → close_loop fuel ((i, s) ∷ storages) number ≡ none
unfolding close_loop
close_loop-hangs zero i number s storages ne = refl
close_loop-hangs (suc fuel) i number s storages ne =
    ground (arith, close_loop-hangs fuel i number s storages ne)

-- If the first storage of the list is not the one to be closed, then CloseBaseStationDataRequest
-- of the client manager does not return within any number of rounds of its loop.
pub close_hangs :
    (fuel i number : ℕ) (s : BaseStationDataStorage) (storages : List (ℕ × BaseStationDataStorage))
    (c : StorageList)
    → c.base_station_data_storage_list ≡ (i, s) ∷ storages
    → i ≢ number
    → close_base_station_data_request fuel c (some number) ≡ none
unfolding close_base_station_data_request
close_hangs fuel i number s storages c first ne =
    rw (first, close_loop-hangs fuel i number s storages ne)

-- A client context and its client manager without any base station request.
abbrev pub no_requests : ℕ → ℕ → ℕ → SharedRequests
no_requests next_storage next_call tag_source = record {
  client = record {
    base_station_data_storage_list = [];
    next_storage = next_storage;
    next_call = next_call;
  };
  base_station_data_storage = none;
  base_station_request_list = [];
  tag_source = tag_source;
}

-- A client context without base station requests makes one, closes it, and makes another. The
-- closing cancels the stream of the first request and takes its storage off the client manager's
-- list. The other request is then given that same storage, and opens no stream.
pub reused_after_close :
    (fuel next_storage next_call tag_source : ℕ)
    → let (first, tag) = request_shared (no_requests next_storage next_call tag_source) in
      (closed : SharedRequests) × (close_shared (suc fuel) first tag
        ≡ some (closed, next_call ∷ []))
      × ((request_shared closed).0.base_station_data_storage ≡ some next_storage)
      × ((request_shared closed).0.client.base_station_data_storage_list ≡ [])
      × ((request_shared closed).0.client.next_call ≡ suc next_call)
unfolding request_shared close_shared request_base_station_data close_base_station_data_request
    close_loop set_data_stream cancel_data_stream
reused_after_close fuel next_storage next_call tag_source =
    let first = (request_shared (no_requests next_storage next_call tag_source)).0 in
    (
      record first {
        client = record (first.client) { base_station_data_storage_list = [] };
        base_station_request_list = [];
      },
      rw (==_refl tag_source) (rw (==_refl next_storage) refl),
      refl,
      refl,
      refl,
    )
