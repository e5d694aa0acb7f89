-- ===== src/Tests/Monitors.antt =====
-- The theorems about the channel monitor, the shutdown and the text of a time at concrete inputs.
use ommo_sdk_external.Prelude.{
  lookup, ◌⊎◌, pos, negsuc, ℕ, ◌≡◌, refl, true, false, Option, none, some, [], ◌∷◌, ◌++◌, List,
  arith,
}
use ommo_sdk_external.Monitor.{
  create_wireless_manager, attach_stream, cancel, Effect, Wrapper, Monitored, monitor_round,
  channel_monitor, delete_ended, delete_wireless_manager,
}
use ommo_sdk_external.Monitor.Laws.{callbacks, event_streams, cancelled, held, IsWatching}
use ommo_sdk_external.Monitor.Runs.{
  channel_monitor_lem, monitor_round-restores, monitor_round-dangles, AllStreaming, AllActive,
  numbers,
}
use ommo_sdk_external.Monitor.Wireless.{delete_wireless_manager-returns}
use ommo_sdk_external.Monitor.Shutdown.Deadlock.{
  Threads, Step, Reach, locking, joining, testing, shutdown_deadlocks,
}
use ommo_sdk_external.Time.{Tm, system_time_to_string}
use ommo_sdk_external.Time.Laws.{Shows, system_time_to_string_lem}
use ommo_sdk_external.CallData.{CallData}
use ommo_sdk_external.WirelessManager.{set_call_data}
use ommo_sdk_external.Types.{WirelessManagementEvent}
use ommo_sdk_external.Tests.Data.{base_two}

abbrev idle_wrapper : Wrapper
idle_wrapper = record {
  wireless_manager = record { cdata = none; wireless_management_event_user_callback = none };
  call_number = 3;
}

-- Before the first round, with a storage and two wireless managers, and a user's callback 9.
abbrev starting : Monitored
starting = record {
  client = record {
    connected_devices = [];
    data_manager_list = [];
    next_manager = 0;
    next_call = 6;
    device_event_user_callback = none;
  };
  base_station_data_storage_list = (0, base_two) ∷ [];
  wireless_manager_wrapper_list = (4, idle_wrapper) ∷ (5, idle_wrapper) ∷ [];
  previous_channel_state = none;
  device_event_stream = none;
  channel_state_user_callback = some 9;
  live = [];
}

starting-IsWatching : IsWatching 2 starting
starting-IsWatching = record { watched = λ id e. absurd (cc) }

-- The channel connects, is ready, fails and is ready again.
channel_monitor_lem_example :
    (r : Monitored × List Effect) × (channel_monitor 2 starting (1 ∷ 2 ∷ 2 ∷ 3 ∷ 2 ∷ []) ≡ some r)
    × (callbacks r.1 ≡ 1 ∷ 2 ∷ 3 ∷ 2 ∷ [])
    × (cancelled r.1 ≡ held none ++ event_streams r.1)
    × (r.0.device_event_stream ≡ none)
channel_monitor_lem_example =
    channel_monitor_lem 2 (1 ∷ 2 ∷ 2 ∷ 3 ∷ 2 ∷ []) starting 9 starting-IsWatching refl

monitor_round-restores_example :
    (r : Monitored × List Effect) × (monitor_round 2 starting 2 ≡ some r)
    × (r.0.device_event_stream ≡ some 6)
    × AllStreaming r.0.base_station_data_storage_list
    × (numbers r.0.base_station_data_storage_list ≡ 0 ∷ [])
    × AllActive r.0.wireless_manager_wrapper_list
    × (numbers r.0.wireless_manager_wrapper_list ≡ 4 ∷ 5 ∷ [])
monitor_round-restores_example = monitor_round-restores 2 starting refl

monitor_round-dangles_example :
    (r : Monitored × List Effect) × (monitor_round 2 starting 2 ≡ some r)
    × (monitor_round 2 (delete_ended r.0 6) 3 ≡ none)
monitor_round-dangles_example = monitor_round-dangles 2 starting 3 refl (λ e. omega (arith, e))

-- The manager 7 has just been created; its call is the number 6.
abbrev with_manager : Monitored
with_manager = (create_wireless_manager starting 7).0

delete_wireless_manager-returns_example :
    (s' : Monitored) × (effects : List Effect) × (delete_wireless_manager 4 with_manager 7
      ≡ some (s', effects))
    × (numbers s'.wireless_manager_wrapper_list ≡ 4 ∷ 5 ∷ [])
    × (lookup 4 s'.wireless_manager_wrapper_list ≡ some idle_wrapper)
    × ((((attach_stream 6 idle_wrapper).wireless_manager.cdata ≡ none) × (effects ≡ []))
        ⊎ ((call : CallData WirelessManagementEvent) × ((attach_stream 6
                idle_wrapper).wireless_manager.cdata
              ≡ some call)
            × (effects ≡ cancel 6 ∷ cancel 6 ∷ [])))
unfolding create_wireless_manager attach_stream set_call_data
delete_wireless_manager-returns_example =
    delete_wireless_manager-returns 4 with_manager 7 4 (attach_stream 6 idle_wrapper) (omega arith)
      refl (λ e. omega (arith, e))

abbrev running : Threads
running = record {
  shutdown_at = locking;
  monitor_at = testing;
  stop_channel_monitor = false;
  storage_lock = none;
}

shutdown_deadlocks_example :
    (dead : Threads) × Reach running dead
    × (dead.shutdown_at ≡ joining)
    × ((u : Threads) → ¬ (Step dead u))
shutdown_deadlocks_example = shutdown_deadlocks running refl refl refl refl

-- 2025-03-09, 04:05:06, half past three hours west of UTC.
abbrev morning : Tm
morning = record {
  tm_year = pos 125;
  tm_mon = 2;
  tm_mday = 9;
  tm_hour = 4;
  tm_min = 5;
  tm_sec = 6;
  tm_gmtoff = negsuc 12599;
}

abbrev always_morning : ℕ → Option Tm
always_morning seconds = some morning

system_time_to_string_lem_example :
    (text : List ℕ) × (system_time_to_string always_morning 1741505706078 false 64
      ≡ (true, some text))
    × Shows text 2025 morning 78
system_time_to_string_lem_example =
    system_time_to_string_lem always_morning 1741505706078 64 morning 125 (omega arith)
      (omega arith) refl
      (record {
        mon = omega arith;
        mday = omega arith;
        hour = omega arith;
        minute = omega arith;
        sec = omega arith;
      })
      refl (omega arith) (omega arith)
