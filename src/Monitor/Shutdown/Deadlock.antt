-- ===== src/Monitor/Shutdown/Deadlock.antt =====
-- The thread that runs `Shutdown` and the one that runs `ChannelMonitor`, with the lock of the base
-- station list (`base_station_data_storage_list_mutex_`) and the flag that stops the monitor. A step
-- is what one thread does between two points at which the other can act. `Shutdown` holds the lock
-- (`lk2`) to its end, also while it joins the monitor.
use ommo_sdk_external.Prelude.{Bool, true, false, Option, none, some, ◌≡◌, ◌≢◌, refl}

pub data Owner : Type 0 where
  by_shutdown by_monitor : Owner

pub data ShutdownAt : Type 0 where
  locking cancelling joining finished : ShutdownAt

pub data MonitorAt : Type 0 where
  testing acquiring reopening sleeping stopped : MonitorAt

pub record Threads : Type 0 where
  pub shutdown_at : ShutdownAt
  pub monitor_at : MonitorAt
  pub stop_channel_monitor : Bool
  pub storage_lock : Option Owner

pub data Step : Threads → Threads → Type 0 where
  -- `std::unique_lock<std::mutex> lk2(..)`
  lock_list :
      (t : Threads)
      → t.shutdown_at ≡ locking
      → t.storage_lock ≡ none
      → Step t (record t { shutdown_at = cancelling; storage_lock = some by_shutdown })
  -- `stop_channel_monitor_ = true`, after the loop over the storages.
  set_flag :
      (t : Threads)
      → t.shutdown_at ≡ cancelling
      → Step t (record t { shutdown_at = joining; stop_channel_monitor = true })
  -- `channel_monitor_thread_->join()`, and the end of the function, which releases the lock.
  join :
      (t : Threads)
      → t.shutdown_at ≡ joining
      → t.monitor_at ≡ stopped
      → Step t (record t { shutdown_at = finished; storage_lock = none })
  -- `while (!stop_channel_monitor_)`
  leave_loop :
      (t : Threads)
      → t.monitor_at ≡ testing
      → t.stop_channel_monitor ≡ true
      → Step t (record t { monitor_at = stopped })
  -- A round in which the channel has become ready comes to the lock.
  find_ready :
      (t : Threads)
      → t.monitor_at ≡ testing
      → t.stop_channel_monitor ≡ false
      → Step t (record t { monitor_at = acquiring })
  -- Any other round.
  find_other :
      (t : Threads)
      → t.monitor_at ≡ testing
      → t.stop_channel_monitor ≡ false
      → Step t (record t { monitor_at = sleeping })
  -- `std::unique_lock<std::mutex> lk(..)`
  acquire :
      (t : Threads)
      → t.monitor_at ≡ acquiring
      → t.storage_lock ≡ none
      → Step t (record t { monitor_at = reopening; storage_lock = some by_monitor })
  -- `lk.unlock()`
  release :
      (t : Threads)
      → t.monitor_at ≡ reopening
      → Step t (record t { monitor_at = sleeping; storage_lock = none })
  wake : (t : Threads) → t.monitor_at ≡ sleeping → Step t (record t { monitor_at = testing })

pub data Reach (t : Threads) : Threads → Type 0 where
  here : Reach t t
  next : {u v : Threads} → Reach t u → Step u v → Reach t v

-- The monitor waits for the lock, and Shutdown, which holds it, waits for the monitor.
pub record IsStuck (t : Threads) : Type 0 where
  pub joins : t.shutdown_at ≡ joining
  pub acquires : t.monitor_at ≡ acquiring
  pub held : t.storage_lock ≡ some by_shutdown

IsStuck-no-Step : {t u : Threads} → IsStuck t → ¬ (Step t u)
IsStuck-no-Step i (lock_list t a b) = let j = i.joins in cc
IsStuck-no-Step i (set_flag t a) = let j = i.joins in cc
IsStuck-no-Step i (join t a b) = let j = i.acquires in cc
IsStuck-no-Step i (leave_loop t a b) = let j = i.acquires in cc
IsStuck-no-Step i (find_ready t a b) = let j = i.acquires in cc
IsStuck-no-Step i (find_other t a b) = let j = i.acquires in cc
IsStuck-no-Step i (acquire t a b) = let j = i.held in cc
IsStuck-no-Step i (release t a) = let j = i.acquires in cc
IsStuck-no-Step i (wake t a) = let j = i.acquires in cc

-- When Shutdown comes to the lock while the monitor is about to test its flag, a state can be
-- reached in which Shutdown holds the lock and joins the monitor, and no step is possible any more:
-- the shutdown never ends. The channel has become ready in between.
pub shutdown_deadlocks :
    (t : Threads)
    → t.shutdown_at ≡ locking
    → t.monitor_at ≡ testing
    → t.stop_channel_monitor ≡ false
    → t.storage_lock ≡ none
    → (dead : Threads) × Reach t dead
      × (dead.shutdown_at ≡ joining)
      × ((u : Threads) → ¬ (Step dead u))
shutdown_deadlocks t a b c d =
    let one : Threads = record t { monitor_at = acquiring } in
    let two : Threads = record one { shutdown_at = cancelling; storage_lock = some by_shutdown } in
    let three : Threads = record two { shutdown_at = joining; stop_channel_monitor = true } in
    (
      three,
      next (next (next here (find_ready t b c)) (lock_list one a d)) (set_flag two refl),
      refl,
      λ u. IsStuck-no-Step (record { joins = refl; acquires = refl; held = refl }),
    )

Reach-trans : {t u v : Threads} → Reach t u → Reach u v → Reach t v
Reach-trans r here = r
Reach-trans r (next q step) = next (Reach-trans r q) step

abbrev CanFinish : Threads → Type 0
CanFinish t = (u : Threads) × Reach t u × (u.shutdown_at ≡ finished)

after : {t u : Threads} → Step t u → CanFinish u → CanFinish t
after step (v, r, e) = (v, Reach-trans (next here step) r, e)

stopped-CanFinish : (t : Threads) → t.shutdown_at ≡ joining → t.monitor_at ≡ stopped → CanFinish t
stopped-CanFinish t j m = (_, next here (join t j m), refl)

testing-CanFinish :
    (t : Threads)
    → t.shutdown_at ≡ joining
    → t.stop_channel_monitor ≡ true
    → t.monitor_at ≡ testing
    → CanFinish t
testing-CanFinish t j f m = after (leave_loop t m f) (stopped-CanFinish _ j refl)

sleeping-CanFinish :
    (t : Threads)
    → t.shutdown_at ≡ joining
    → t.stop_channel_monitor ≡ true
    → t.monitor_at ≡ sleeping
    → CanFinish t
sleeping-CanFinish t j f m = after (wake t m) (testing-CanFinish _ j f refl)

monitor-CanFinish :
    (t : Threads) (m : MonitorAt)
    → t.monitor_at ≡ m
    → m ≢ acquiring
    → t.shutdown_at ≡ joining
    → t.stop_channel_monitor ≡ true
    → CanFinish t
monitor-CanFinish t testing e ne j f = testing-CanFinish t j f e
monitor-CanFinish t acquiring e ne j f = absurd (ne refl)
monitor-CanFinish t reopening e ne j f = after (release t e) (sleeping-CanFinish _ j f refl)
monitor-CanFinish t sleeping e ne j f = sleeping-CanFinish t j f e
monitor-CanFinish t stopped e ne j f = stopped-CanFinish t j e

-- Where Shutdown joins the monitor, whose flag is set, it can finish from every state in which the
-- monitor is not waiting for the lock.
pub shutdown_finishes :
    (t : Threads)
    → t.shutdown_at ≡ joining
    → t.stop_channel_monitor ≡ true
    → t.monitor_at ≢ acquiring
    → (u : Threads) × Reach t u × (u.shutdown_at ≡ finished)
shutdown_finishes t j f ne = monitor-CanFinish t t.monitor_at refl ne j f
