-- ===== src/Monitor/Laws.antt =====
-- What the channel monitor does over the states that the channel goes through.
use ommo_sdk_external.Prelude.{
  ℕ, suc, ◌≡◌, refl, sym, ap, ap₂, ◌∙◌, arith, true, false, Option, none, some, List, [], ◌∷◌, ◌++◌,
  if◌then◌else◌, ◌==◌, Bool-cases, Option-cases, inl, inr, ==_refl, ==_iff, append-nil,
}
use ommo_sdk_external.Storage.BaseStation.{BaseStationDataStorage, data_stream_exists}
use ommo_sdk_external.WirelessManager.{is_stream_active}
use ommo_sdk_external.Monitor.{
  Effect, open_device_event_stream, open_base_station_stream, open_wireless_stream, cancel,
  channel_state_callback, Wrapper, Monitored, is_live, reopen_storages, reopen_wireless,
  channel_ready, stop_device_events, clear_devices, is_state, call_back, channel_not_ready,
  channel_changed, monitor_round,
}

-- The states that the user's callback is called with.
abbrev pub callbacks : List Effect → List ℕ
callbacks [] = []
callbacks (channel_state_callback callback state ∷ es) = state ∷ callbacks es
callbacks (open_device_event_stream i ∷ es) = callbacks es
callbacks (open_base_station_stream i ∷ es) = callbacks es
callbacks (open_wireless_stream i ∷ es) = callbacks es
callbacks (cancel i ∷ es) = callbacks es

-- The device event streams that are opened, and the calls that are cancelled.
abbrev pub event_streams : List Effect → List ℕ
event_streams [] = []
event_streams (channel_state_callback callback state ∷ es) = event_streams es
event_streams (open_device_event_stream i ∷ es) = i ∷ event_streams es
event_streams (open_base_station_stream i ∷ es) = event_streams es
event_streams (open_wireless_stream i ∷ es) = event_streams es
event_streams (cancel i ∷ es) = event_streams es

abbrev pub cancelled : List Effect → List ℕ
cancelled [] = []
cancelled (channel_state_callback callback state ∷ es) = cancelled es
cancelled (open_device_event_stream i ∷ es) = cancelled es
cancelled (open_base_station_stream i ∷ es) = cancelled es
cancelled (open_wireless_stream i ∷ es) = cancelled es
cancelled (cancel i ∷ es) = i ∷ cancelled es

-- The states of a sequence that differ from the one before them.
abbrev pub changes : Option ℕ → List ℕ → List ℕ
changes previous [] = []
changes previous (state ∷ states) =
    let rest = changes (some state) states in if is_state previous state then rest else state ∷ rest

pub callbacks-append : (es fs : List Effect) → callbacks (es ++ fs) ≡ callbacks es ++ callbacks fs
callbacks-append [] fs = refl
callbacks-append (channel_state_callback c s ∷ es) fs = ap (λ r. s ∷ r) (callbacks-append es fs)
callbacks-append (open_device_event_stream i ∷ es) fs = callbacks-append es fs
callbacks-append (open_base_station_stream i ∷ es) fs = callbacks-append es fs
callbacks-append (open_wireless_stream i ∷ es) fs = callbacks-append es fs
callbacks-append (cancel i ∷ es) fs = callbacks-append es fs

pub event_streams-append :
    (es fs : List Effect) → event_streams (es ++ fs) ≡ event_streams es ++ event_streams fs
event_streams-append [] fs = refl
event_streams-append (channel_state_callback c s ∷ es) fs = event_streams-append es fs
event_streams-append (open_device_event_stream i ∷ es) fs =
    ap (λ r. i ∷ r) (event_streams-append es fs)
event_streams-append (open_base_station_stream i ∷ es) fs = event_streams-append es fs
event_streams-append (open_wireless_stream i ∷ es) fs = event_streams-append es fs
event_streams-append (cancel i ∷ es) fs = event_streams-append es fs

pub cancelled-append : (es fs : List Effect) → cancelled (es ++ fs) ≡ cancelled es ++ cancelled fs
cancelled-append [] fs = refl
cancelled-append (channel_state_callback c s ∷ es) fs = cancelled-append es fs
cancelled-append (open_device_event_stream i ∷ es) fs = cancelled-append es fs
cancelled-append (open_base_station_stream i ∷ es) fs = cancelled-append es fs
cancelled-append (open_wireless_stream i ∷ es) fs = cancelled-append es fs
cancelled-append (cancel i ∷ es) fs = ap (λ r. i ∷ r) (cancelled-append es fs)

-- Effects that only open streams of base stations and wireless managers.
abbrev IsQuiet : List Effect → Type 0
IsQuiet es = (callbacks es ≡ []) × (event_streams es ≡ []) × (cancelled es ≡ [])

reopen_storages-IsQuiet :
    (next : ℕ) (l : List (ℕ × BaseStationDataStorage)) → IsQuiet (reopen_storages next l).2
unfolding reopen_storages
reopen_storages-IsQuiet next [] = (refl, refl, refl)
reopen_storages-IsQuiet next ((i, s) ∷ rest) = elim (Bool-cases (data_stream_exists s)) [
  | inl e ↦ rw e (reopen_storages-IsQuiet next rest)
  | inr e ↦ rw e (reopen_storages-IsQuiet (suc next) rest)
]

reopen_wireless-IsQuiet : (next : ℕ) (l : List (ℕ × Wrapper)) → IsQuiet (reopen_wireless next l).2
unfolding reopen_wireless
reopen_wireless-IsQuiet next [] = (refl, refl, refl)
reopen_wireless-IsQuiet next ((i, w) ∷ rest) =
    elim (Bool-cases (is_stream_active w.wireless_manager)) [
      | inl e ↦ rw e (reopen_wireless-IsQuiet next rest)
      | inr e ↦ rw e (reopen_wireless-IsQuiet (suc next) rest)
    ]

-- The stream of device events, if there is one.
abbrev pub held : Option ℕ → List ℕ
held none = []
held (some id) = id ∷ []

-- The stream of device events exists, and only while the channel is ready.
pub record IsWatching (ready : ℕ) (s : Monitored) : Type 0 where
  pub watched :
      (id : ℕ)
      → s.device_event_stream ≡ some id
      → (is_live id s.live ≡ true) × (s.previous_channel_state ≡ some ready)

channel_ready-effects :
    (s : Monitored)
    → (callbacks (channel_ready s).1 ≡ [])
      × (event_streams (channel_ready s).1 ≡ s.client.next_call ∷ [])
      × (cancelled (channel_ready s).1 ≡ [])
unfolding channel_ready
channel_ready-effects s =
    let first = reopen_storages (suc s.client.next_call) s.base_station_data_storage_list in
    let second = reopen_wireless first.1 s.wireless_manager_wrapper_list in
    let a = reopen_storages-IsQuiet (suc s.client.next_call) s.base_station_data_storage_list in
    let b = reopen_wireless-IsQuiet first.1 s.wireless_manager_wrapper_list in
    (
      rw (callbacks-append first.2 second.2, a.0, b.0) refl,
      rw (event_streams-append first.2 second.2, a.1, b.1) refl,
      rw (cancelled-append first.2 second.2, a.2, b.2) refl,
    )

channel_ready-state :
    (s : Monitored)
    → ((channel_ready s).0.device_event_stream ≡ some s.client.next_call)
      × ((channel_ready s).0.live ≡ s.client.next_call ∷ s.live)
      × ((channel_ready s).0.channel_state_user_callback ≡ s.channel_state_user_callback)
unfolding channel_ready
channel_ready-state s = (refl, refl, refl)

-- What a round leaves: it remembers the state, calls the user back exactly if the state is another
-- one than before, and cancels each device event stream that it does not keep.
pub record RoundOk (ready : ℕ) (s : Monitored) (state : ℕ) (r : Monitored × List Effect)
    : Type 0 where
  pub watching : IsWatching ready r.0
  pub now : r.0.previous_channel_state ≡ some state
  pub callback : r.0.channel_state_user_callback ≡ s.channel_state_user_callback
  pub called : callbacks r.1 ≡ (
      if is_state s.previous_channel_state state
      then []
      else callbacks (call_back s.channel_state_user_callback state))
  pub balance :
      held s.device_event_stream ++ event_streams r.1
      ≡ cancelled r.1 ++ held r.0.device_event_stream

event_streams-call_back : (c : Option ℕ) (state : ℕ) → event_streams (call_back c state) ≡ []
event_streams-call_back none state = refl
event_streams-call_back (some c) state = refl

cancelled-call_back : (c : Option ℕ) (state : ℕ) → cancelled (call_back c state) ≡ []
cancelled-call_back none state = refl
cancelled-call_back (some c) state = refl

is_state-eq : (o : Option ℕ) (state : ℕ) → is_state o state ≡ true → o ≡ some state
is_state-eq none state e = absurd (cc)
is_state-eq (some p) state e = ap some (ground arith)

-- Where the channel was not ready there is no stream of device events.
no_stream :
    (ready : ℕ) (s : Monitored)
    → IsWatching ready s
    → is_state s.previous_channel_state ready ≡ false
    → s.device_event_stream ≡ none
no_stream ready s w other = elim (Option-cases s.device_event_stream) [
  | inl e ↦ e
  | inr (id, e) ↦ absurd (
      let was = (w.watched id e).1 in
      let same : is_state s.previous_channel_state ready ≡ true = rw was (==_refl ready) in cc)
]

module _ (ready : ℕ) (s : Monitored) (w : IsWatching ready s) where
  -- The call of the user neither opens nor cancels a stream.
  streams_lem :
      (es : List Effect) (state : ℕ) {l : List ℕ}
      → event_streams es ≡ l
      → event_streams (es ++ call_back s.channel_state_user_callback state) ≡ l
  streams_lem es state {l} e =
      rw
        (
          event_streams-append es (call_back s.channel_state_user_callback state),
          e,
          event_streams-call_back s.channel_state_user_callback state,
        )
        (append-nil l)

  cancelled_lem :
      (es : List Effect) (state : ℕ) {l : List ℕ}
      → cancelled es ≡ l
      → cancelled (es ++ call_back s.channel_state_user_callback state) ≡ l
  cancelled_lem es state {l} e =
      rw
        (
          cancelled-append es (call_back s.channel_state_user_callback state),
          e,
          cancelled-call_back s.channel_state_user_callback state,
        )
        (append-nil l)

  same_lem :
      (state : ℕ) → is_state s.previous_channel_state state ≡ true → RoundOk ready s state (s, [])
  same_lem state e = record {
    watching = w;
    now = is_state-eq s.previous_channel_state state e;
    callback = refl;
    called = rw e refl;
    balance = append-nil (held s.device_event_stream);
  }

  ready_lem :
      (state : ℕ)
      → is_state s.previous_channel_state state ≡ false
      → (state == ready) ≡ true
      → (r : Monitored × List Effect) × (channel_changed ready s state ≡ some r)
        × RoundOk ready s state r
  unfolding channel_changed
  ready_lem state other is_ready =
      let e : state ≡ ready = (==_iff state ready).0 is_ready in
      let free = no_stream ready s w (rw e at other) in
      let (c, events, x) = channel_ready-effects s in
      let (stream, exists, same) = channel_ready-state s in
      let opened = channel_ready s in
      let cb = call_back s.channel_state_user_callback state in
      (
        (record (opened.0) { previous_channel_state = some state }, opened.1 ++ cb),
        rw is_ready refl,
        record {
          watching = record { watched = λ id found. (ground (arith, stream, exists), ap some e) };
          now = refl;
          callback = same;
          called = rw (callbacks-append opened.1 cb, c, other) refl;
          balance =
              ap₂ (λ a b. held a ++ b) free (streams_lem opened.1 state events)
              ∙ sym (ap₂ (λ a b. a ++ held b) (cancelled_lem opened.1 state x) stream);
        },
      )

  -- What is left when the stream of device events, if there is one, was stopped.
  pub stop_lem :
      (r : Monitored × List Effect) × (stop_device_events s ≡ some r)
      × (r.0.device_event_stream ≡ none)
      × (r.0.channel_state_user_callback ≡ s.channel_state_user_callback)
      × (callbacks r.1 ≡ [])
      × (event_streams r.1 ≡ [])
      × (cancelled r.1 ≡ held s.device_event_stream)
  unfolding stop_device_events
  stop_lem = elim (Option-cases s.device_event_stream) [
    | inl e ↦ ((s, []), rw e refl, e, refl, refl, refl, rw e refl)
    | inr (id, e) ↦ (
      (record s { device_event_stream = none }, cancel id ∷ []),
      rw (e, (w.watched id e).0) refl,
      refl,
      refl,
      refl,
      refl,
      rw e refl,
    )
  ]

  not_ready_lem :
      (state : ℕ)
      → is_state s.previous_channel_state state ≡ false
      → (state == ready) ≡ false
      → (r : Monitored × List Effect) × (channel_changed ready s state ≡ some r)
        × RoundOk ready s state r
  unfolding channel_changed channel_not_ready
  not_ready_lem state other waits =
      let (q, stopped, gone, same, c, e, x) = stop_lem in
      let cb = call_back s.channel_state_user_callback state in
      let t : Monitored =
        if is_state s.previous_channel_state ready then clear_devices q.0 else q.0 in
      let stream : t.device_event_stream ≡ none = ground arith in
      (
        (record t { previous_channel_state = some state }, q.1 ++ cb),
        rw (waits, stopped) refl,
        record {
          watching = record { watched = λ id held. absurd (cc) };
          now = refl;
          callback = ground arith;
          called = rw (callbacks-append q.1 cb, c, other) refl;
          balance =
              ap (λ b. held s.device_event_stream ++ b) (streams_lem q.1 state e)
              ∙ sym (ap₂ (λ a b. a ++ held b) (cancelled_lem q.1 state x) stream);
        },
      )

  pub monitor_round_lem :
      (state : ℕ)
      → (r : Monitored × List Effect) × (monitor_round ready s state ≡ some r)
        × RoundOk ready s state r
  unfolding monitor_round
  monitor_round_lem state = elim (Bool-cases (is_state s.previous_channel_state state)) [
    | inl same ↦ ((s, []), rw same refl, same_lem state same)
    | inr other ↦ rw other (elim (Bool-cases (state == ready)) [
      | inl is_ready ↦ ready_lem state other is_ready
      | inr waits ↦ not_ready_lem state other waits
    ])
  ]
