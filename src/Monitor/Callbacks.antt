-- ===== src/Monitor/Callbacks.antt =====
-- The registration of the two callbacks of the user with the client manager
-- (src/client_manager.cpp).
use ommo_sdk_external.Prelude.{ℕ, Option, none}
use ommo_sdk_external.Monitor.{Monitored}

-- An empty `std::function` is `none`.
unfoldable pub register_device_event_callback : Monitored → Option ℕ → Monitored
register_device_event_callback s callback_function = record s {
  client = record (s.client) { device_event_user_callback = callback_function };
}

unfoldable pub reset_device_event_callback : Monitored → Monitored
reset_device_event_callback s = record s {
  client = record (s.client) { device_event_user_callback = none };
}

unfoldable pub register_channel_state_callback : Monitored → Option ℕ → Monitored
register_channel_state_callback s callback_function = record s {
  channel_state_user_callback = callback_function;
}

unfoldable pub reset_channel_state_callback : Monitored → Monitored
reset_channel_state_callback s = record s { channel_state_user_callback = none }
