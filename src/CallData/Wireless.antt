-- ===== src/CallData/Wireless.antt =====
-- The wireless management stream, which reads and writes
-- (src/rpc_wireless_management_stream_client_call_data.cpp).
use ommo_sdk_external.Prelude.{Bool, true, false, List, [], ◌∷◌, ◌++◌}
use ommo_sdk_external.CallData.{
  ClientCallState, connecting, processing, waiting, finish, OperationType, read_op, write_op,
  finish_op, Action, start_read, start_write, CallData, deliveries,
}

module _ {R W : Type 0} where
  send_in : ClientCallState → CallData R → W → CallData R × List (Action R W) × Bool
  send_in processing c request = (c, [], false)
  send_in connecting c request = (record c { status = processing }, start_write request ∷ [], true)
  send_in waiting c request = (record c { status = processing }, start_write request ∷ [], true)
  send_in finish c request = (c, [], false)

  unfoldable pub send_wireless_management_request :
      CallData R → W → CallData R × List (Action R W) × Bool
  unfolding send_in
  send_wireless_management_request c request = send_in c.status c request

  proceed_in : ClientCallState → OperationType → CallData R → CallData R × List (Action R W) × Bool
  proceed_in connecting op c = (record c { status = waiting }, start_read ∷ [], true)
  proceed_in waiting read_op c = (c, deliveries c ++ (start_read ∷ []), true)
  proceed_in waiting op c = (c, [], true)
  proceed_in processing read_op c = (c, deliveries c ++ (start_read ∷ []), true)
  proceed_in processing write_op c = (record c { status = waiting }, [], true)
  proceed_in processing finish_op c = (c, [], true)
  proceed_in finish op c = (c, [], false)

  unfoldable pub proceed_wireless :
      CallData R → OperationType → CallData R × List (Action R W) × Bool
  unfolding proceed_in
  proceed_wireless c op_type = proceed_in c.status op_type c
