-- ===== src/CallData.antt =====
-- Call data: the objects that carry one streaming RPC each (include/rpcClientCallData.h,
-- src/rpcClientCallData.cpp and the classes derived from it). gRPC itself is not modelled: what the
-- code asks of it is a list of actions, and the completions that it hands back are events.
pub mod Readers
pub mod Wireless
pub mod Queue
use ommo_sdk_external.Prelude.{
  ℕ, ◌+◌, Bool, true, false, ◌&&◌, Option, none, some, List, [], ◌∷◌, ◌++◌, if◌then◌else◌,
}

pub data ClientCallState : Type 0 where
  connecting processing waiting finish : ClientCallState

pub data OperationType : Type 0 where
  read_op write_op finish_op : OperationType

-- What a call data object asks of gRPC and of its handler: a call is started, a read is started, a
-- write of `W` is started, and a message `R` is handed to `cb_handler_`.
pub data Action (R W : Type 0) : Type 0 where
  start_call : Action R W
  start_read : Action R W
  start_write : W → Action R W
  deliver : R → Action R W
  try_cancel : Action R W

-- `has_handler` says that `cb_handler_` is not empty; `response` is the content of `response_`.
pub record CallData (R : Type 0) : Type 0 where
  pub status : ClientCallState
  pub listener_active : Bool
  pub has_handler : Bool
  pub response : R

unfoldable pub stop : {R : Type 0} → CallData R → CallData R
stop c = record c { status = finish }

module _ {R W : Type 0} where
  -- The constructors: `blank` is the message that `response_` starts with.
  unfoldable pub new_call_data : R → Bool → CallData R × List (Action R W)
  new_call_data blank cb_handler = (
    record {
      status = connecting;
      listener_active = cb_handler;
      has_handler = cb_handler;
      response = blank;
    },
    start_call ∷ [],
  )

  unfoldable pub cancel_call : CallData R → CallData R × List (Action R W)
  cancel_call c = (record c { listener_active = false }, try_cancel ∷ [])

  -- The handler is called if there is one and the listener is active.
  abbrev pub deliveries : CallData R → List (Action R W)
  deliveries c = if c.listener_active && c.has_handler then deliver c.response ∷ [] else []

  -- `Proceed` of the streams that only read. (Their state is never `waiting`: CallData.Queue.)
  proceed_reading : ClientCallState → CallData R → CallData R × List (Action R W) × Bool
  proceed_reading connecting c = (record c { status = processing }, start_read ∷ [], true)
  proceed_reading processing c = (c, deliveries c ++ (start_read ∷ []), true)
  proceed_reading waiting c = (c, [], false)
  proceed_reading finish c = (c, [], false)

  unfoldable pub proceed_reader : CallData R → OperationType → CallData R × List (Action R W) × Bool
  unfolding proceed_reading
  proceed_reader c op_type = proceed_reading c.status c
