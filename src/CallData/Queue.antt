-- ===== src/CallData/Queue.antt =====
-- `CompletionQueueProcessor` of src/client_manager.cpp for the events of one call data object, and
-- what gRPC still owes that object: the operations that were started and have not come back.
pub mod Reading
pub mod Writing
pub mod Early
use ommo_sdk_external.Prelude.{
  ℕ, zero, suc, ◌+◌, ◌-◌, Bool, true, false, not, Option, none, some, List, [], ◌∷◌, ◌++◌,
  if◌then◌else◌,
}
use ommo_sdk_external.CallData.{
  OperationType, read_op, write_op, finish_op, Action, start_call, start_read, start_write, deliver,
  try_cancel, CallData, stop,
}

-- An event of the queue: `op_type` and `ok`, and for a read the message that it brought.
pub record Event (R : Type 0) : Type 0 where
  pub op_type : OperationType
  pub ok : Bool
  pub message : Option R

-- gRPC writes the message into `response_` before it reports the read.
abbrev pub receive : {R : Type 0} → CallData R → Option R → CallData R
receive c none = c
receive c (some m) = record c { response = m }

-- An event takes one operation of its kind off what is owed.
abbrev pub reads_taken : OperationType → ℕ
reads_taken read_op = 1
reads_taken write_op = 0
reads_taken finish_op = 0

abbrev pub writes_taken : OperationType → ℕ
writes_taken read_op = 0
writes_taken write_op = 1
writes_taken finish_op = 0

-- What a run of events leaves: the object, the reads and writes that gRPC still owes it, whether it
-- is alive, and the actions it took.
pub record Outcome (R W : Type 0) : Type 0 where
  pub call : CallData R
  pub reads : ℕ
  pub writes : ℕ
  pub alive : Bool
  pub actions : List (Action R W)

module _ {R W : Type 0} where
  -- One round of the loop, with the object's own `Proceed`. The flag is false if the object was
  -- deleted.
  unfoldable pub process_event :
      (CallData R → OperationType → CallData R × List (Action R W) × Bool)
      → CallData R
      → Event R
      → CallData R × List (Action R W) × Bool
  process_event proceed c e =
      let filled = receive c e.message in proceed (if e.ok then filled else stop filled) e.op_type

  -- Operations of the object that gRPC has not reported yet. StartCall has the tag of the reads.
  abbrev pub reads_started : List (Action R W) → ℕ
  reads_started [] = 0
  reads_started (start_call ∷ acts) = suc (reads_started acts)
  reads_started (start_read ∷ acts) = suc (reads_started acts)
  reads_started (start_write w ∷ acts) = reads_started acts
  reads_started (deliver m ∷ acts) = reads_started acts
  reads_started (try_cancel ∷ acts) = reads_started acts

  abbrev pub writes_started : List (Action R W) → ℕ
  writes_started [] = 0
  writes_started (start_call ∷ acts) = writes_started acts
  writes_started (start_read ∷ acts) = writes_started acts
  writes_started (start_write w ∷ acts) = suc (writes_started acts)
  writes_started (deliver m ∷ acts) = writes_started acts
  writes_started (try_cancel ∷ acts) = writes_started acts

  abbrev pub delivered : List (Action R W) → List R
  delivered [] = []
  delivered (start_call ∷ acts) = delivered acts
  delivered (start_read ∷ acts) = delivered acts
  delivered (start_write w ∷ acts) = delivered acts
  delivered (deliver m ∷ acts) = m ∷ delivered acts
  delivered (try_cancel ∷ acts) = delivered acts

  abbrev pub after_event :
      Outcome R W → Event R → CallData R × List (Action R W) × Bool → Outcome R W
  after_event o e (c, acts, alive) = record {
    call = c;
    reads = o.reads - reads_taken e.op_type + reads_started acts;
    writes = o.writes - writes_taken e.op_type + writes_started acts;
    alive = alive;
    actions = o.actions ++ acts;
  }

  -- The loop over the events of one object. After its deletion no event can be handled.
  unfoldable pub run_events :
      (CallData R → OperationType → CallData R × List (Action R W) × Bool)
      → Outcome R W
      → List (Event R)
      → Outcome R W
  run_events proceed o [] = o
  run_events proceed o (e ∷ es) =
      let rest = run_events proceed (after_event o e (process_event proceed o.call e)) es in
      if o.alive then rest else o

  -- The object after its constructor has run.
  abbrev pub opened : CallData R × List (Action R W) → Outcome R W
  opened (c, acts) = record {
    call = c;
    reads = reads_started acts;
    writes = writes_started acts;
    alive = true;
    actions = acts;
  }
