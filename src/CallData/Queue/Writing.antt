-- ===== src/CallData/Queue/Writing.antt =====
-- The wireless management stream under any interleaving of requests by the user with events of the
-- completion queue, and the operations that are outstanding.
use ommo_sdk_external.Prelude.{
  ◌+◌, ◌≤◌, ◌≡◌, ◌≢◌, ◌⊎◌, Bool, true, false, List, [], ◌∷◌, ◌++◌, arith,
}
use ommo_sdk_external.CallData.{
  processing, finish, read_op, write_op, Action, start_write, CallData, new_call_data, stop,
}
use ommo_sdk_external.CallData.Wireless.{send_wireless_management_request, proceed_wireless}
use ommo_sdk_external.CallData.Queue.{
  Event, Outcome, process_event, opened, after_event, reads_started, writes_started,
}

-- What happens to the stream next.
pub data Move (R W : Type 0) : Type 0 where
  send : W → Move R W
  event : Event R → Move R W

module _ {R W : Type 0} where
  abbrev pub after_send : Outcome R W → CallData R × List (Action R W) × Bool → Outcome R W
  after_send o (c, acts, sent) = record {
    call = c;
    reads = o.reads + reads_started acts;
    writes = o.writes + writes_started acts;
    alive = o.alive;
    actions = o.actions ++ acts;
  }

  unfoldable pub step : Outcome R W → Move R W → Outcome R W
  step o (send request) = after_send o (send_wireless_management_request o.call request)
  step o (event e) = after_event o e (process_event proceed_wireless o.call e)

  -- An event reports an operation that is outstanding, and only a living object is used.
  abbrev pub IsPossible : Outcome R W → Move R W → Type 0
  IsPossible o (send request) = o.alive ≡ true
  IsPossible o (event e) =
      (o.alive ≡ true)
      × (((e.op_type ≡ read_op) × (1 ≤ o.reads)) ⊎ ((e.op_type ≡ write_op) × (1 ≤ o.writes)))

  -- One read is outstanding, and a write exactly while the state is `processing`.
  pub record IsBalanced (o : Outcome R W) : Type 0 where
    pub one_read : o.alive ≡ true → o.reads ≡ 1
    pub busy : o.alive ≡ true → o.call.status ≡ processing → o.writes ≡ 1
    pub idle : o.alive ≡ true → o.call.status ≢ processing → o.writes ≡ 0
    pub unfinished : o.alive ≡ true → o.call.status ≢ finish

  -- A new stream is balanced.
  pub opened-IsBalanced :
      (blank : R) (handler : Bool) → IsBalanced (opened (new_call_data {W = W} blank handler))
  unfolding new_call_data
  opened-IsBalanced blank handler = ground arith

  -- Every request of the user to a living wireless stream, and every event for an operation that is
  -- outstanding, keeps this: while the object lives one read is outstanding, exactly one write
  -- while the state is `processing` and otherwise none, and the stream is not finished.
  pub step-IsBalanced :
      (o : Outcome R W) (m : Move R W) → IsPossible o m → IsBalanced o → IsBalanced (step o m)
  unfolding step send_wireless_management_request process_event proceed_wireless stop
  step-IsBalanced o (send request) p v = ground arith
  step-IsBalanced o (event e) p v = ground arith

  -- On a living stream in that balance, a request is either taken, when no write is outstanding,
  -- and is then the one write that is started; or it is refused, when one is, and nothing changes.
  pub send_lem :
      (o : Outcome R W) (request : W)
      → IsBalanced o
      → o.alive ≡ true
      → let (c, acts, sent) = send_wireless_management_request o.call request in
        ((sent ≡ true)
          × (o.writes ≡ 0)
          × (acts ≡ start_write request ∷ [])
          × (c.status ≡ processing))
        ⊎ ((sent ≡ false) × (o.writes ≡ 1) × (acts ≡ []) × (c ≡ o.call))
  unfolding send_wireless_management_request
  send_lem o request v live = ground arith

  -- On a living stream in that balance, if the read fails while a write is outstanding, the queue
  -- deletes the object although gRPC still owes it the write's completion.
  pub deleted_while_owed :
      (o : Outcome R W) (e : Event R)
      → IsBalanced o
      → o.alive ≡ true
      → o.call.status ≡ processing
      → e.op_type ≡ read_op
      → e.ok ≡ false
      → ((step o (event e)).alive ≡ false) × ((step o (event e)).writes ≡ 1)
  unfolding step process_event proceed_wireless stop
  deleted_while_owed o e v live busy op failed = ground arith
