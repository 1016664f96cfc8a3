-- ===== src/Onboarding/Bus/Settlements.antt =====
-- What a reply and a time-out settle.
use modularis.Base.{ℕ, ◌+◌, String, some, ◌≡◌, if◌then◌else◌, ◌==◌}
use modularis.Json.{Json}
use modularis.Onboarding.Problem.{Result}
use modularis.Onboarding.Consumer.{ConsumeMessage, message_correlation_id}
use modularis.Onboarding.Bus.{PendingRpc, Timer, RabbitBus, get_pending, on_timeout, on_rpc_reply}
use modularis.Onboarding.Bus.Pending.{entry_of, settlements, settlements-settle}
use modularis.Onboarding.Bus.Promises.{IsWired, IsArmed, unsettled-IsWired, get_pending-armed}

-- In a bus that is wired, a time-out that is set and runs settles its own promise, which was open, and
-- no other.
pub on_timeout-settlements :
    (t : Timer) (bus : RabbitBus) (q : ℕ)
    → IsArmed t bus.timers
    → IsWired bus.pending_rpc bus
    → (settlements t.promise bus.settled ≡ 0)
      × (settlements q (on_timeout t bus).settled
          ≡ settlements q bus.settled + (if t.promise == q then 1 else 0))
unfolding on_timeout
on_timeout-settlements t bus q armed wired =
    let found : get_pending t.rpc_id bus.pending_rpc ≡ some (entry_of t) =
      get_pending-armed t bus armed wired in
    let open_yet = unsettled-IsWired t.rpc_id bus.pending_rpc bus found wired in
    (open_yet, settlements-settle t.promise q _ bus.settled open_yet)

-- In a bus that is wired, a reply whose correlation id is that of a pending RPC settles the promise of
-- that call, which was open, and no other.
pub on_rpc_reply-settlements :
    (parse : String → Result Json) (message : ConsumeMessage) (bus : RabbitBus) (id : String)
    (q : ℕ) {e : PendingRpc}
    → message_correlation_id message ≡ some id
    → get_pending id bus.pending_rpc ≡ some e
    → IsWired bus.pending_rpc bus
    → (settlements e.promise bus.settled ≡ 0)
      × (settlements q (on_rpc_reply parse message bus).settled
          ≡ settlements q bus.settled + (if e.promise == q then 1 else 0))
unfolding on_rpc_reply
on_rpc_reply-settlements parse message bus id q {e} named found wired =
    let open_yet = unsettled-IsWired id bus.pending_rpc bus found wired in
    (
      open_yet,
      rw (named, on_rpc_reply)
          (rw (found, on_rpc_reply) (settlements-settle e.promise q _ bus.settled open_yet)),
    )
