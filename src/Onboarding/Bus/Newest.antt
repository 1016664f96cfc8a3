-- ===== src/Onboarding/Bus/Newest.antt =====
-- The entry, the time-out and the promise of the newest call, when its reply comes.
use modularis.Base.{◌+◌, some, List, [], ◌∷◌, ◌++◌, map, ◌≡◌, arith, eq_refl, ◌∙◌, ap}
use modularis.Onboarding.Bus.{
  PendingRpc, Timer, RabbitBus, get_pending, delete_pending, clear_timeout,
}
use modularis.Onboarding.Bus.Pending.{entry_of, with_id, with_promise, settlements}
use modularis.Onboarding.Bus.Promises.{IsWired}

pub get_pending-newest :
    (e : PendingRpc) (es : List PendingRpc)
    → with_id e.rpc_id es ≡ 0
    → get_pending e.rpc_id (es ++ e ∷ []) ≡ some e
unfolding get_pending
get_pending-newest e [] h = ground (arith, eq_refl e.rpc_id)
get_pending-newest e (d ∷ ds) h = ground (arith, get_pending-newest e ds)

pub delete_pending-newest :
    (e : PendingRpc) (es : List PendingRpc)
    → with_id e.rpc_id es ≡ 0
    → delete_pending e.rpc_id (es ++ e ∷ []) ≡ es
unfolding delete_pending
delete_pending-newest e [] h = ground (arith, eq_refl e.rpc_id)
delete_pending-newest e (d ∷ ds) h = ground (arith, delete_pending-newest e ds)

pub clear_timeout-newest :
    (t : Timer) (ts : List Timer)
    → with_promise t.promise (map entry_of ts) ≡ 0
    → clear_timeout t.promise (ts ++ t ∷ []) ≡ ts
unfolding clear_timeout
clear_timeout-newest t [] h = ground arith
clear_timeout-newest t (s ∷ ss) h = ground (arith, clear_timeout-newest t ss)

-- The next promise of a wired bus is neither pending nor settled.
pub IsWired-next_promise :
    (bus : RabbitBus)
    → IsWired bus.pending_rpc bus
    → (with_promise bus.next_promise (map entry_of bus.timers) ≡ 0)
      × (settlements bus.next_promise bus.settled ≡ 0)
IsWired-next_promise bus wired =
    let both : with_promise bus.next_promise bus.pending_rpc
          + settlements bus.next_promise bus.settled
        ≡ 0 =
      wired.once bus.next_promise ∙ ground arith in
    (ap (with_promise bus.next_promise) wired.synced ∙ omega (arith, both), omega (arith, both))
