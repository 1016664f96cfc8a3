-- ===== src/Onboarding/Bus/Promises.antt =====
-- Every promise of `sendRpc` is settled once: by a reply, by its time-out or by the shutdown.
use modularis.Base.{
  ℕ, ◌+◌, ◌≤◌, ◌<◌, String, some, List, [], ◌∷◌, ◌++◌, map, ◌≡◌, ◌⊎◌, inl, inr, arith, Option-cases,
  ltb, if◌then◌else◌, ◌==◌, str_eq, eq_refl, eq_iff, count-append, ap, sym, ◌∙◌,
}
use mathlib.Core.Path.{subst}
use mathlib.Core.List.{map-append}
use modularis.Contracts.{MessageEnvelope}
use modularis.Json.{Json}
use modularis.Onboarding.Problem.{Result, error}
use modularis.Onboarding.Consumer.{ConsumeMessage, message_correlation_id}
use modularis.Onboarding.Bus.{
  BusConfig, PendingRpc, set_pending, Timer, Settlement, rejected, RabbitBus, get_pending,
  delete_pending, clear_timeout, settle, send_rpc, on_timeout, on_rpc_reply, reject_all,
  on_module_destroy, reply_route,
}
use modularis.Onboarding.Bus.Pending.{
  delete_pending_absent, entry_of, with_id, with_promise, settlements, with_promise-delete_pending,
  with_id-delete_pending, clear_timeout-delete_pending, settlements-settle, set_pending_new,
}

-- The timers that are set are those of the pending RPCs `es`, whose ids are distinct, and a promise
-- that was handed out is either pending or settled, once.
pub record IsWired (es : List PendingRpc) (bus : RabbitBus) : Type 0 where
  pub synced : map entry_of bus.timers ≡ es
  pub unique : (id : String) → with_id id es ≤ 1
  pub once :
      (p : ℕ)
      → with_promise p es + settlements p bus.settled ≡ (if ltb p bus.next_promise then 1 else 0)

-- The promise of a pending RPC is not settled.
pub unsettled-IsWired :
    (id : String) (es : List PendingRpc) (bus : RabbitBus) {e : PendingRpc}
    → get_pending id es ≡ some e
    → IsWired es bus
    → settlements e.promise bus.settled ≡ 0
unsettled-IsWired id es bus {e} found wired = ground (
  arith,
  with_promise-delete_pending id e.promise es found (wired.unique id),
  wired.once e.promise,
)

-- Taking an entry out of the table, clearing its time-out and settling its promise.
IsWired-settle :
    (id : String) (s : Settlement) (es : List PendingRpc) (bus : RabbitBus) {e : PendingRpc}
    → get_pending id es ≡ some e
    → IsWired es bus
    → IsWired (delete_pending id es) (record bus {
      timers = clear_timeout e.promise bus.timers;
      settled = settle e.promise s bus.settled;
    })
IsWired-settle id s es bus {e} found wired =
    let gone : (p : ℕ)
        → with_promise p es
          ≡ with_promise p (delete_pending id es) + (if e.promise == p then 1 else 0) =
      λ p. with_promise-delete_pending id p es found (wired.unique id) in
    let self = gone e.promise in
    let total = wired.once e.promise in
    let unsettled = unsettled-IsWired id es bus found wired in
    record {
      synced =
          subst
            (λ ds.
              get_pending id ds ≡ some e
              → with_id id ds ≤ 1
              → with_promise e.promise ds ≤ 1
              → map entry_of (clear_timeout e.promise bus.timers) ≡ delete_pending id ds)
            wired.synced (clear_timeout-delete_pending id bus.timers {e = e}) found
            (wired.unique id) (ground arith);
      unique = λ j. omega (arith, with_id-delete_pending id j es, wired.unique j);
      once = λ p.
          ground
            (arith, gone p, wired.once p, settlements-settle e.promise p s bus.settled unsettled);
    }

-- A time-out that is set.
abbrev pub IsArmed : Timer → List Timer → Type 0
IsArmed t [] = ⊥
IsArmed t (s ∷ ss) = (s ≡ t) ⊎ IsArmed t ss

IsArmed-counted :
    (t : Timer) (ts : List Timer) → IsArmed t ts → 1 ≤ with_id t.rpc_id (map entry_of ts)
IsArmed-counted t [] h = absurd h
IsArmed-counted t (s ∷ ss) (inl e) = ground (arith, eq_refl t.rpc_id)
IsArmed-counted t (s ∷ ss) (inr h) = ground (arith, IsArmed-counted t ss h)

get_pending-IsArmed :
    (t : Timer) (ts : List Timer)
    → IsArmed t ts
    → with_id t.rpc_id (map entry_of ts) ≤ 1
    → get_pending t.rpc_id (map entry_of ts) ≡ some (entry_of t)
unfolding get_pending
get_pending-IsArmed t [] h few = absurd h
get_pending-IsArmed t (s ∷ ss) (inl e) few = ground (arith, eq_refl t.rpc_id)
get_pending-IsArmed t (s ∷ ss) (inr h) few =
    ground (arith, IsArmed-counted t ss h, get_pending-IsArmed t ss h)

-- What happens to the bus: a call of `sendRpc` with an id that no pending RPC has, a time-out that
-- is set, a delivery to the reply queue, the shutdown.
pub data BusStep (parse : String → Result Json) (bus : RabbitBus) : RabbitBus → Type 0 where
  send :
      (config : BusConfig) (rpc_id : String) (now : ℕ) (routing_key : String)
      (envelope : MessageEnvelope Json)
      → with_id rpc_id bus.pending_rpc ≡ 0
      → BusStep parse bus (send_rpc config rpc_id now routing_key envelope bus).1
  expire : (t : Timer) → IsArmed t bus.timers → BusStep parse bus (on_timeout t bus)
  reply : (message : ConsumeMessage) → BusStep parse bus (on_rpc_reply parse message bus)
  shut_down : BusStep parse bus (on_module_destroy bus)

send_rpc-IsWired :
    (config : BusConfig) (rpc_id : String) (now : ℕ) (routing_key : String)
    (envelope : MessageEnvelope Json) (bus : RabbitBus)
    → with_id rpc_id bus.pending_rpc ≡ 0
    → IsWired bus.pending_rpc bus
    → let sent = (send_rpc config rpc_id now routing_key envelope bus).1 in
      IsWired sent.pending_rpc sent
unfolding send_rpc
send_rpc-IsWired config rpc_id now routing_key envelope bus fresh wired =
    let new : PendingRpc = record { rpc_id = rpc_id; promise = bus.next_promise } in
    let added : set_pending new bus.pending_rpc ≡ bus.pending_rpc ++ new ∷ [] =
      set_pending_new new bus.pending_rpc fresh in
    elim (Option-cases (reply_route bus)) [
      | inl closed ↦ rw (closed, send_rpc) wired
      | inr (reply_key, ready) ↦
          rw (ready, send_rpc)
            (record {
              synced =
                  map-append entry_of bus.timers _
                  ∙ (ap (λ es. es ++ record { rpc_id = rpc_id; promise = bus.next_promise } ∷ [])
                        wired.synced
                      ∙ sym added);
              unique = λ id. rw added (
                  ground (
                    arith,
                    wired.unique id,
                    count-append (λ e. str_eq e.rpc_id id) bus.pending_rpc (new ∷ []),
                    eq_iff rpc_id id,
                  ));
              once = λ p. rw added (
                  ground (
                    arith,
                    wired.once p,
                    count-append (λ e. e.promise == p) bus.pending_rpc (new ∷ []),
                  ));
            })
    ]

pub get_pending-armed :
    (t : Timer) (bus : RabbitBus)
    → IsArmed t bus.timers
    → IsWired bus.pending_rpc bus
    → get_pending t.rpc_id bus.pending_rpc ≡ some (entry_of t)
get_pending-armed t bus armed wired =
    subst (λ es. with_id t.rpc_id es ≤ 1 → get_pending t.rpc_id es ≡ some (entry_of t)) wired.synced
      (get_pending-IsArmed t bus.timers armed) (wired.unique t.rpc_id)

on_timeout-IsWired :
    (t : Timer) (bus : RabbitBus)
    → IsArmed t bus.timers
    → IsWired bus.pending_rpc bus
    → IsWired (on_timeout t bus).pending_rpc (on_timeout t bus)
unfolding on_timeout
on_timeout-IsWired t bus armed wired =
    let found : get_pending t.rpc_id bus.pending_rpc ≡ some (entry_of t) =
      subst (λ es. with_id t.rpc_id es ≤ 1 → get_pending t.rpc_id es ≡ some (entry_of t))
        wired.synced (get_pending-IsArmed t bus.timers armed) (wired.unique t.rpc_id) in
    let after = IsWired-settle t.rpc_id _ bus.pending_rpc bus found wired in
    record { synced = after.synced; unique = after.unique; once = after.once }

on_rpc_reply-IsWired :
    (parse : String → Result Json) (message : ConsumeMessage) (bus : RabbitBus)
    → IsWired bus.pending_rpc bus
    → IsWired (on_rpc_reply parse message bus).pending_rpc (on_rpc_reply parse message bus)
unfolding on_rpc_reply
on_rpc_reply-IsWired parse message bus wired =
    elim (Option-cases (message_correlation_id message)) [
      | inl anonymous ↦ rw (anonymous, on_rpc_reply) wired
      | inr (id, named) ↦
          rw (named, on_rpc_reply)
            (elim (Option-cases (get_pending id bus.pending_rpc)) [
              | inl unknown ↦ rw (unknown, on_rpc_reply) wired
              | inr (e, found) ↦
                  rw (found, on_rpc_reply)
                    (let after = IsWired-settle id _ bus.pending_rpc bus found wired in
                      record { synced = after.synced; unique = after.unique; once = after.once })
            ])
    ]

-- The first entry of the loop of `onModuleDestroy`.
IsWired-tail :
    (s : Settlement) (e : PendingRpc) (es : List PendingRpc) (bus : RabbitBus)
    → IsWired (e ∷ es) bus
    → IsWired es (record bus {
      timers = clear_timeout e.promise bus.timers;
      settled = settle e.promise s bus.settled;
    })
unfolding get_pending delete_pending
IsWired-tail s e es bus wired =
    let found : get_pending e.rpc_id (e ∷ es) ≡ some e = ground (arith, eq_refl e.rpc_id) in
    let alone : with_id e.rpc_id es ≡ 0 = ground (arith, wired.unique e.rpc_id, eq_refl e.rpc_id) in
    let rest : delete_pending e.rpc_id (e ∷ es) ≡ es =
      ground (arith, eq_refl e.rpc_id, delete_pending_absent e.rpc_id es) in
    subst
      (λ ds. IsWired ds (record bus {
        timers = clear_timeout e.promise bus.timers;
        settled = settle e.promise s bus.settled;
      }))
      rest (IsWired-settle e.rpc_id s (e ∷ es) bus found wired)

reject_all-IsWired :
    (es : List PendingRpc) (bus : RabbitBus) → IsWired es bus → IsWired [] (reject_all es bus)
unfolding reject_all
reject_all-IsWired [] bus wired = wired
reject_all-IsWired (e ∷ es) bus wired =
    reject_all-IsWired es
      (record bus {
        timers = clear_timeout e.promise bus.timers;
        settled = settle e.promise (rejected (error "Rabbit bus is shutting down")) bus.settled;
      })
      (IsWired-tail _ e es bus wired)

on_module_destroy-IsWired :
    (bus : RabbitBus) → IsWired bus.pending_rpc bus → IsWired [] (on_module_destroy bus)
unfolding on_module_destroy
on_module_destroy-IsWired bus wired =
    let after = reject_all-IsWired bus.pending_rpc bus wired in
    record { synced = after.synced; unique = after.unique; once = after.once }

-- From a bus that is wired, whatever happens to it (a call with an id that no pending RPC has, a
-- time-out that is set, a reply, the shutdown), each promise that it has handed out stays either
-- pending, with one time-out set, or settled once; the ids of the pending RPCs stay distinct.
pub BusStep-IsWired :
    (parse : String → Result Json) (bus next : RabbitBus)
    → BusStep parse bus next
    → IsWired bus.pending_rpc bus
    → IsWired next.pending_rpc next
unfolding on_module_destroy
BusStep-IsWired parse bus next (send config rpc_id now routing_key envelope fresh) wired =
    send_rpc-IsWired config rpc_id now routing_key envelope bus fresh wired
BusStep-IsWired parse bus next (expire t armed) wired = on_timeout-IsWired t bus armed wired
BusStep-IsWired parse bus next (reply message) wired = on_rpc_reply-IsWired parse message bus wired
BusStep-IsWired parse bus next shut_down wired = on_module_destroy-IsWired bus wired

-- From a bus that is wired, which is that the ids of its pending RPCs are distinct, its timers are
-- those of its pending RPCs, and each promise that it has handed out is either pending or settled
-- once: the shutdown leaves no promise open and no time-out set, and each promise that was handed out
-- is settled, once.
pub on_module_destroy-settlements :
    (bus : RabbitBus)
    → IsWired bus.pending_rpc bus
    → (map entry_of (on_module_destroy bus).timers ≡ [])
      × ((p : ℕ)
          → p < (on_module_destroy bus).next_promise
          → settlements p (on_module_destroy bus).settled ≡ 1)
on_module_destroy-settlements bus wired =
    let after = on_module_destroy-IsWired bus wired in
    (after.synced, λ p early. ground (arith, after.once p))
