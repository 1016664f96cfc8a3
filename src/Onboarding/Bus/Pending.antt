-- ===== src/Onboarding/Bus/Pending.antt =====
-- Counting the pending RPCs, the timers and the settled promises.
use modularis.Base.{
  ℕ, ◌+◌, ◌≤◌, false, String, some, List, [], ◌∷◌, ◌++◌, map, ◌≡◌, refl, arith, ◌==◌, str_eq,
  if◌then◌else◌, count, count-append,
}
use modularis.Onboarding.Bus.{
  PendingRpc, Timer, Settlement, get_pending, set_pending, delete_pending, clear_timeout,
  is_settled, settle,
}

abbrev pub entry_of : Timer → PendingRpc
entry_of t = record { rpc_id = t.rpc_id; promise = t.promise }

abbrev pub with_id : String → List PendingRpc → ℕ
with_id id es = count (λ e. str_eq e.rpc_id id) es

abbrev pub with_promise : ℕ → List PendingRpc → ℕ
with_promise p es = count (λ e. e.promise == p) es

abbrev pub settlements : ℕ → List (ℕ × Settlement) → ℕ
settlements p ss = count (λ s. s.0 == p) ss

pub delete_pending_absent :
    (id : String) (es : List PendingRpc) → with_id id es ≡ 0 → delete_pending id es ≡ es
unfolding delete_pending
delete_pending_absent id [] h = refl
delete_pending_absent id (e ∷ es) h = ground (arith, delete_pending_absent id es)

pub clear_timeout_absent :
    (p : ℕ) (ts : List Timer) → with_promise p (map entry_of ts) ≡ 0 → clear_timeout p ts ≡ ts
unfolding clear_timeout
clear_timeout_absent p [] h = refl
clear_timeout_absent p (t ∷ ts) h = ground (arith, clear_timeout_absent p ts)

-- An entry that is found is counted.
get_pending_counted :
    (id : String) (es : List PendingRpc) {e : PendingRpc}
    → get_pending id es ≡ some e
    → (1 ≤ with_promise e.promise es) × (1 ≤ with_id id es)
unfolding get_pending
get_pending_counted id [] h = cc
get_pending_counted id (d ∷ ds) {e} h = ground (arith, get_pending_counted id ds {e = e})

-- Deleting the entry of an id takes its promise out of the table, and nothing else.
pub with_promise-delete_pending :
    (id : String) (p : ℕ) (es : List PendingRpc) {e : PendingRpc}
    → get_pending id es ≡ some e
    → with_id id es ≤ 1
    → with_promise p es ≡ with_promise p (delete_pending id es) + (if e.promise == p then 1 else 0)
unfolding get_pending delete_pending
with_promise-delete_pending id p [] h few = cc
with_promise-delete_pending id p (d ∷ ds) {e} h few =
    ground (arith, with_promise-delete_pending id p ds {e = e}, delete_pending_absent id ds)

pub with_id-delete_pending :
    (id j : String) (es : List PendingRpc) → with_id j (delete_pending id es) ≤ with_id j es
unfolding delete_pending
with_id-delete_pending id j [] = omega arith
with_id-delete_pending id j (e ∷ es) = ground (arith, with_id-delete_pending id j es)

-- Clearing the time-out of the entry that is deleted leaves the timers of the other entries.
pub clear_timeout-delete_pending :
    (id : String) (ts : List Timer) {e : PendingRpc}
    → get_pending id (map entry_of ts) ≡ some e
    → with_id id (map entry_of ts) ≤ 1
    → with_promise e.promise (map entry_of ts) ≤ 1
    → map entry_of (clear_timeout e.promise ts) ≡ delete_pending id (map entry_of ts)
unfolding get_pending delete_pending clear_timeout
clear_timeout-delete_pending id [] h few once = cc
clear_timeout-delete_pending id (t ∷ ts) {e} h few once = ground (
  arith,
  clear_timeout-delete_pending id ts {e = e},
  delete_pending_absent id (map entry_of ts),
  clear_timeout_absent e.promise ts,
  get_pending_counted id (map entry_of ts) {e = e},
)

pub is_settled_absent :
    (p : ℕ) (ss : List (ℕ × Settlement)) → settlements p ss ≡ 0 → is_settled p ss ≡ false
unfolding is_settled
is_settled_absent p [] h = refl
is_settled_absent p (s ∷ ss) h = ground (arith, is_settled_absent p ss)

-- Settling a promise for the first time.
pub settlements-settle :
    (p q : ℕ) (s : Settlement) (ss : List (ℕ × Settlement))
    → settlements p ss ≡ 0
    → settlements q (settle p s ss) ≡ settlements q ss + (if p == q then 1 else 0)
unfolding settle
settlements-settle p q s ss h =
    ground (arith, is_settled_absent p ss h, count-append (λ x. x.0 == q) ss ((p, s) ∷ []))

-- A new id is put at the end.
pub set_pending_new :
    (e : PendingRpc) (es : List PendingRpc)
    → with_id e.rpc_id es ≡ 0
    → set_pending e es ≡ es ++ e ∷ []
unfolding set_pending
set_pending_new e [] h = refl
set_pending_new e (d ∷ ds) h = ground (arith, set_pending_new e ds)
