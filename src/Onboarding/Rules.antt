-- ===== src/Onboarding/Rules.antt =====
-- Rules for what a run leaves: a postcondition of a method from those of its parts.
use modularis.Onboarding.Problem.{Thrown, Result, ok, err, pending}
use modularis.Onboarding.Monad.{World, M, try_catch, try_finally, ◌>>=◌}

-- A postcondition, of the result and of the world that is left.
abbrev pub Post : Type 0 → Type 1
Post A = Result A → World → Type 0

abbrev pub Ends : {A : Type 0} → Post A → M A → World → Type 0
Ends P m w = P (m w).0 (m w).1

module _ {A B : Type 0} (P : Post A) (Q : Post B) (m : M A) (f : A → M B) (w : World) where
  pub bind_rule :
      Ends P m w
      → ((a : A) (v : World) → P (ok a) v → Ends Q (f a) v)
      → ((e : Thrown) (v : World) → P (err e) v → Q (err e) v)
      → ((v : World) → P pending v → Q pending v)
      → Ends Q (m >>= f) w
  bind_rule h good bad stuck = go (m w).0 (m w).1 h
    where
      go : (r : Result A) (v : World) → P r v → Ends Q ((λ _. (r, v)) >>= f) w
      go (ok a) v p = good a v p
      go (err e) v p = bad e v p
      go pending v p = stuck v p

module _ {A : Type 0} (P Q : Post A) (m : M A) (handler : Thrown → M A) (w : World) where
  pub catch_rule :
      Ends P m w
      → ((a : A) (v : World) → P (ok a) v → Q (ok a) v)
      → ((e : Thrown) (v : World) → P (err e) v → Ends Q (handler e) v)
      → ((v : World) → P pending v → Q pending v)
      → Ends Q (try_catch m handler) w
  catch_rule h good bad stuck = go (m w).0 (m w).1 h
    where
      go : (r : Result A) (v : World) → P r v → Ends Q (try_catch (λ _. (r, v)) handler) w
      go (ok a) v p = good a v p
      go (err e) v p = bad e v p
      go pending v p = stuck v p

-- What `finally` makes of a result and of how its last step ends.
abbrev pub Last : {A : Type 0} → Post A → Result A → Post (Unit {0})
Last Q r (ok _) v = Q r v
Last Q r (err e) v = Q (err e) v
Last Q r pending v = Q pending v

module _ {A : Type 0} (P Q : Post A) (m : M A) (last : M (Unit {0})) (w : World) where
  pub finally_rule :
      Ends P m w
      → ((a : A) (v : World) → P (ok a) v → Ends (Last Q (ok a)) last v)
      → ((e : Thrown) (v : World) → P (err e) v → Ends (Last Q (err e)) last v)
      → ((v : World) → P pending v → Q pending v)
      → Ends Q (try_finally m last) w
  finally_rule h good bad stuck = go (m w).0 (m w).1 h
    where
      end_with :
          (r : Result A) (x : Result (Unit {0})) (u : World)
          → Last Q r x u
          → Ends Q (λ _. elim x [ ok _ ↦ (r, u) | err e ↦ (err e, u) | pending ↦ (pending, u) ]) w
      end_with r (ok t) u q = q
      end_with r (err e) u q = q
      end_with r pending u q = q

      go : (r : Result A) (v : World) → P r v → Ends Q (try_finally (λ _. (r, v)) last) w
      go (ok a) v p = end_with (ok a) (last v).0 (last v).1 (good a v p)
      go (err e) v p = end_with (err e) (last v).0 (last v).1 (bad e v p)
      go pending v p = stuck v p
