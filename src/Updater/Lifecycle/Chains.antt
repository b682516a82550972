-- ===== src/Updater/Lifecycle/Chains.antt =====
-- Actions as chains of steps.
use uu_remote_ubuntu_bridge.Prelude.{
  ◌≡◌, refl, sym, subst, Bool, true, false, some, Result, ok, err, arith, if◌then◌else◌,
}
use uu_remote_ubuntu_bridge.Updater.Tasks
use uu_remote_ubuntu_bridge.Updater.Tasks.{TaskId, Task, Store, UpdateError, Action, after, put}
use uu_remote_ubuntu_bridge.Updater.Actions.{Reads}
use uu_remote_ubuntu_bridge.Updater.Ids.{same_id_refl}
use uu_remote_ubuntu_bridge.Updater.Lifecycle.{
  over, Files, Unsettled, Step, note, save, resume, defer, settle, Steps, here, next,
}
use uu_remote_ubuntu_bridge.Updater.Lifecycle.Invariant.{Consistent}

-- A chain of two actions is a chain of steps.
pub after-Steps :
    {A B : Type 0} {b : Bool} {s : Store} (r : Result UpdateError A × Store)
    (next_action : A → Action B)
    → Steps b s r.1
    → ((a : A) → r.0 ≡ ok a → Steps b s (next_action a r.1).1)
    → Steps b s (after r next_action).1
after-Steps (ok a, s) next_action p q = q a refl
after-Steps (err e, s) next_action p q = p

-- An action that writes nothing goes before.
pub Reads-Steps :
    {A B : Type 0} {b : Bool} (s : Store) (m : Action A) (n : Action B)
    → Reads m
    → Steps b s (n s).1
    → Steps b s (Tasks.◌>>◌ m n s).1
Reads-Steps {b = b} s m n r p =
    after-Steps (m s) (λ _. n) (subst (λ (w : Store). Steps b s w) (sym (r s)) here)
      (λ a e. subst (λ (w : Store). Steps b s (n w).1) (sym (r s)) p)

pub Unsettled-put : (t : Task) (tasks : Files) → over t.phase ≡ false → Unsettled (put t tasks) t.id
Unsettled-put t tasks h u e = ground (arith, same_id_refl t.id)

-- The pending task is not over.
pub pending-Unsettled :
    (s : Store) (t : Task) → Consistent s → s.pending ≡ some t → Unsettled s.tasks t.id
pending-Unsettled s t c e u f = ground (arith, c.mirrored t e, c.unsettled t e)

pub if-Steps :
    {A : Type 0} {b : Bool} {s : Store} (test : Bool) (m n : Action A)
    → (test ≡ true → Steps b s (m s).1)
    → (test ≡ false → Steps b s (n s).1)
    → Steps b s ((if test then m else n) s).1
if-Steps true m n p q = p refl
if-Steps false m n p q = q refl

-- A test that may raise goes before.
pub check-Steps :
    {A : Type 0} {b : Bool} {s : Store} (test : Bool) (e : UpdateError) (n : Action A)
    → (test ≡ true → Steps b s (n s).1)
    → Steps b s (Tasks.◌>>◌ (Tasks.check_that test e) n s).1
check-Steps true e n p = p refl
check-Steps false e n p = here

as_operator : {s t : Store} → Step false s t → Step true s t
as_operator (note s t p f) = note s t p f
as_operator (save u s t h g p f) = save u s t h g p f
as_operator (resume u s t h e p f) = resume u s t h e p f
as_operator (defer u s t h g away p f) = defer u s t h g away p f
as_operator (settle u s t h g p f) = settle u s t h g p f

-- An operator's command may take every step.
pub Steps-operator : {s t : Store} → Steps false s t → Steps true s t
Steps-operator here = here
Steps-operator (next r st) = next (Steps-operator r) (as_operator st)
