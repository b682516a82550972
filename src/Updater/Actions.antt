-- ===== src/Updater/Actions.antt =====
-- Lemmas on actions: what one that returns has done before, and those that write nothing.
use uu_remote_ubuntu_bridge.Prelude.{◌≡◌, refl, ◌∙◌, Bool, true, false, Result, ok, err}
use uu_remote_ubuntu_bridge.Updater.Tasks.{Action, Store, UpdateError, after, ◌>>◌, check_that}

pub after-ok :
    {A B : Type 0} (r : Result UpdateError A × Store) (next : A → Action B) {b : B}
    → (after r next).0 ≡ ok b
    → (a : A) × (r.0 ≡ ok a) × (after r next ≡ next a r.1)
after-ok (ok a, s) next h = (a, refl, refl)
after-ok (err e, s) next h = cc

-- The action writes nothing.
abbrev pub Reads : {A : Type 0} → Action A → Type 0
Reads m = (s : Store) → (m s).1 ≡ s

pub check_that-Reads : (test : Bool) (e : UpdateError) → Reads (check_that test e)
check_that-Reads true e s = refl
check_that-Reads false e s = refl

after-Reads :
    {A B : Type 0} (r : Result UpdateError A × Store) (next : A → Action B)
    → ((a : A) → Reads (next a))
    → (after r next).1 ≡ r.1
after-Reads (ok a, s) next h = h a s
after-Reads (err e, s) next h = refl

pub >>-Reads : {A B : Type 0} (m : Action A) (n : Action B) → Reads m → Reads n → Reads (m >> n)
>>-Reads m n hm hn s = after-Reads (m s) (λ _. n) (λ _. hn) ∙ hm s
