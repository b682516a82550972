-- ===== src/Updater/Lifecycle/Invariant.antt =====
-- What every step of the relation keeps, and what the steps without an operator do to the stage of a
-- task.
use uu_remote_ubuntu_bridge.Prelude.{
  ◌≤◌, ◌≡◌, sym, ap, subst, ◌∙◌, inl, inr, Bool, true, false, Option, none, some, arith, Bool-cases,
  Option-cases,
}
use uu_remote_ubuntu_bridge.Updater.Tasks.{
  TaskKind, approved_promotion, upstream_release, runtime_health, TaskId, Task, Store, same_id, put,
  without, Phase,
}
use uu_remote_ubuntu_bridge.Updater.Ids.{same_id_refl, same_id-eq}
use uu_remote_ubuntu_bridge.Updater.Lifecycle.{
  over, fits, Files, Unsettled, Elsewhere, Step, note, save, resume, defer, settle, reopen, retire,
  Steps, here, next, stage, stage_of,
}

-- The files agree: each task file holds the id of its directory, and is over only as its kind allows;
-- the pending task is the one in its own task file, and is not over.
pub record IsConsistent (pending : Option Task) (tasks : Files) : Type 0 where
  pub keyed : (k : TaskId) (t : Task) → tasks k ≡ some t → t.id ≡ k
  pub fitting : (k : TaskId) (t : Task) → tasks k ≡ some t → fits k.kind t.phase ≡ true
  pub mirrored : (t : Task) → pending ≡ some t → tasks t.id ≡ some t
  pub unsettled : (t : Task) → pending ≡ some t → over t.phase ≡ false

abbrev pub Consistent : Store → Type 0
Consistent s = IsConsistent s.pending s.tasks

fits_open : (k : TaskKind) (p : Phase) → over p ≡ false → fits k p ≡ true
fits_open approved_promotion p h = ground arith
fits_open upstream_release p h = ground arith
fits_open runtime_health p h = ground arith

module _ (t : Task) (tasks : Files) where
  put-keyed :
      ((k : TaskId) (u : Task) → tasks k ≡ some u → u.id ≡ k)
      → (k : TaskId) (u : Task) → put t tasks k ≡ some u
      → u.id ≡ k
  put-keyed h k u e = elim (Bool-cases (same_id k t.id)) [
    | inl f ↦ ground (arith, same_id-eq k t.id)
    | inr f ↦ ground (arith, h k u)
  ]

  put-fitting :
      fits t.id.kind t.phase ≡ true
      → ((k : TaskId) (u : Task) → tasks k ≡ some u → fits k.kind u.phase ≡ true)
      → (k : TaskId) (u : Task) → put t tasks k ≡ some u
      → fits k.kind u.phase ≡ true
  put-fitting g h k u e = elim (Bool-cases (same_id k t.id)) [
    | inl f ↦
        let key = same_id-eq k t.id f in
        let same : t ≡ u = ground arith in
        subst (λ (i : TaskId). fits i.kind u.phase ≡ true) (sym key)
          (subst (λ (v : Task). fits t.id.kind v.phase ≡ true) same g)
    | inr f ↦ ground (arith, h k u)
  ]

  put_self : put t tasks t.id ≡ some t
  put_self = ground (arith, same_id_refl t.id)

  put_other : (k : TaskId) → same_id k t.id ≡ false → put t tasks k ≡ tasks k
  put_other k h = ground arith

  -- The task is written, and is the pending one.
  saved :
      (pending : Option Task)
      → over t.phase ≡ false
      → IsConsistent pending tasks
      → IsConsistent (some t) (put t tasks)
  saved pending h c = record {
    keyed = put-keyed c.keyed;
    fitting = put-fitting (fits_open t.id.kind t.phase h) c.fitting;
    mirrored = λ u e. ground (arith, put_self);
    unsettled = λ u e. ground arith;
  }

  -- The task is written, and is not the pending one.
  filed :
      (pending : Option Task)
      → fits t.id.kind t.phase ≡ true
      → Elsewhere pending t.id
      → IsConsistent pending tasks
      → IsConsistent pending (put t tasks)
  filed pending g away c = record {
    keyed = put-keyed c.keyed;
    fitting = put-fitting g c.fitting;
    mirrored = λ u e. put_other u.id (away u e) ∙ c.mirrored u e;
    unsettled = c.unsettled;
  }

nothing_pending :
    (pending : Option Task) (tasks : Files) → IsConsistent pending tasks → IsConsistent none tasks
nothing_pending pending tasks c = record {
  keyed = c.keyed;
  fitting = c.fitting;
  mirrored = λ u e. ground arith;
  unsettled = λ u e. ground arith;
}

nowhere : (id : TaskId) → Elsewhere none id
nowhere id p e = ground arith

retired :
    (id : TaskId) (tasks : Files) → IsConsistent none tasks → IsConsistent none (without id tasks)
retired id tasks c = record {
  keyed = λ k u e. elim (Bool-cases (same_id k id)) [
    | inl f ↦ ground arith
    | inr f ↦ c.keyed k u (ground arith)
  ];
  fitting = λ k u e. elim (Bool-cases (same_id k id)) [
    | inl f ↦ ground arith
    | inr f ↦ c.fitting k u (ground arith)
  ];
  mirrored = λ u e. ground arith;
  unsettled = λ u e. ground arith;
}

along : (p q : Option Task) (f g : Files) → p ≡ q → f ≡ g → IsConsistent q g → IsConsistent p f
along p q f g e h c =
    subst (λ (x : Option Task). IsConsistent x f) (sym e)
      (subst (λ (x : Files). IsConsistent q x) (sym h) c)

pub Step-Consistent : {b : Bool} {s t : Store} → Step b s t → Consistent s → Consistent t
Step-Consistent (note s s₁ p f) c = along s₁.pending s.pending s₁.tasks s.tasks p f c
Step-Consistent (save t s s₁ h g p f) c =
    along s₁.pending (some t) s₁.tasks (put t s.tasks) p f (saved t s.tasks s.pending h c)
Step-Consistent (resume t s s₁ h e p f) c = along s₁.pending (some t) s₁.tasks s.tasks p f (record {
  keyed = c.keyed;
  fitting = c.fitting;
  mirrored = λ u d. ground arith;
  unsettled = λ u d. ground arith;
})
Step-Consistent (defer t s s₁ h g away p f) c =
    along s₁.pending s.pending s₁.tasks (put t s.tasks) p f
      (filed t s.tasks s.pending (fits_open t.id.kind t.phase h) away c)
Step-Consistent (settle t s s₁ h g (inl p) f) c =
    along s₁.pending none s₁.tasks (put t s.tasks) p f
      (filed t s.tasks none g (nowhere t.id) (nothing_pending s.pending s.tasks c))
Step-Consistent (settle t s s₁ h g (inr (p, away)) f) c =
    along s₁.pending s.pending s₁.tasks (put t s.tasks) p f (filed t s.tasks s.pending g away c)
Step-Consistent (reopen t s s₁ h p f) c =
    along s₁.pending (some t) s₁.tasks (put t s.tasks) p f (saved t s.tasks s.pending h c)
Step-Consistent (retire id s s₁ e p f) c =
    along s₁.pending none s₁.tasks (without id s.tasks) p f
      (retired id s.tasks (nothing_pending s.pending s.tasks c))

pub Steps-Consistent : {b : Bool} {s t : Store} → Steps b s t → Consistent s → Consistent t
Steps-Consistent here c = c
Steps-Consistent (next r st) c = Step-Consistent st (Steps-Consistent r c)

stage-put_open :
    (t : Task) (tasks : Files)
    → over t.phase ≡ false
    → Unsettled tasks t.id
    → (k : TaskId) → stage_of (tasks k) ≤ stage_of (put t tasks k)
stage-put_open t tasks h u k = elim (Bool-cases (same_id k t.id)) [
  | inr f ↦ ground arith
  | inl f ↦ elim (Option-cases (tasks k)) [
    | inl e ↦ ground arith
    | inr (v, e) ↦ let key = same_id-eq k t.id f in ground (arith, u v (ap tasks (sym key) ∙ e))
  ]
]

stage-put-over :
    (t : Task) (tasks : Files)
    → over t.phase ≡ true
    → (k : TaskId) → stage_of (tasks k) ≤ stage_of (put t tasks k)
stage-put-over t tasks h k = elim (Bool-cases (same_id k t.id)) [
  | inr f ↦ ground arith
  | inl f ↦ ground arith
]

stage_same : (f g : Files) → f ≡ g → (k : TaskId) → stage_of (g k) ≤ stage_of (f k)
stage_same f g e k = let h = ap (λ (x : Files). stage_of (x k)) e in omega (arith, h)

pub Step-stage : {s t : Store} → Step false s t → (k : TaskId) → stage s k ≤ stage t k
Step-stage (note s s₁ p f) k = stage_same s₁.tasks s.tasks f k
Step-stage (save t s s₁ h g p f) k =
    omega (arith, stage-put_open t s.tasks h g k, stage_same s₁.tasks (put t s.tasks) f k)
Step-stage (resume t s s₁ h e p f) k = stage_same s₁.tasks s.tasks f k
Step-stage (defer t s s₁ h g away p f) k =
    omega (arith, stage-put_open t s.tasks h g k, stage_same s₁.tasks (put t s.tasks) f k)
Step-stage (settle t s s₁ h g p f) k =
    omega (arith, stage-put-over t s.tasks h k, stage_same s₁.tasks (put t s.tasks) f k)

pub Steps-stage : {s t : Store} → Steps false s t → (k : TaskId) → stage s k ≤ stage t k
Steps-stage here k = omega arith
Steps-stage (next r st) k = omega (arith, Steps-stage r k, Step-stage st k)
