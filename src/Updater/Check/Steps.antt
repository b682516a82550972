-- ===== src/Updater/Check/Steps.antt =====
-- `check` as steps of the life of a task.
use uu_remote_ubuntu_bridge.Prelude.{
  ℕ, ◌≡◌, refl, ap, ◌∙◌, Bool, false, ◌&&◌, not, Option, none, some, List, String,
}
use uu_remote_ubuntu_bridge.Updater.Tasks
use uu_remote_ubuntu_bridge.Updater.Tasks.{
  TaskId, Task, Store, Observed, UpdateError, Action, terminal,
}
use uu_remote_ubuntu_bridge.Updater.Version.{key_lt, key_eq, version_key}
use uu_remote_ubuntu_bridge.Updater.Releases.{Release, approved_releases}
use uu_remote_ubuntu_bridge.Updater.Check
use uu_remote_ubuntu_bridge.Updater.Check.{
  CheckScene, check, need, at_least, unchanged, candidate_id, matching, with_hash, last_release,
}
use uu_remote_ubuntu_bridge.Updater.Queue.Steps.{
  queue_task-Steps, queue_promotion-Steps, over_repair,
}
use uu_remote_ubuntu_bridge.Updater.Repair.Steps.{IsRepair}
use uu_remote_ubuntu_bridge.Updater.Lifecycle.{note, resume, Steps, Steps-trans, here, next}
use uu_remote_ubuntu_bridge.Updater.Lifecycle.Invariant.{Consistent}
use uu_remote_ubuntu_bridge.Updater.Lifecycle.Chains.{if-Steps, check-Steps}

-- A value that may be missing, which raises, goes before.
need-Steps :
    {A B : Type 0} {b : Bool} {s : Store} (e : UpdateError) (o : Option A) (n : A → Action B)
    → ((a : A) → o ≡ some a → Steps b s (n a s).1)
    → Steps b s (Tasks.◌>>=◌ (need e o) n s).1
need-Steps e none n h = here
need-Steps e (some a) n h = h a refl

module _ (o : CheckScene) where
  known_candidate-Steps :
      (id : TaskId) (file : Option Task) (seen : Observed) (s : Store)
      → Consistent s
      → s.tasks id ≡ file
      → IsRepair id.kind
      → Steps false s (Check.known_candidate o id file seen s).1
  unfolding Check.known_candidate Tasks.write_pending Tasks.write_status Tasks.write_observed
  known_candidate-Steps id none seen s c e k = queue_task-Steps o.checkout id s c k
  known_candidate-Steps id (some t) seen s c e k =
      if-Steps (terminal t.phase) _ _ (λ _. next here (note s _ refl refl))
        λ h. next here (
          resume t s _ (over_repair id.kind t.phase k (c.fitting id t e) h)
            (ap s.tasks (c.keyed id t e) ∙ e) refl refl)

  known_release-Steps :
      (seen : Observed) (r : Release) (s : Store)
      → Consistent s
      → Steps false s (Check.known_release o seen r s).1
  unfolding Check.known_release Tasks.write_observed
  known_release-Steps seen r s c =
      if-Steps (at_least (version_key o.installed_version) r.key) _ _
        (λ _. next here (note s _ refl refl))
        λ _.
          if-Steps (not r.eligible) _ _ (λ _. next here (note s _ refl refl))
            λ _.
              if-Steps (not o.auto_promote) _ _ (λ _. next here (note s _ refl refl))
                λ _. queue_promotion-Steps o.pinned r seen s c

  by_match-Steps :
      (seen : Observed) (hash : String) (found : Option Release) (s : Store)
      → Consistent s
      → Steps false s (Check.by_match o seen hash found s).1
  unfolding Check.by_match Check.unknown_candidate
  by_match-Steps seen hash none s c =
      known_candidate-Steps (candidate_id seen hash) (s.tasks (candidate_id seen hash)) seen s c
        refl refl
  by_match-Steps seen hash (some r) s c = known_release-Steps seen r s c

  fetched-Steps :
      (cached downloaded : Option String) (n : String → Action (Unit {0})) (s : Store)
      → ((hash : String) → Steps false s (n hash s).1)
      → Steps false s (Tasks.◌>>=◌ (Check.fetch_from cached downloaded) n s).1
  unfolding Check.fetch_from
  fetched-Steps (some hash) downloaded n s h = h hash
  fetched-Steps none none n s h = here
  fetched-Steps none (some hash) n s h = h hash

  decide-Steps :
      (previous : Option Observed) (approved : List Release) (latest : Release) (seen : Observed)
      (key : List ℕ) (s : Store)
      → Consistent s
      → Steps false s (Check.decide o previous approved latest seen key s).1
  unfolding Check.decide Check.fetched Tasks.write_observed
  decide-Steps previous approved latest seen key s c =
      if-Steps (key_lt key latest.key) _ _ (λ _. next here (note s _ refl refl))
        λ _.
          if-Steps
            (key_eq key latest.key
              && at_least (version_key o.installed_version) latest.key
              && unchanged previous seen latest)
            _ _ (λ _. next here (note s _ refl refl))
            λ _.
              fetched-Steps o.cached o.downloaded _ s
                λ hash. by_match-Steps (with_hash seen hash) hash (matching approved hash key) s c

  pub check_lem : (s : Store) → Consistent s → Steps false s (check o s).1
  unfolding check Check.check_from Tasks.write_phase Tasks.write_observed
  check_lem s c =
      let s₁ = record s { status = Tasks.checking } in
      Steps-trans (next here (note s s₁ refl refl)) (
        check-Steps o.fetch_ok _ _ λ _. need-Steps _ o.listing _ λ listing _.
          need-Steps _ (last_release (approved_releases o.to_str o.source_commit listing)) _
            λ latest _. need-Steps _ o.probe _ λ seen _.
              Steps-trans
                (next here (
                  note s₁ (record s { status = Tasks.checked; observed_release = some seen }) refl
                    refl))
                (need-Steps _ (version_key seen.version) _ λ key _.
                  decide-Steps s.observed_release
                    (approved_releases o.to_str o.source_commit listing) latest seen key _ c))
