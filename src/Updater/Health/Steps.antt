-- ===== src/Updater/Health/Steps.antt =====
-- `monitor_health` as steps of the life of a task.
use uu_remote_ubuntu_bridge.Prelude.{suc, refl, false, ◌&&◌, not, Option, List}
use uu_remote_ubuntu_bridge.Updater.Tasks
use uu_remote_ubuntu_bridge.Updater.Tasks.{Store}
use uu_remote_ubuntu_bridge.Updater.Health
use uu_remote_ubuntu_bridge.Updater.Health.{
  Issue, Reinstall, HealthScene, health, is_healthy, query_failed, monitor_health,
  reinstall_known_good,
}
use uu_remote_ubuntu_bridge.Updater.Queue.Steps.{queue_task-Steps}
use uu_remote_ubuntu_bridge.Updater.Lifecycle.{Step, note, Steps, Steps-trans, here, next}
use uu_remote_ubuntu_bridge.Updater.Lifecycle.Invariant.{Consistent, Steps-Consistent}
use uu_remote_ubuntu_bridge.Updater.Lifecycle.Chains.{after-Steps, if-Steps}

module _ (o : HealthScene) where
  queue_health-Steps : (s : Store) → Consistent s → Steps false s (Health.queue_health o s).1
  unfolding Health.queue_health
  queue_health-Steps s c = queue_task-Steps o.checkout _ s c refl

  after_reinstall-Steps :
      (result : Option (List Issue)) (s : Store)
      → Consistent s
      → Steps false s (Health.after_reinstall o result s).1
  unfolding Health.after_reinstall Tasks.write_phase
  after_reinstall-Steps result s c =
      if-Steps (Health.healed result) _ _ (λ _. next here (note s _ refl refl))
        (λ _. queue_health-Steps s c)

  reinstall-Steps : (r : Reinstall) (s : Store) → Steps false s (reinstall_known_good r s).1
  unfolding reinstall_known_good Tasks.count_reinstall
  reinstall-Steps r s =
      if-Steps (r.tests_ok && Health.all_built r.builders && r.secret_there) _ _
        (λ _. next here (note s _ refl refl)) (λ _. here)

  after_restart-Steps :
      (restarted : List Issue) (s : Store)
      → Consistent s
      → Steps false s (Health.after_restart o restarted s).1
  unfolding Health.after_restart Tasks.write_phase
  after_restart-Steps restarted s c =
      if-Steps (is_healthy restarted) _ _ (λ _. next here (note s _ refl refl))
        λ _.
          let first = reinstall-Steps o.reinstall s in
          after-Steps (reinstall_known_good o.reinstall s) (Health.after_reinstall o) first
            λ result e.
              Steps-trans first (after_reinstall-Steps result _ (Steps-Consistent first c))

  recover_live-Steps : (s : Store) → Consistent s → Steps false s (Health.recover_live o s).1
  unfolding Health.recover_live Health.restart_bridge Tasks.count_restart
  recover_live-Steps s c =
      let counted : Step false s _ = note s (record s { restarts = suc s.restarts }) refl refl in
      Steps-trans (next here counted)
        (after_restart-Steps _ _ (Steps-Consistent (next here counted) c))

  pub monitor_health-Steps : (s : Store) → Consistent s → Steps false s (monitor_health o s).1
  unfolding monitor_health Tasks.write_phase
  monitor_health-Steps s c =
      if-Steps (is_healthy (health o.first)) _ _ (λ _. next here (note s _ refl refl))
        λ _.
          if-Steps (is_healthy (health o.confirmed)) _ _ (λ _. next here (note s _ refl refl))
            λ _.
              if-Steps (query_failed (health o.confirmed)) _ _ (λ _. queue_health-Steps s c)
                λ _.
                  if-Steps (not o.auto_reinstall) _ _ (λ _. queue_health-Steps s c)
                    λ _. recover_live-Steps s c
