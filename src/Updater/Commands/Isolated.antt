-- ===== src/Updater/Commands/Isolated.antt =====
-- What a visit of `monitor` to a repair task leaves alone.
use uu_remote_ubuntu_bridge.Prelude.{◌≡◌, ◌≢◌, refl, Option, none, some, subst}
use uu_remote_ubuntu_bridge.Updater.Tasks
use uu_remote_ubuntu_bridge.Updater.Tasks.{
  TaskKind, approved_promotion, upstream_release, runtime_health, Task, Store,
}
use uu_remote_ubuntu_bridge.Updater.Promotion.{recover_interrupted}
use uu_remote_ubuntu_bridge.Updater.Repair.Review.{monitor_repair-isolated}
use uu_remote_ubuntu_bridge.Updater.Commands
use uu_remote_ubuntu_bridge.Updater.Commands.{MonitorScene, monitor}

-- No run of the promotion helper's `apply`, and no word of a promotion that was not there before.
abbrev pub Isolated : Store → Store → Type 0
Isolated s s₁ = (s₁.applied ≡ s.applied) × (s₁.status ≡ Tasks.promoted → s.status ≡ Tasks.promoted)

module _ (o : MonitorScene) (s : Store) where
  visit_kind-Isolated :
      (kind : TaskKind) (t : Task)
      → kind ≢ approved_promotion
      → Isolated s (Commands.visit_kind o kind t s).1
  unfolding Commands.visit_kind
  visit_kind-Isolated approved_promotion t n = absurd (n refl)
  visit_kind-Isolated upstream_release t n = monitor_repair-isolated o.repair t s
  visit_kind-Isolated runtime_health t n = monitor_repair-isolated o.repair t s

  visit-Isolated :
      (pending : Option Task) (t : Task)
      → pending ≡ some t
      → t.id.kind ≢ approved_promotion
      → Isolated s (Commands.visit o pending s).1
  unfolding Commands.visit
  visit-Isolated none t e n = cc
  visit-Isolated (some u) t e n =
      let same : t ≡ u = cc in
      visit_kind-Isolated u.id.kind u (subst (λ (v : Task). v.id.kind ≢ approved_promotion) same n)

-- Where a repair is pending and no promotion was interrupted, a visit of `monitor` never runs the
-- promotion helper, and the status says "promoted" afterwards only if it did before.
pub monitor-Isolated :
    (o : MonitorScene) (s : Store) (t : Task)
    → s.pending ≡ some t
    → t.id.kind ≢ approved_promotion
    → o.marker ≡ none
    → Isolated s (monitor o s).1
unfolding monitor Commands.visit_unless recover_interrupted
monitor-Isolated o s t e n m = rw m (visit-Isolated o s s.pending t e n)
