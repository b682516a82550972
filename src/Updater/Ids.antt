-- ===== src/Updater/Ids.antt =====
-- Equality of task ids, and of the files of tasks after a write.
use uu_remote_ubuntu_bridge.Prelude.{◌≡◌, refl, true, eq_iff, eq_refl, arith}
use uu_remote_ubuntu_bridge.Updater.Tasks.{
  TaskKind, approved_promotion, upstream_release, runtime_health, TaskId, same_kind, same_id,
}

same_kind_refl : (k : TaskKind) → same_kind k k ≡ true
same_kind_refl approved_promotion = refl
same_kind_refl upstream_release = refl
same_kind_refl runtime_health = refl

same_kind-eq : (a b : TaskKind) → same_kind a b ≡ true → a ≡ b
same_kind-eq a b h = ground arith

pub same_id_refl : (k : TaskId) → same_id k k ≡ true
same_id_refl k = ground (arith, same_kind_refl k.kind, eq_refl k.identity)

pub same_id-eq : (a b : TaskId) → same_id a b ≡ true → a ≡ b
same_id-eq a b h = ground (arith, same_kind-eq a.kind b.kind, eq_iff a.identity b.identity)
