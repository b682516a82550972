-- ===== src/Updater/Repair/Spending.antt =====
-- scripts/uu_update_manager.py: `monitor` with the budget that Codex's rate limits leave.
use uu_remote_ubuntu_bridge.Prelude.{
  ℕ, ◌<◌, ◌≡◌, ◌≢◌, refl, true, false, Option, none, some, [], Result, ok, err, arith, inl, inr,
  Result-cases,
}
use uu_remote_ubuntu_bridge.Prelude.Int.{ℤ, pos, negsuc}
use uu_remote_ubuntu_bridge.Python.Json.{Fields, get, is_true}
use uu_remote_ubuntu_bridge.Patchlib.Read.Order.{All}
use uu_remote_ubuntu_bridge.Updater.Tasks.{Task, Store}
use uu_remote_ubuntu_bridge.Updater.Budget.{
  Budget, BudgetError, codex_budget_from_rate_limits, of_windows, selected_limits, at_most, is_none,
}
use uu_remote_ubuntu_bridge.Updater.Budget.Allowed.{codex_budget-Allowed}
use uu_remote_ubuntu_bridge.Updater.Repair
use uu_remote_ubuntu_bridge.Updater.Repair.{Visit, monitor_repair}
use uu_remote_ubuntu_bridge.Updater.Repair.Review.{monitor_repair-allowed}

-- A time before the epoch does not delay the next try: it counts as none.
abbrev from_epoch : Option ℤ → Option ℕ
from_epoch none = none
from_epoch (some (pos r)) = some r
from_epoch (some (negsuc r)) = none

budgeted : Visit → Result BudgetError Budget → Visit
budgeted o (err e) = record o { allowed = false; resets_at = none }
budgeted o (ok b) = record o { allowed = b.allowed; resets_at = from_epoch b.resets_at }

-- The budget of a visit: what `codex_rate_limits` returned, `none` where it raised, and
-- `codex_max_used_percent`.
unfoldable pub with_limits : Visit → Option Fields → ℕ → Visit
unfolding budgeted
with_limits o none cap = record o { allowed = false; resets_at = none }
with_limits o (some payload) cap = budgeted o (codex_budget_from_rate_limits payload cap)

with_limits-ok :
    (o : Visit) (limits : Option Fields) (cap : ℕ)
    → (with_limits o limits cap).allowed ≡ true
    → (payload : Fields) × (b : Budget) × (limits ≡ some payload)
      × (codex_budget_from_rate_limits payload cap ≡ ok b)
      × (b.allowed ≡ true)
unfolding with_limits
with_limits-ok o none cap h = cc
with_limits-ok o (some payload) cap h =
    elim (Result-cases (codex_budget_from_rate_limits payload cap)) [
      | inl (b, e) ↦ (payload, b, refl, e, ground (arith, h, e))
      | inr (f, e) ↦ absurd (ground (arith, h, e))
    ]

-- What the rate limits say: they were read, at least one used percentage is reported, each is at most
-- the cap, and neither a limit nor the spend control is reached.
pub record Unspent (limits : Option Fields) (cap : ℕ) : Type 0 where
  pub payload : Fields
  pub selected : Fields
  pub limits_eq : limits ≡ some payload
  pub selected_eq : selected_limits payload ≡ some selected
  pub reported : of_windows "usedPercent" selected ≢ []
  pub capped : All (λ (x : ℤ × ℕ). at_most cap x ≡ true) (of_windows "usedPercent" selected)
  pub not_reached : is_none (get selected "rateLimitReachedType") ≡ true
  pub not_spent : is_true (get selected "spendControlReached") ≡ false

-- Codex is started only if the time for the next try has come, the sandbox works, and the rate limits
-- leave a budget: they were read, at least one used percentage is reported, each of them is at most the
-- configured cap, and neither a limit nor the spend control is reached.
pub monitor_repair-Unspent :
    (o : Visit) (limits : Option Fields) (cap : ℕ) (t : Task) (s : Store)
    → s.codex_runs < (monitor_repair (with_limits o limits cap) t s).1.codex_runs
    → (Repair.due (with_limits o limits cap).now t.next_retry ≡ true)
      × ((with_limits o limits cap).sandbox ≡ true)
      × Unspent limits cap
monitor_repair-Unspent o limits cap t s h =
    let (due, sandbox, allowed) = monitor_repair-allowed (with_limits o limits cap) t s h in
    let (payload, b, e, f, g) = with_limits-ok o limits cap allowed in
    let (selected, a, p, q, r, u) = codex_budget-Allowed payload cap b f g in
    (
      due,
      sandbox,
      record {
        payload = payload;
        selected = selected;
        limits_eq = e;
        selected_eq = a;
        reported = p;
        capped = q;
        not_reached = r;
        not_spent = u;
      },
    )
