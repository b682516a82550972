-- ===== src/Updater/Budget.antt =====
-- scripts/uu_update_manager.py: `codex_budget_from_rate_limits`. A number is `(m, k)`, which stands for
-- m / 2 ^ k; an integer too large for a float, on which `float` raises, is left out.
pub mod Allowed
use uu_remote_ubuntu_bridge.Prelude.{
  ℕ, suc, ◌*◌, ◌/◌, ◌^◌, String, Bool, true, false, ◌&&◌, not, Option, none, some, List, [], ◌∷◌,
  ◌++◌, Result, ok, err, ◌>>=◌, or_raise, ltb, leb, if◌then◌else◌,
}
use uu_remote_ubuntu_bridge.Prelude.Int.{ℤ, pos, negsuc, neg, ltb_ℤ, scale}
use uu_remote_ubuntu_bridge.Python.Json.{Json, Fields, null, int, real, get, as_obj, is_true}

pub data BudgetError : Type 0 where
  no_limit no_percentages : BudgetError

pub record Budget : Type 0 where
  pub allowed : Bool
  pub observed_used_percent : ℤ × ℕ
  pub resets_at : Option ℤ

-- `isinstance(value, (int, float)) and not isinstance(value, bool)`
abbrev pub number : Json → List (ℤ × ℕ)
number (int n) = (n, 0) ∷ []
number (real m k) = (m, k) ∷ []
number _ = []

-- `a < b`
abbrev pub number_lt : ℤ × ℕ → ℤ × ℕ → Bool
number_lt (m, k) (n, j) = ltb_ℤ (scale m (2 ^ j)) (scale n (2 ^ k))

-- `a <= n`
abbrev pub at_most : ℕ → ℤ × ℕ → Bool
at_most n (pos a, k) = leb a (n * 2 ^ k)
at_most n (negsuc a, k) = true

-- `int(a)`, which cuts off the fraction.
abbrev truncated : ℤ × ℕ → ℤ
truncated (pos a, k) = pos (a / 2 ^ k)
truncated (negsuc a, k) = neg (suc a / 2 ^ k)

-- `max` of a first number and others
unfoldable pub highest : ℤ × ℕ → List (ℤ × ℕ) → ℤ × ℕ
highest x [] = x
highest x (y ∷ ys) = highest (if number_lt x y then y else x) ys

unfoldable pub latest : List (ℤ × ℕ) → Option ℤ
latest [] = none
latest (x ∷ xs) = elim (latest xs) [
  | none ↦ some (truncated x)
  | some r ↦ some (if ltb_ℤ r (truncated x) then truncated x else r)
]

-- The numbers of one key in the two windows that are mappings.
of_window : String → Option Fields → List (ℤ × ℕ)
of_window key none = []
of_window key (some window) = number (get window key)

unfoldable pub of_windows : String → Fields → List (ℤ × ℕ)
unfolding of_window
of_windows key selected =
    of_window key (as_obj (get selected "primary"))
    ++ of_window key (as_obj (get selected "secondary"))

in_limits : Option Fields → Option Fields
in_limits none = none
in_limits (some limits) = as_obj (get limits "codex")

-- The limits of Codex, or those of the account.
unfoldable pub selected_limits : Fields → Option Fields
unfolding in_limits
selected_limits payload = elim (in_limits (as_obj (get payload "rateLimitsByLimitId"))) [
  | none ↦ as_obj (get payload "rateLimits")
  | some candidate ↦ some candidate
]

abbrev pub is_none : Json → Bool
is_none null = true
is_none _ = false

judged : ℕ → Fields → List (ℤ × ℕ) → Result BudgetError Budget
judged cap selected [] = err no_percentages
judged cap selected (x ∷ xs) = ok record {
  allowed =
      at_most cap (highest x xs)
      && is_none (get selected "rateLimitReachedType")
      && not (is_true (get selected "spendControlReached"));
  observed_used_percent = highest x xs;
  resets_at = latest (of_windows "resetsAt" selected);
}

-- `codex_budget_from_rate_limits`
unfoldable pub codex_budget_from_rate_limits : Fields → ℕ → Result BudgetError Budget
unfolding judged
codex_budget_from_rate_limits payload cap = do
  selected ← or_raise (selected_limits payload) no_limit
  judged cap selected (of_windows "usedPercent" selected)
