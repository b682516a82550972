-- ===== src/Updater/Budget/Allowed.antt =====
-- What a budget that allows a run of Codex has seen.
use uu_remote_ubuntu_bridge.Prelude.{
  ℕ, suc, ◌*◌, ◌^◌, ◌≤◌, ◌<◌, ◌≡◌, ◌≢◌, refl, inl, inr, Bool, true, false, ◌&&◌, not, some, List,
  [], ◌∷◌, ok, arith, Bool-cases, >>=-eq-ok, or_raise, or_raise-eq-ok, leb, ltb, zero, ltb→lt,
  leb→le, subst, if◌then◌else◌,
}
use native.Mathlib.Nat.{le_of_mul-le-mul_right, mul-le-mul_right, one-le-pow}
use uu_remote_ubuntu_bridge.Prelude.Int.{ℤ, pos, negsuc, neg, ltb_ℤ}
use uu_remote_ubuntu_bridge.Python.Json.{Fields, get, is_true}
use uu_remote_ubuntu_bridge.Patchlib.Read.Order.{All}
use uu_remote_ubuntu_bridge.Updater.Budget
use uu_remote_ubuntu_bridge.Updater.Budget.{
  Budget, number_lt, at_most, highest, of_windows, selected_limits, codex_budget_from_rate_limits,
  is_none,
}

pow_le : (k : ℕ) → 1 ≤ 2 ^ k
pow_le k = one-le-pow k 2 (omega arith)

le→leb : (a b : ℕ) → a ≤ b → leb a b ≡ true
le→leb a b h = ground arith

not_below : (a b : ℕ) → ltb a b ≡ false → b ≤ a
not_below a b h = ground arith

le-trans_scaled : (a b n p q : ℕ) → 1 ≤ p → a * p ≤ b * q → b ≤ n * p → a ≤ n * q
le-trans_scaled a b n p q pos_p h k =
    let above : b * q ≤ n * p * q = mul-le-mul_right q k in
    let swapped : n * p * q ≡ n * q * p = omega arith in
    le_of_mul-le-mul_right (omega (arith, h, above, swapped)) pos_p

below-neg : (a c : ℕ) → ltb_ℤ (pos a) (neg c) ≡ false
below-neg a zero = ground arith
below-neg a (suc c) = refl

mul-pos : (a p : ℕ) → 1 ≤ p → 1 ≤ suc a * p
mul-pos a p h = omega (arith, h)

neg_lt : (c d : ℕ) → 1 ≤ c → ltb_ℤ (neg c) (pos d) ≡ true
neg_lt zero d h = absurd (omega (arith, h))
neg_lt (suc c) d h = refl

-- The larger of two numbers bounds both.
number_lt-at_most :
    (n : ℕ) (x y : ℤ × ℕ) → number_lt x y ≡ true → at_most n y ≡ true → at_most n x ≡ true
number_lt-at_most n (negsuc a, k) y h e = refl
number_lt-at_most n (pos a, k) (negsuc b, j) h e =
    ground (arith, h, below-neg (a * 2 ^ j) (suc b * 2 ^ k))
number_lt-at_most n (pos a, k) (pos b, j) h e =
    let lt : a * 2 ^ j < b * 2 ^ k = ltb→lt (a * 2 ^ j) (b * 2 ^ k) h in
    let le : b ≤ n * 2 ^ j = leb→le b (n * 2 ^ j) e in
    let bound : a ≤ n * 2 ^ k =
      le-trans_scaled a b n (2 ^ j) (2 ^ k) (pow_le j) (omega (arith, lt)) le in
    le→leb a (n * 2 ^ k) bound

not_number_lt-at_most :
    (n : ℕ) (x y : ℤ × ℕ) → number_lt x y ≡ false → at_most n x ≡ true → at_most n y ≡ true
not_number_lt-at_most n x (negsuc b, j) h e = refl
not_number_lt-at_most n (negsuc a, k) (pos b, j) h e =
    absurd (ground (arith, h, neg_lt (suc a * 2 ^ j) (b * 2 ^ k) (mul-pos a (2 ^ j) (pow_le j))))
not_number_lt-at_most n (pos a, k) (pos b, j) h e =
    let le : b * 2 ^ k ≤ a * 2 ^ j = not_below (a * 2 ^ j) (b * 2 ^ k) h in
    let small : a ≤ n * 2 ^ k = leb→le a (n * 2 ^ k) e in
    le→leb b (n * 2 ^ j) (le-trans_scaled b a n (2 ^ k) (2 ^ j) (pow_le k) le small)

-- The highest number bounds all.
highest-at_most :
    (n : ℕ) (x : ℤ × ℕ) (xs : List (ℤ × ℕ))
    → at_most n (highest x xs) ≡ true
    → All (λ (y : ℤ × ℕ). at_most n y ≡ true) (x ∷ xs)
unfolding highest
highest-at_most n x [] h = (h, tt)
highest-at_most n x (y ∷ ys) h = elim (Bool-cases (number_lt x y)) [
  | inl e ↦
      let (a, b) =
        highest-at_most n y ys
          ((subst (λ (t : Bool). at_most n (highest (if t then y else x) ys) ≡ true) e h)) in
      (number_lt-at_most n x y e a, (a, b))
  | inr e ↦
      let (a, b) =
        highest-at_most n x ys
          ((subst (λ (t : Bool). at_most n (highest (if t then y else x) ys) ≡ true) e h)) in
      (a, (not_number_lt-at_most n x y e a, b))
]

judged-Allowed :
    (cap : ℕ) (selected : Fields) (xs : List (ℤ × ℕ)) (b : Budget)
    → Budget.judged cap selected xs ≡ ok b
    → b.allowed ≡ true
    → (xs ≢ [])
      × All (λ (x : ℤ × ℕ). at_most cap x ≡ true) xs
      × (is_none (get selected "rateLimitReachedType") ≡ true)
      × (is_true (get selected "spendControlReached") ≡ false)
unfolding Budget.judged
judged-Allowed cap selected [] b h a = cc
judged-Allowed cap selected (x ∷ xs) b h a =
    let tested : (at_most cap (highest x xs)
          && is_none (get selected "rateLimitReachedType")
          && not (is_true (get selected "spendControlReached")))
        ≡ true =
      ground (arith, h, a) in
    (
      λ e. ground (arith, e),
      highest-at_most cap x xs (ground (arith, tested)),
      ground (arith, tested),
      ground (arith, tested),
    )

-- Where a budget allows a run, a limit was reported with at least one used percentage, every reported
-- percentage is at most the cap, no limit is reached, and neither is the spend control.
pub codex_budget-Allowed :
    (payload : Fields) (cap : ℕ) (b : Budget)
    → codex_budget_from_rate_limits payload cap ≡ ok b
    → b.allowed ≡ true
    → (selected : Fields) × (selected_limits payload ≡ some selected)
      × (of_windows "usedPercent" selected ≢ [])
      × All (λ (x : ℤ × ℕ). at_most cap x ≡ true) (of_windows "usedPercent" selected)
      × (is_none (get selected "rateLimitReachedType") ≡ true)
      × (is_true (get selected "spendControlReached") ≡ false)
unfolding codex_budget_from_rate_limits
codex_budget-Allowed payload cap b h allowed =
    let (selected, e, h₁) = >>=-eq-ok (or_raise (selected_limits payload) _) _ h in
    let (p, q, r, t) =
      judged-Allowed cap selected (of_windows "usedPercent" selected) b h₁ allowed in
    (selected, or_raise-eq-ok (selected_limits payload) _ e, p, q, r, t)
