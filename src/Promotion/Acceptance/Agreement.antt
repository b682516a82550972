-- ===== src/Promotion/Acceptance/Agreement.antt =====
-- The two readings of an acceptance record agree, but for evidence that names no file.
use uu_remote_ubuntu_bridge.Prelude.{
  ℕ, ◌≡◌, ◌≤◌, String, true, false, Option, none, some, List, [], ◌∷◌, ok, err, arith, Result-cases,
  inl, inr, Bool-cases, str_eq, eq_iff,
}
use uu_remote_ubuntu_bridge.Prelude.Int.{pos}
use uu_remote_ubuntu_bridge.Python.Text.{member}
use uu_remote_ubuntu_bridge.Python.Path.{no_parts}
use uu_remote_ubuntu_bridge.Python.Json.{Fields, int, get, is_true, as_obj, end}
use uu_remote_ubuntu_bridge.Promotion.Acceptance.{
  minimum_stability, maximum_stability, required_flags, missing_flags, promotion_acceptance,
  validate_acceptance, Refusal, bad_evidence,
}

eligible-not_refused :
    (raw : Fields) (r : ℕ × String)
    → promotion_acceptance raw ≡ ok r
    → no_parts r.1 ≡ false
    → (e : Refusal) → validate_acceptance raw ≡ err e
    → ⊥
unfolding promotion_acceptance validate_acceptance
eligible-not_refused raw r h p e k = ground arith

-- What the updater finds eligible, with evidence that has a part, the transaction accepts.
pub eligible-validate :
    (raw : Fields) (r : ℕ × String)
    → promotion_acceptance raw ≡ ok r
    → no_parts r.1 ≡ false
    → (acceptance : Fields) × (validate_acceptance raw ≡ ok acceptance)
eligible-validate raw r h p = elim (Result-cases (validate_acceptance raw)) [
  | inl accepted ↦ accepted
  | inr (e, k) ↦ absurd (eligible-not_refused raw r h p e k)
]

validate-not_refused :
    (raw acceptance : Fields)
    → validate_acceptance raw ≡ ok acceptance
    → (e : Refusal) → promotion_acceptance raw ≡ err e
    → ⊥
unfolding promotion_acceptance validate_acceptance
validate-not_refused raw acceptance h e k = ground arith

-- What the transaction accepts, the updater finds eligible.
pub validate-eligible :
    (raw acceptance : Fields)
    → validate_acceptance raw ≡ ok acceptance
    → (r : ℕ × String) × (promotion_acceptance raw ≡ ok r)
validate-eligible raw acceptance h = elim (Result-cases (promotion_acceptance raw)) [
  | inl eligible ↦ eligible
  | inr (e, k) ↦ absurd (validate-not_refused raw acceptance h e k)
]

-- Evidence with no part, such as ".", passes the updater and is refused by the transaction.
pub eligible-refused :
    (raw : Fields) (r : ℕ × String)
    → promotion_acceptance raw ≡ ok r
    → no_parts r.1 ≡ true
    → validate_acceptance raw ≡ err bad_evidence
unfolding promotion_acceptance validate_acceptance
eligible-refused raw r h p = ground arith

missing_flags-nil :
    (acceptance : Fields) (names : List String)
    → missing_flags acceptance names ≡ []
    → (name : String) → member name names ≡ true
    → is_true (get acceptance name) ≡ true
unfolding missing_flags member
missing_flags-nil acceptance [] h name i = cc
missing_flags-nil acceptance (n ∷ ns) h name i = elim (Bool-cases (str_eq name n)) [
  | inl same ↦ rw ((eq_iff name n).0 same) (ground arith)
  | inr other ↦ missing_flags-nil acceptance ns (ground arith) name (ground arith)
]

-- The record that a verdict rests on.
abbrev pub record_of : Fields → Fields
record_of raw = or_end (as_obj (get raw "acceptance"))
  where
    or_end : Option Fields → Fields
    or_end none = end
    or_end (some fields) = fields

eligible_complete :
    (raw : Fields) (r : ℕ × String)
    → promotion_acceptance raw ≡ ok r
    → (missing_flags (record_of raw) required_flags ≡ [])
      × (minimum_stability ≤ r.0)
      × (r.0 ≤ maximum_stability)
      × (get (record_of raw) "stability_seconds" ≡ int (pos r.0))
unfolding promotion_acceptance
eligible_complete raw r h = ground arith

-- An eligible record has every required flag set to True, and a stability of 270 to 1800 seconds,
-- which is the one that it names.
pub eligible-flags :
    (raw : Fields) (r : ℕ × String)
    → promotion_acceptance raw ≡ ok r
    → ((name : String)
        → member name required_flags ≡ true
        → is_true (get (record_of raw) name) ≡ true)
      × (minimum_stability ≤ r.0)
      × (r.0 ≤ maximum_stability)
      × (get (record_of raw) "stability_seconds" ≡ int (pos r.0))
eligible-flags raw r h =
    let (flags, low, high, named_by) = eligible_complete raw r h in
    (missing_flags-nil (record_of raw) required_flags flags, low, high, named_by)
