-- ===== src/Connection/Assessed.antt =====
-- Which report the summary is of: the last one, among those that were completed last.
use uu_remote_ubuntu_bridge.Prelude.{
  ◌≤◌, ◌<◌, ◌≡◌, refl, sym, ap, subst, Bool, true, false, ◌&&◌, none, some, List, [], ◌∷◌, ◌++◌,
  ltb, arith, inl, inr, Bool-cases, if◌then◌else◌,
}
use uu_remote_ubuntu_bridge.Patchlib.Read.Order.{All}
use uu_remote_ubuntu_bridge.Connection.{Report, insert_report, sort_reports, last_report}

-- `r` stands in the list, no report was completed later, and those behind it were completed earlier.
pub record IsLatest (reports : List Report) (r : Report) : Type 0 where
  pub before : List Report
  pub after : List Report
  pub parts : reports ≡ before ++ (r ∷ after)
  pub no_later : All (λ (q : Report). q.completed_at ≤ r.completed_at) before
  pub earlier : All (λ (q : Report). q.completed_at < r.completed_at) after

abbrev all_earlier : Report → List Report → Bool
all_earlier r [] = true
all_earlier r (q ∷ qs) = ltb q.completed_at r.completed_at && all_earlier r qs

last-insert :
    (r : Report) (qs : List Report)
    → last_report (insert_report r qs) ≡ (if all_earlier r qs then some r else last_report qs)
unfolding last_report insert_report
last-insert r [] = refl
last-insert r (q ∷ qs) = elim (Bool-cases (ltb q.completed_at r.completed_at)) [
  | inl e ↦ elim (Bool-cases (all_earlier r qs)) [
    | inl f ↦ rw (e, last-insert r qs, f) refl
    | inr f ↦ rw (e, last-insert r qs, f) refl
  ]
  | inr e ↦ rw e refl
]

All-insert :
    (P : Report → Type 0) (r : Report) (qs : List Report)
    → P r
    → All P qs
    → All P (insert_report r qs)
unfolding insert_report
All-insert P r [] p h = (p, tt)
All-insert P r (q ∷ qs) p (x, xs) = elim (Bool-cases (ltb q.completed_at r.completed_at)) [
  | inl e ↦ rw e (x, All-insert P r qs p xs)
  | inr e ↦ rw e (p, (x, xs))
]

All-sort : (P : Report → Type 0) (rs : List Report) → All P rs → All P (sort_reports rs)
unfolding sort_reports
All-sort P [] h = tt
All-sort P (r ∷ rs) (p, ps) = All-insert P r (sort_reports rs) p (All-sort P rs ps)

All-uninsert :
    (P : Report → Type 0) (r : Report) (qs : List Report)
    → All P (insert_report r qs)
    → P r × All P qs
unfolding insert_report
All-uninsert P r [] h = h
All-uninsert P r (q ∷ qs) h = elim (Bool-cases (ltb q.completed_at r.completed_at)) [
  | inl e ↦
      let cons : All P (q ∷ insert_report r qs) = rw e at h in
      let (p, ps) = All-uninsert P r qs cons.1 in (p, (cons.0, ps))
  | inr e ↦ rw e at h
]

All-earlier :
    (r : Report) (qs : List Report)
    → all_earlier r qs ≡ true
    → All (λ (q : Report). q.completed_at < r.completed_at) qs
All-earlier r [] h = tt
All-earlier r (q ∷ qs) h = (ground arith, All-earlier r qs (ground arith))

not_earlier :
    (r q : Report) (qs : List Report)
    → all_earlier r qs ≡ false
    → All (λ (x : Report). x.completed_at ≤ q.completed_at) qs
    → r.completed_at ≤ q.completed_at
not_earlier r q [] h a = cc
not_earlier r q (x ∷ qs) h (y, ys) = elim (Bool-cases (all_earlier r qs)) [
  | inl e ↦ ground (arith, e, y)
  | inr e ↦ not_earlier r q qs e ys
]

All-≤ :
    (r : Report) (qs : List Report)
    → All (λ (q : Report). q.completed_at < r.completed_at) qs
    → All (λ (q : Report). q.completed_at ≤ r.completed_at) qs
All-≤ r [] h = tt
All-≤ r (q ∷ qs) (x, xs) = (omega (arith, x), All-≤ r qs xs)

All-parts :
    (P : Report → Type 0) (before : List Report) (r : Report) (after : List Report)
    → All P before
    → P r
    → All P after
    → All P (before ++ (r ∷ after))
All-parts P [] r after h p k = (p, k)
All-parts P (q ∷ before) r after (x, xs) p k = (x, All-parts P before r after xs p k)

IsLatest-all :
    (rs : List Report) (r : Report)
    → IsLatest rs r
    → All (λ (q : Report). q.completed_at ≤ r.completed_at) rs
IsLatest-all rs r l =
    let P : Report → Type 0 = λ q. q.completed_at ≤ r.completed_at in
    subst (All P) (sym l.parts)
      (All-parts P l.before r l.after l.no_later (omega arith) (All-≤ r l.after l.earlier))

All-unsort : (P : Report → Type 0) (rs : List Report) → All P (sort_reports rs) → All P rs
unfolding sort_reports
All-unsort P [] h = tt
All-unsort P (r ∷ rs) h =
    let (p, ps) = All-uninsert P r (sort_reports rs) h in (p, All-unsort P rs ps)

pub last_report-none : (rs : List Report) → last_report (sort_reports rs) ≡ none → rs ≡ []
unfolding sort_reports last_report insert_report
last_report-none [] h = refl
last_report-none (r ∷ rs) h = elim (Bool-cases (all_earlier r (sort_reports rs))) [
  | inl e ↦ ground (arith, h, e, last-insert r (sort_reports rs))
  | inr e ↦
      let kept : last_report (sort_reports rs) ≡ none =
        ground (arith, h, e, last-insert r (sort_reports rs)) in
      let bad : all_earlier r (sort_reports []) ≡ false =
        subst (λ (x : List Report). all_earlier r (sort_reports x) ≡ false)
          (last_report-none rs kept) e in
      cc
]

-- The last report of the sorted list.
pub last_report-IsLatest :
    (rs : List Report) (r : Report) → last_report (sort_reports rs) ≡ some r → IsLatest rs r
unfolding sort_reports last_report
last_report-IsLatest [] r h = cc
last_report-IsLatest (q ∷ rs) r h = elim (Bool-cases (all_earlier q (sort_reports rs))) [
  | inl e ↦
      let same : q ≡ r = ground (arith, h, e, last-insert q (sort_reports rs)) in
      subst (IsLatest (q ∷ rs)) same (record {
        before = [];
        after = rs;
        parts = refl;
        no_later = tt;
        earlier =
            All-unsort (λ (x : Report). x.completed_at < q.completed_at) rs
              (All-earlier q (sort_reports rs) e);
      })
  | inr e ↦
      let kept : last_report (sort_reports rs) ≡ some r =
        ground (arith, h, e, last-insert q (sort_reports rs)) in
      let l = last_report-IsLatest rs r kept in
      let le =
        not_earlier q r (sort_reports rs) e
          (All-sort (λ (x : Report). x.completed_at ≤ r.completed_at) rs (IsLatest-all rs r l)) in
      record {
        before = q ∷ l.before;
        after = l.after;
        parts = ap (λ (x : List Report). q ∷ x) l.parts;
        no_later = (le, l.no_later);
        earlier = l.earlier;
      }
]
