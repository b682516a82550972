-- ===== src/Updater/Check/Gate.antt =====
-- When `check` queues a promotion, and which.
use uu_remote_ubuntu_bridge.Prelude.{
  ℕ, [], ◌∷◌, subst, ◌≡◌, refl, ◌⊎◌, inl, inr, Bool, true, false, not, ◌&&◌, Option, none, some,
  arith, Bool-cases, String, List, str_eq,
}
use uu_remote_ubuntu_bridge.Updater.Tasks
use uu_remote_ubuntu_bridge.Updater.Tasks.{
  TaskId, Task, Store, Observed, UpdateError, Action, approved_promotion, same_id, terminal,
}
use uu_remote_ubuntu_bridge.Updater.Version.{key_lt, key_eq, version_key}
use uu_remote_ubuntu_bridge.Updater.Releases.{Listed, Release, approved_releases}
use uu_remote_ubuntu_bridge.Updater.Check
use uu_remote_ubuntu_bridge.Updater.Check.{
  CheckScene, check, need, at_least, unchanged, candidate_id, matching, with_hash, last_release,
}
use uu_remote_ubuntu_bridge.Updater.Queue.{promotion_id}
use uu_remote_ubuntu_bridge.Updater.Queue.Gate.{
  Kept, Queueable, if-holds, check-holds, queue_promotion-Queueable, queue_task-Kept,
}
use uu_remote_ubuntu_bridge.Updater.Lifecycle.Invariant.{Consistent}

-- The release is one of the list.
pub data Among (r : Release) : List Release → Type 0 where
  at_head : {rs : List Release} → Among r (r ∷ rs)
  in_tail : {q : Release} {rs : List Release} → Among r rs → Among r (q ∷ rs)

-- The release: approved by the repository that was read, of the version that the endpoint offers and
-- the hash of the installer that was fetched, accepted and pinned, and later than the installed one;
-- and the owner asked for automatic promotion.
pub record Gate (o : CheckScene) (id : TaskId) : Type 0 where
  pub listing : List Listed
  pub release : Release
  pub seen : Observed
  pub key : List ℕ
  pub hash : String
  pub fetch : o.fetch_ok ≡ true
  pub listing_eq : o.listing ≡ some listing
  pub among : Among release (approved_releases o.to_str o.source_commit listing)
  pub probe_eq : o.probe ≡ some seen
  pub key_eq_seen : version_key seen.version ≡ some key
  pub key_same : key_eq release.key key ≡ true
  pub hash_same : str_eq release.installer_sha256 hash ≡ true
  pub hash_eq : (o.cached ≡ some hash) ⊎ ((o.cached ≡ none) × (o.downloaded ≡ some hash))
  pub automatic : o.auto_promote ≡ true
  pub later : at_least (version_key o.installed_version) release.key ≡ false
  pub queueable : Queueable o.pinned release
  pub own : id ≡ promotion_id release

need-holds :
    {A B : Type 0} (P : Store → Type 0) (s : Store) (e : UpdateError) (o : Option A)
    (n : A → Action B)
    → P s
    → ((a : A) → o ≡ some a → P (n a s).1)
    → P (Tasks.◌>>=◌ (need e o) n s).1
need-holds P s e none n p h = p
need-holds P s e (some a) n p h = h a refl

both : (a b : Bool) → (a && b) ≡ true → (a ≡ true) × (b ≡ true)
both a b h = ground arith

-- What `matching` finds.
matching-Among :
    (rs : List Release) (hash : String) (key : List ℕ) (r : Release)
    → matching rs hash key ≡ some r
    → Among r rs × (str_eq r.installer_sha256 hash ≡ true) × (key_eq r.key key ≡ true)
unfolding matching
matching-Among [] hash key r h = cc
matching-Among (q ∷ rs) hash key r h =
    elim (Bool-cases (str_eq q.installer_sha256 hash && key_eq q.key key)) [
      | inl e ↦
          let same : q ≡ r = ground (arith, e, h) in
          let (a, b) = both (str_eq q.installer_sha256 hash) (key_eq q.key key) e in
          (
            subst (λ (x : Release). Among x (q ∷ rs)) same at_head,
            subst (λ (x : Release). str_eq x.installer_sha256 hash ≡ true) same a,
            subst (λ (x : Release). key_eq x.key key ≡ true) same b,
          )
      | inr e ↦
          let (a, b, c) = matching-Among rs hash key r (ground (arith, e, h)) in (in_tail a, b, c)
    ]

-- What the branch of an approved release tests.
record Passed (o : CheckScene) (id : TaskId) (r : Release) : Type 0 where
  automatic : o.auto_promote ≡ true
  later : at_least (version_key o.installed_version) r.key ≡ false
  queueable : Queueable o.pinned r
  own : id ≡ promotion_id r

-- What follows the fetch of the installer.
record Matched (o : CheckScene) (id : TaskId) (approved : List Release) (key : List ℕ)
    : Type 0 where
  hash : String
  release : Release
  hash_eq : (o.cached ≡ some hash) ⊎ ((o.cached ≡ none) × (o.downloaded ≡ some hash))
  found : matching approved hash key ≡ some release
  passed : Passed o id release

module _ (o : CheckScene) (id : TaskId) (kind_eq : id.kind ≡ approved_promotion) where
  known_release-Passed :
      (seen : Observed) (r : Release) (s : Store)
      → Consistent s
      → Kept id s (Check.known_release o seen r s).1 ⊎ Passed o id r
  unfolding Check.known_release Tasks.write_observed
  known_release-Passed seen r s c =
      let P : Store → Type 0 = λ t. Kept id s t ⊎ Passed o id r in
      if-holds P s (at_least (version_key o.installed_version) r.key) _ _ (λ _. inl refl)
        λ a.
          if-holds P s (not r.eligible) _ _ (λ _. inl refl)
            λ _.
              if-holds P s (not o.auto_promote) _ _ (λ _. inl refl)
                λ b. elim (queue_promotion-Queueable id s o.pinned r seen c) [
                  | inl k ↦ inl k
                  | inr (own, q) ↦
                      inr record {
                        automatic = ground (arith, b);
                        later = a;
                        queueable = q;
                        own = own;
                      }
                ]

  known_candidate-Kept :
      (own : TaskId) (file : Option Task) (seen : Observed) (s : Store)
      → same_id id own ≡ false
      → Kept id s (Check.known_candidate o own file seen s).1
  unfolding Check.known_candidate Tasks.write_pending Tasks.write_status Tasks.write_observed
  known_candidate-Kept own none seen s h = queue_task-Kept id s o.checkout own h
  known_candidate-Kept own (some t) seen s h =
      if-holds (Kept id s) s (terminal t.phase) _ _ (λ _. refl) (λ _. refl)

  by_match-Matched :
      (approved : List Release) (key : List ℕ) (seen : Observed) (hash : String)
      (found : Option Release) (s : Store)
      → Consistent s
      → matching approved hash key ≡ found
      → (o.cached ≡ some hash) ⊎ ((o.cached ≡ none) × (o.downloaded ≡ some hash))
      → Kept id s (Check.by_match o seen hash found s).1 ⊎ Matched o id approved key
  unfolding Check.by_match Check.unknown_candidate
  by_match-Matched approved key seen hash none s c e f = inl (
      known_candidate-Kept (candidate_id seen hash) (s.tasks (candidate_id seen hash)) seen s
        (ground (arith, kind_eq)))
  by_match-Matched approved key seen hash (some r) s c e f =
      elim (known_release-Passed seen r s c) [
        | inl k ↦ inl k
        | inr p ↦ inr record { hash = hash; release = r; hash_eq = f; found = e; passed = p }
      ]

  fetched-holds :
      (P : Store → Type 0) (cached downloaded : Option String) (n : String → Action (Unit {0}))
      (s : Store)
      → P s
      → ((hash : String)
          → (cached ≡ some hash) ⊎ ((cached ≡ none) × (downloaded ≡ some hash))
          → P (n hash s).1)
      → P (Tasks.◌>>=◌ (Check.fetch_from cached downloaded) n s).1
  unfolding Check.fetch_from
  fetched-holds P (some hash) downloaded n s p h = h hash (inl refl)
  fetched-holds P none none n s p h = p
  fetched-holds P none (some hash) n s p h = h hash (inr (refl, refl))

  decide-Matched :
      (previous : Option Observed) (approved : List Release) (latest : Release) (seen : Observed)
      (key : List ℕ) (s : Store)
      → Consistent s
      → Kept id s (Check.decide o previous approved latest seen key s).1 ⊎ Matched o id approved key
  unfolding Check.decide Check.fetched Tasks.write_observed
  decide-Matched previous approved latest seen key s c =
      let P : Store → Type 0 = λ t. Kept id s t ⊎ Matched o id approved key in
      if-holds P s (key_lt key latest.key) _ _ (λ _. inl refl)
        λ _.
          if-holds P s
            (key_eq key latest.key
              && at_least (version_key o.installed_version) latest.key
              && unchanged previous seen latest)
            _ _ (λ _. inl refl)
            λ _. fetched-holds P o.cached o.downloaded _ s (inl refl) λ hash f.
              by_match-Matched approved key (with_hash seen hash) hash (matching approved hash key)
                s c refl f

-- `check` leaves the file of a promotion as it is, unless the promotion is that of a release which
-- passed every gate: the repository was fetched and approves it, it has the version that the endpoint
-- offers and the hash of the installer that was fetched, it is accepted and pinned, a later one than
-- the installed, and the owner turned automatic promotion on. The files before are taken to be
-- consistent.
pub check-Gate :
    (o : CheckScene) (s : Store) (id : TaskId)
    → Consistent s
    → id.kind ≡ approved_promotion
    → ((check o s).1.tasks id ≡ s.tasks id) ⊎ Gate o id
unfolding check Check.check_from Tasks.write_phase Tasks.write_observed
check-Gate o s id c h =
    let P : Store → Type 0 = λ t. Kept id s t ⊎ Gate o id in
    check-holds P _ o.fetch_ok _ _ (inl refl) λ fetch.
      need-holds P _ _ o.listing _ (inl refl) λ listing listing_eq.
        need-holds P _ _ (last_release (approved_releases o.to_str o.source_commit listing)) _
          (inl refl)
          λ latest _. need-holds P _ _ o.probe _ (inl refl) λ seen probe_eq.
            need-holds P _ _ (version_key seen.version) _ (inl refl) λ key key_eq_seen.
              elim (decide-Matched o id h s.observed_release
                (approved_releases o.to_str o.source_commit listing) latest seen key
                (record s { status = Tasks.checked; observed_release = some seen }) c) [
                  | inl k ↦ inl k
                  | inr m ↦
                      let (a, b, d) =
                        matching-Among (approved_releases o.to_str o.source_commit listing) m.hash
                          key m.release m.found in
                      inr record {
                        listing = listing;
                        release = m.release;
                        seen = seen;
                        key = key;
                        hash = m.hash;
                        fetch = fetch;
                        listing_eq = listing_eq;
                        among = a;
                        probe_eq = probe_eq;
                        key_eq_seen = key_eq_seen;
                        key_same = d;
                        hash_same = b;
                        hash_eq = m.hash_eq;
                        automatic = m.passed.automatic;
                        later = m.passed.later;
                        queueable = m.passed.queueable;
                        own = m.passed.own;
                      }
                ]
