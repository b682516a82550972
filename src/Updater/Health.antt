-- ===== src/Updater/Health.antt =====
-- scripts/uu_update_manager.py: `health`, `restart_bridge`, `reinstall_known_good` and `monitor_health`.
-- What systemctl, pgrep, ss, git, the builders and install.sh say is an observation.
pub mod Consent
pub mod Steps
use uu_remote_ubuntu_bridge.Prelude.{
  ℕ, zero, suc, ◌+◌, ◌-◌, ◌*◌, String, Bool, true, false, ◌&&◌, ◌||◌, not, Option, none, some, List,
  [], ◌∷◌, ◌++◌, leb, ltb, ◌==◌, if◌then◌else◌,
}
use uu_remote_ubuntu_bridge.Updater.Tasks
use uu_remote_ubuntu_bridge.Updater.Tasks.{
  healthy, self_healed, TaskId, runtime_health, Action, ◌>>=◌, ◌>>◌, give, write_phase,
  count_restart, count_reinstall, says,
}
use uu_remote_ubuntu_bridge.Updater.Queue.{Checkout, queue_task}

pub data Issue : Type 0 where
  bridge_service_query_failed bridge_service_inactive bridge_restart_storm : Issue
  uu_server_missing freerdp_relay_missing gnome_rdp_relay_missing : Issue
  rdp_listener_owner_mismatch installed_manifest_missing : Issue

-- `systemctl show`, with the numbers of NRestarts and ActiveEnterTimestampMonotonic, 0 where they are
-- missing or no numbers; the monotonic clock; the searches for processes; the process ids of the relay
-- and those that own the listening port. Times are in microseconds.
pub record Probe : Type 0 where
  pub query_ok : Bool
  pub active_state : Option String
  pub restarts : ℕ
  pub active_since : ℕ
  pub now : ℕ
  pub server_found : Bool
  pub relay_found : Bool
  pub gnome_found : Bool
  pub relay_pids : List ℕ
  pub listener_pids : List ℕ
  pub manifest_there : Bool

abbrev issue_if : Bool → Issue → List Issue
issue_if test i = if test then i ∷ [] else []

abbrev pub listed : ℕ → List ℕ → Bool
listed p [] = false
listed p (q ∷ qs) = p == q || listed p qs

abbrev pub any_listed : List ℕ → List ℕ → Bool
any_listed [] qs = false
any_listed (p ∷ ps) qs = listed p qs || any_listed ps qs

abbrev no_pids : List ℕ → Bool
no_pids [] = true
no_pids (p ∷ ps) = false

-- `active_age_seconds is None or active_age_seconds <= 15 * 60`
abbrev pub young : Probe → Bool
young p = p.active_since == 0 || leb (p.now - p.active_since) (15 * 60 * 1000000)

service_issue : Probe → List Issue
service_issue p =
    if not p.query_ok
    then bridge_service_query_failed ∷ []
    else issue_if (not (says "active" p.active_state)) bridge_service_inactive

relay_issue : Probe → List Issue
relay_issue p =
    if not p.gnome_found || no_pids p.relay_pids
    then gnome_rdp_relay_missing ∷ []
    else issue_if (not (any_listed p.relay_pids p.listener_pids)) rdp_listener_owner_mismatch

-- `health`: the issues.
unfoldable pub health : Probe → List Issue
unfolding service_issue relay_issue
health p =
    service_issue p
    ++ (issue_if (leb 3 p.restarts && young p) bridge_restart_storm
        ++ (issue_if (not p.server_found) uu_server_missing
            ++ (issue_if (not p.relay_found) freerdp_relay_missing
                ++ (relay_issue p ++ issue_if (not p.manifest_there) installed_manifest_missing))))

-- `health["healthy"]`
abbrev pub is_healthy : List Issue → Bool
is_healthy [] = true
is_healthy (i ∷ is) = false

abbrev same_issue : Issue → Bool
same_issue bridge_service_query_failed = true
same_issue _ = false

-- `"bridge-service-query-failed" in issues`
abbrev pub query_failed : List Issue → Bool
query_failed [] = false
query_failed (i ∷ is) = same_issue i || query_failed is

-- The loop of `restart_bridge`: the first healthy answer, or the last one after so many rounds.
unfoldable pub settled : ℕ → ℕ → (ℕ → Probe) → List Issue
settled zero i probe = health (probe i)
settled (suc rounds) i probe =
    let rest = settled rounds (suc i) probe in
    if is_healthy (health (probe i)) then health (probe i) else rest

-- `restart_bridge`
unfoldable pub restart_bridge : (ℕ → Probe) → Action (List Issue)
unfolding count_restart
restart_bridge probe = do count_restart; give (settled 24 0 probe)

-- What the steps of `reinstall_known_good` say; a builder that is not there is left out.
pub record Reinstall : Type 0 where
  pub tests_ok : Bool
  pub builders : List (Option Bool)
  pub secret_there : Bool
  pub install_ok : Bool
  pub installed : Probe
  pub restored : Probe

-- The builders that are there succeed.
abbrev pub all_built : List (Option Bool) → Bool
all_built [] = true
all_built (none ∷ bs) = all_built bs
all_built (some b ∷ bs) = b && all_built bs

-- `reinstall_known_good`: nothing if it was not attempted; else the issues then, after the rollback if
-- there was one.
unfoldable pub reinstall_known_good : Reinstall → Action (Option (List Issue))
unfolding count_reinstall
reinstall_known_good r =
    if r.tests_ok && all_built r.builders && r.secret_there
    then (do
      count_reinstall
      give (
          some (
            if r.install_ok && is_healthy (health r.installed)
            then health r.installed
            else health r.restored)))
    else give none

pub record HealthScene : Type 0 where
  pub first : Probe
  pub confirmed : Probe
  pub auto_reinstall : Bool
  pub restart_probe : ℕ → Probe
  pub reinstall : Reinstall
  pub identity : String
  pub checkout : Checkout

abbrev healed : Option (List Issue) → Bool
healed none = false
healed (some is) = is_healthy is

queue_health : HealthScene → Action (Unit {0})
queue_health o = queue_task o.checkout (record { kind = runtime_health; identity = o.identity })

after_reinstall : HealthScene → Option (List Issue) → Action (Unit {0})
unfolding queue_health
after_reinstall o result = if healed result then write_phase self_healed else queue_health o

after_restart : HealthScene → List Issue → Action (Unit {0})
unfolding after_reinstall reinstall_known_good
after_restart o restarted =
    if is_healthy restarted
    then write_phase self_healed
    else (do result ← reinstall_known_good o.reinstall; after_reinstall o result)

recover_live : HealthScene → Action (Unit {0})
unfolding after_restart restart_bridge
recover_live o = do restarted ← restart_bridge o.restart_probe; after_restart o restarted

-- `monitor_health`
unfoldable pub monitor_health : HealthScene → Action (Unit {0})
unfolding recover_live queue_health
monitor_health o =
    if is_healthy (health o.first)
    then write_phase healthy
    else if is_healthy (health o.confirmed)
    then write_phase healthy
    else if query_failed (health o.confirmed)
    then queue_health o
    else if not o.auto_reinstall
    then queue_health o
    else recover_live o
