-- ===== src/Promotion/Transaction/Recovery.antt =====
-- `recover`: as long as the snapshot, or the prefix that was put back from it, is there, a recovery
-- either puts the prefix back and clears the marker or can be tried again.
use uu_remote_ubuntu_bridge.Prelude.{◌≡◌, ◌⊎◌, true, none, some, ok, err, arith}
use uu_remote_ubuntu_bridge.Promotion.Transaction.{
  Marker, Paths, Failure, Commands, World, recover, marker_is_ours, start_live_uu, stop_live_uu,
}

module _ {Tree : Type 0} (c : Commands Tree) (paths : Paths) where
  -- The marker `m` is there and is this object's, and the tree `s` can be put back.
  pub record Recoverable (s : Tree) (m : Marker) (w : World Tree) : Type 0 where
    pub marked : w.marker ≡ some m
    pub schema : m.known_schema ≡ true
    pub ours : marker_is_ours c paths m ≡ true
    pub kept : (w.snapshot ≡ some s) ⊎ ((w.snapshot ≡ none) × (w.prefix ≡ some s))

  pub record Recovered (s : Tree) (m : Marker) (w : World Tree) : Type 0 where
    pub prefix : w.prefix ≡ some s
    pub unmarked : w.marker ≡ none
    pub running : m.bridge_was_active ≡ true → w.bridge ≡ true

  -- A recovery that returns has put the snapshot back, has cleared the marker and has started the
  -- bridge if it was active.
  pub recover-Recovered :
      (s : Tree) (m : Marker) (w : World Tree)
      → Recoverable s m w
      → (recover c paths w).0 ≡ ok tt
      → Recovered s m (recover c paths w).1
  unfolding recover stop_live_uu start_live_uu
  recover-Recovered s m w r h = ground arith

  -- A recovery that raises, at whichever command, leaves a world from which it can be tried again.
  pub recover-Recoverable :
      (s : Tree) (m : Marker) (w : World Tree)
      → Recoverable s m w
      → (e : Failure) → (recover c paths w).0 ≡ err e
      → Recoverable s m (recover c paths w).1
  unfolding recover stop_live_uu start_live_uu
  recover-Recoverable s m w r e h = ground arith

  -- The commands of a recovery succeed.
  pub record RecoveryWorks : Type 0 where
    pub stops : c.stop_bridge 1 ≡ true
    pub stops_prefix : c.stop_prefix 1 ≡ true
    pub moves_away : c.move 1 ≡ true
    pub moves_back : c.move 2 ≡ true
    pub starts : c.start_bridge 1 ≡ true

  pub recover-ok :
      RecoveryWorks
      → (s : Tree) (m : Marker) (w : World Tree) → Recoverable s m w
      → (recover c paths w).0 ≡ ok tt
  unfolding recover stop_live_uu start_live_uu
  recover-ok works s m w r = ground arith

  -- Where the marker is this object's and the tree can be put back, and the commands that it runs
  -- succeed, a recovery does return, and it has put the tree back, has cleared the marker and has
  -- started the bridge if it was active.
  pub recover_returns :
      RecoveryWorks
      → (s : Tree) (m : Marker) (w : World Tree) → Recoverable s m w
      → ((recover c paths w).0 ≡ ok tt) × Recovered s m (recover c paths w).1
  recover_returns works s m w r =
      let returned = recover-ok works s m w r in (returned, recover-Recovered s m w r returned)
