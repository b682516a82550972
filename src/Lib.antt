-- ===== src/Lib.antt =====
-- UU Remote Ubuntu Bridge: the parts of its Python tools that change an installed program or decide
-- whether that may happen.
--
-- The bridge runs the Windows program UU Remote under Wine, with a server executable that is patched.
-- A manifest says which bytes of which release are replaced. The patch library validates manifests and
-- makes the patched bytes; the patch command keeps a backup and writes the executable. The update
-- manager watches for releases, lets an automated repair prepare a change for review, and hands an
-- accepted release to the promotion tool when UU is idle. The promotion tool takes a snapshot of the
-- Wine prefix, installs, verifies, and puts the snapshot back if anything fails. Three inspection
-- tools stand beside these: one offers registry keys for deletion, one judges recorded input events, one
-- sums up the logs of the connection. The audit tool looks for the patches of a known release in the
-- executable of a new one and drafts a manifest, which a person reviews and the tool then finalizes.
--
-- Files, with the source that each models:
--   Prelude, Prelude/*       shared names, results with errors, lists and integers
--   Python/*                 what the scripts use of Python: bytes, texts, int(s, 0), hexadecimal numerals,
--                            JSON values, paths
--   Patchlib/Manifest, Fields, Read   scripts/gameviewer_patchlib.py, manifest_from_dict, load_manifests
--   Patchlib/Apply           scripts/gameviewer_patchlib.py, classify to make_patched
--   Patchlib/Locate          scripts/gameviewer_patchlib.py, changed_byte_ranges, masked_candidates
--                            (Complete: what the search finds)
--   Audit/Pe, Evidence, Draft          scripts/audit-gameviewer.py, parse_pe, all_occurrences,
--                            proposed_replacement, inspect_release
--   Audit/Finalize           scripts/audit-gameviewer.py, finalize_manifest
--   Audit/Normalized         scripts/compare-pe-normalized.py, normalized_bytes
--   Patcher                  scripts/patch-gameviewer.py, patch_file, restore_file, verify_file
--   Promotion/Acceptance     promotion_acceptance of scripts/uu_update_manager.py and
--                            validate_acceptance of scripts/promote-approved-release.py
--   Promotion/Login          scripts/promote-approved-release.py, directory_state to
--                            login_state_is_preserved
--   Promotion/Transaction    scripts/promote-approved-release.py, Promotion.apply and Promotion.recover
--   Promotion/Preflight      scripts/promote-approved-release.py, Promotion.preflight,
--                            verify_checkout, current_runtime_check
--   Updater/Tasks            scripts/uu_update_manager.py, the files of Manager, save_task,
--                            write_status; Actions and Ids hold the lemmas on these
--   Updater/Version, Releases          version_key, approved_releases
--   Updater/Queue            Manager.queue_task, queue_promotion
--   Updater/Check            Manager.check
--   Updater/Health           Manager.health, restart_bridge, reinstall_known_good, monitor_health
--   Updater/Promotion        Manager.run_promotion, promotion_paths, recover_interrupted_promotion
--   Updater/Repair           Manager.retry_task, monitor on a repair task, run_codex, verify_repair,
--                            finish_task
--   Updater/Config           Config.read
--   Updater/Download         Manager.download_release, record_download, cached_download
--   Updater/Staging          Manager.refresh_operator_staging
--   Updater/Budget           codex_budget_from_rate_limits
--   Updater/Commands         Manager.monitor, promote_now, main
--   Updater/Lifecycle        the abstract life of a task, as a step relation, and its invariant
--                            (*/Steps: a command takes only such steps; */Gate: what must hold before
--                            a promotion is queued)
--   Registry                 scripts/inspect-wine-device-registry.py, parse_registry, inspect
--   Trace                    scripts/uu_controller_trace.py, parse_event_block, XInputCollector,
--                            greedy_pairs, summarize
--   Connection               scripts/uu_connection_status.py, load_reports to summarize
--   Tests/*                  runs at small inputs
--
-- How the parts interact. `check` reads the approved releases and queues a promotion or a repair
-- (Updater/Queue) as the one pending task. `monitor` recovers an interrupted promotion, then runs the
-- pending task (Updater/Promotion or Updater/Repair), or, without one, looks after the bridge
-- (Updater/Health), which may queue a repair. `promote_now` and `retry_task` are the operator's. A
-- promotion is a run of promote-approved-release.py: its preflight (Promotion/Preflight), then the
-- transaction (Promotion/Transaction), whose manifests are those of Patchlib.
-- A manifest begins as a draft of the audit (Audit/Draft), which is read again when it is finalized
-- (Audit/Finalize), with the validation and the patching of Patchlib.
--
-- How it is modelled. A raise is an error value. State is passed on: files are a function from paths,
-- the promotion's world is a record of the prefix, the snapshot, the marker and the result. A method of
-- Manager is an action on a Store, the record of the manager's files, which returns or raises and
-- leaves the files as they are at that point; it counts the commands that touch the live machine. The
-- manager's writes of its own files are taken to succeed; the promotion's may fail, each of them. What
-- other programs do (sha256, git, systemctl, cp, install.sh, verify.sh, Codex, the network, the clock)
-- is an argument of the functions that use it, a record of observations. Numbers are natural numbers;
-- Python's integers do not wrap. Loops are structural recursion: the wait of Manager.restart_bridge is
-- over the 24 rounds of its loop. Four functions run on fuel: search_anchors of
-- Patchlib/Locate and occurrences_from of Python/Bytes on the length of the data and two more, since
-- each place lies behind the one before, decimal of Promotion/Login and hex_digits of Python/Format on
-- the number and one more, since each step divides it.
--
-- Not modelled: printing and argument parsing, the texts of messages, of the audit's report and of the
-- context that Codex is given, the network and git, disassembly and the tools that the audit runs, the
-- call that reads Codex's rate limits, the copies that reinstall_known_good takes and restores, a write
-- of the manager's files that fails, threads and window queries, shell scripts and C code.
pub mod Prelude
pub mod Python
pub mod Patchlib
pub mod Patcher
pub mod Audit
pub mod Promotion
pub mod Updater
pub mod Registry
pub mod Trace
pub mod Connection
pub mod Tests
