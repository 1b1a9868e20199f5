-- ===== src/Coordinator/History.antt =====
-- coordinator.py: what was already observed of a round may not be rolled back or changed.
use mt.Base.{
  String, ◌<>◌, Bool, true, false, ◌&&◌, ◌||◌, not, Option, none, some, ℤ, pos, int_ltb, ◌==◌,
  show_int, if◌then◌else◌,
}
use mt.Json.{Value, bool, int, Fields, Python, get, as_dict, eq_int, eq_text}
use mt.Errors.{want, Result, ok, fail, refuse_if, round_refused, ◌>>=◌, ◌>>◌}
use mt.Coordinator.Signed.{SignedFields}
use mt.Coordinator.Round.{Bounds}

-- `isinstance(v, int)`, which takes `bool` in.
abbrev pub integral : Value → Option ℤ
integral (int n) = some n
integral (bool true) = some (pos 1)
integral (bool false) = some (pos 0)
integral _ = none

-- `isinstance(previous_index, int) and index < previous_index`
unfoldable pub rolled_back : Value → ℤ → Bool
rolled_back v index = elim (integral v) [ none ↦ false | some n ↦ int_ltb index n ]

-- The window that was observed before is the window that is served now.
unfoldable pub same_window : Python → Fields → Bounds → String → Bool
same_window py old b config_hash =
    eq_int py (get "start_block" old) b.start
    && eq_int py (get "close_block" old) b.close
    && eq_int py (get "end_block" old) b.end_block
    && eq_text (get "config_hash" old) config_hash

unfoldable pub same_identity : Python → Fields → Bounds → String → SignedFields → Bool
unfolding same_window
same_identity py old b config_hash v =
    eq_int py (get "round" old) b.index
    && same_window py old b config_hash
    && eq_int py (get "seed_block" old) v.seed_block
    && eq_text (get "mechanism_version" old) v.mechanism_version
    && eq_text (get "corpus_version" old) v.corpus_version
    && eq_text (get "corpus_digest" old) v.corpus_digest

-- Submissions may go over to evaluation; evaluation keeps its phase and its seed hash.
unfoldable pub check_phase : Fields → Bounds → SignedFields → Result (Unit {0})
check_phase old b v =
    let round = show_int b.index in
    if eq_text (get "phase" old) "submissions"
    then refuse_if
        (not (eq_text (get "block_hash" old) "")
          || not (b.phase == "submissions" || b.phase == "evaluation"))
        round_refused ("coordinator changed the observed seed state for round " <> round)
    else if eq_text (get "phase" old) "evaluation"
    then refuse_if
        (not (b.phase == "evaluation") || not (eq_text (get "block_hash" old) v.block_hash))
        round_refused ("coordinator regressed or changed evaluation for round " <> round)
    else fail round_refused
        ("coordinator round " <> round <> " has an invalid previously observed phase")

unfoldable pub check_observed :
    Python → Fields → Bounds → String → Option SignedFields → Result (Unit {0})
check_observed py old b config_hash none =
    refuse_if (not (same_window py old b config_hash)) round_refused
      ("coordinator changed the already observed window for round " <> show_int b.index)
check_observed py old b config_hash (some v) = do
  refuse_if (not (same_identity py old b config_hash v)) round_refused
      ("coordinator changed the already observed identity for round " <> show_int b.index)
  check_phase old b v

-- `previous` is the persisted status document.
unfoldable pub check_history :
    Python → Fields → Bounds → String → Option SignedFields → Result (Unit {0})
check_history py previous b config_hash v030 = do
  let previous_index = get "last_coordinator_round" previous
  refuse_if (rolled_back previous_index b.index) round_refused (
      "coordinator rolled back from observed round "
      <> py.repr previous_index
      <> " to "
      <> show_int b.index)
  let changed : Result (Unit {0}) = do
    old ←
        want (as_dict (get "last_coordinator_window" previous)) round_refused (
          "coordinator round " <> show_int b.index <> " has no complete previously observed window")
    check_observed py old b config_hash v030
  if eq_int py previous_index b.index then changed else ok tt
