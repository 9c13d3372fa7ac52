-- ===== src/Tests/RegistryRuns.antt =====
-- An operation that starts, ends and is listed.
use card_client.Prelude.{true, false, none, some, ◌≡◌, refl, arith, contains}
use card_client.Prelude.Int.{pos}
use card_client.Prelude.Assoc.{lookup, insert}
use card_client.Operation.Types.{OperationEntry, update}
use card_client.Operation.Ordered.{OrderedMap, listed_map}
use card_client.Operation.Registry.{
  Registry, new_registry, new_operation, new_entry, mark_terminated, terminated, list_reports,
  active_operations,
}
use card_client.Operation.Counting.{
  Reach, start, next, starts, terminates, lists, count_ongoing, active_operations-count,
}
use card_client.Operation.Lifecycle.{reported_once, ids}
use card_client.Operation.Ends.{at_once, after, refusal, mark_terminated_for_good}

abbrev om : OrderedMap OperationEntry
om = listed_map OperationEntry

abbrev pub running : Registry om
unfolding new_registry new_operation
running = (new_operation om (new_registry om) 5 (pos 1) "vault" update).1

running-Reach : Reach om running
unfolding running new_registry new_operation lookup
running-Reach = next start (starts 5 (pos 1) "vault" update refl)

abbrev ended : Registry om
unfolding running mark_terminated
ended = (mark_terminated om running 5 (pos 2)).1

ended-Reach : Reach om ended
unfolding ended
ended-Reach = next running-Reach (terminates 5 (pos 2))

abbrev ended_entry : OperationEntry
ended_entry = terminated om (new_entry om 5 (pos 1) "vault" update) (pos 2)

active_operations-count_example :
    active_operations om running ≡ pos (count_ongoing (om.entries running.operations))
unfolding running new_registry new_operation insert
active_operations-count_example = active_operations-count om running running-Reach (omega arith)

-- Two listings later the operation is gone.
abbrev gone : Registry om
gone = (list_reports om (list_reports om ended).1).1

mark_terminated_for_good_example :
    (e : OperationEntry) × (om.get running.operations 5 ≡ some e)
    × (om.get ended.operations 5 ≡ some (terminated om e (pos 2)))
    × (mark_terminated om gone 5 (pos 3) ≡ (some (refusal om 5 (om.get gone.operations 5)), gone))
unfolding ended running new_registry new_operation mark_terminated insert lookup
mark_terminated_for_good_example =
    mark_terminated_for_good om 5 running ended gone (pos 2) (pos 3) running-Reach refl
      (after (after at_once lists tt) lists tt)

reported_once_example :
    (contains 5 (ids om (list_reports om ended).0) ≡ true)
    × (contains 5 (ids om (list_reports om (list_reports om ended).1).0) ≡ false)
    × (om.get (list_reports om (list_reports om ended).1).1.operations 5 ≡ none)
unfolding ended running new_registry new_operation mark_terminated insert lookup
reported_once_example = reported_once om ended 5 ended_entry ended-Reach refl refl refl
