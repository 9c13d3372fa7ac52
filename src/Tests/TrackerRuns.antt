-- ===== src/Tests/TrackerRuns.antt =====
-- Two goroutines at one record: the theorems of the tracker at a state they reach.
use card_client.Prelude.{ℕ, true, ◌≡◌, ◌↔◌, refl}
use card_client.Prelude.Assoc.{lookup, insert}
use card_client.Tracker.Locks.{
  Tracker, holding, new, look, create, acquire, mark, release, looks, creates, acquires, marks,
  releases, Reach, start, next, is_item_locked,
}
use card_client.Tracker.Exclusion.{mutual_exclusion, is_item_locked_iff}

-- Goroutines 0 and 1 both look for record 7 and find no mutex; 0 makes it, then 1 finds it.
abbrev both_wait : Tracker
unfolding new look create
both_wait = create (create (look (look new 0 7) 1 7) 0 7) 1 7

both_wait-Reach : Reach both_wait
unfolding both_wait new look create lookup insert
both_wait-Reach =
    next (next (next (next start (looks 0 7 refl)) (looks 1 7 refl)) (creates 0 7 refl))
      (creates 1 7 refl)

abbrev one_holds : Tracker
unfolding both_wait acquire mark
one_holds = mark (acquire both_wait 0 7 0) 0 7 0

one_holds-Reach : Reach one_holds
unfolding one_holds both_wait new look create acquire mark lookup insert
one_holds-Reach = next (next both_wait-Reach (acquires 0 7 0 refl refl)) (marks 0 7 0 refl)

abbrev one_releases : Tracker
unfolding one_holds release
one_releases = release one_holds 0 7

one_releases-Reach : Reach one_releases
unfolding one_releases one_holds both_wait new look create acquire mark release lookup insert
one_releases-Reach = next one_holds-Reach (releases 0 7 refl)

mutual_exclusion_example : ◌≡◌ {A = ℕ} 0 0
unfolding one_holds both_wait new look create acquire mark lookup insert
mutual_exclusion_example = mutual_exclusion 0 0 7 one_holds-Reach refl refl

is_item_locked_iff_example :
    (is_item_locked one_holds 7 ≡ true) ↔ ((t : ℕ) × (one_holds.pc t ≡ holding 7))
is_item_locked_iff_example = is_item_locked_iff 7 one_holds-Reach
