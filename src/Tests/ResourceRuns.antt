-- ===== src/Tests/ResourceRuns.antt =====
-- A record and a sheet that are out of step both ways.
use card_client.Prelude.{ℕ, false, some, ◌≡◌, refl}
use card_client.Resource.Types.{Record, Sheet, fixed}
use card_client.Resource.Integrity.{fix_integrity, returns, verdict, is_broken, integrity}
use card_client.Resource.Repair.{stamped, record_agrees}
use card_client.Resource.Passes.{IsStable, again, fix_integrity-settles, fix_integrity-skips_record}
use card_client.Tests.Samples.{toolkit, card_record, blank_sheet}

fix_integrity-settles_example :
    (r' : Record) × (s' : Sheet ℕ) × IsStable toolkit r' s'
    × (again toolkit (
          again toolkit
            (again toolkit (fix_integrity toolkit (some card_record) (some blank_sheet))))
        ≡ returns (verdict toolkit s' false) (some r') (some s'))
unfolding is_broken integrity
fix_integrity-settles_example = fix_integrity-settles toolkit card_record blank_sheet refl

fix_integrity-skips_record_example :
    (fix_integrity toolkit (some card_record) (some blank_sheet)
      ≡ returns fixed (some card_record) (some (stamped toolkit card_record blank_sheet)))
    × (record_agrees card_record (stamped toolkit card_record blank_sheet) ≡ false)
unfolding is_broken integrity
fix_integrity-skips_record_example =
    fix_integrity-skips_record toolkit card_record blank_sheet refl refl refl refl
