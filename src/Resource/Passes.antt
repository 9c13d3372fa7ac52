-- ===== src/Resource/Passes.antt =====
-- store/resource/resource.go: what one call of `FixIntegrity` does, and how many calls settle a
-- record and its sheet.
use card_client.Prelude.{
  true, false, not, Option, none, some, ◌≡◌, ◌↔◌, ◌⊎◌, refl, arith, ap, subst, sym, Bool-cases, inl,
  inr, ◌∙◌,
}
use card_client.Prelude.Int.{pos, ltb_ℤ}
use card_client.Resource.Types.{Record, Sheet, Toolkit, intact, fixed, latest_update_time}
use card_client.Resource.Integrity.{
  integrity, is_broken, verdict, sync_fields, fix_integrity, Repair, returns, panics,
}
use card_client.Resource.Repair.{
  stamped, agrees, agrees-stamped, stamped-agrees, sync_sheet_fields_lem, record_agrees, settled,
  sync_record_fields_lem,
}

module _ {Rest : Type 0} (k : Toolkit Rest) where
  -- Nothing is left to do.
  abbrev pub IsStable : Record → Sheet Rest → Type 0
  IsStable r s = (agrees k r s ≡ true) × (record_agrees r s ≡ true)

  sync_fields-agrees :
      (r : Record) (s : Sheet Rest)
      → agrees k r s ≡ true
      → sync_fields k r s ≡ (settled r s, s, not (record_agrees r s))
  unfolding sync_fields
  sync_fields-agrees r s h =
      rw (sync_sheet_fields_lem k r s, h, agrees-stamped k r s h, sync_record_fields_lem r s)

  sync_fields-differs :
      (r : Record) (s : Sheet Rest)
      → agrees k r s ≡ false
      → sync_fields k r s ≡ (r, stamped k r s, true)
  unfolding sync_fields
  sync_fields-differs r s h = rw (sync_sheet_fields_lem k r s, h)

  settled-agrees :
      (r : Record) (s : Sheet Rest)
      → ltb_ℤ (pos 0) r.info.update_time ≡ true
      → record_agrees (settled r s) s ≡ true
  unfolding latest_update_time
  settled-agrees r s h = ground arith

  agrees-settled : (r : Record) (s : Sheet Rest) → record_agrees r s ≡ true → settled r s ≡ r
  agrees-settled r s h = ground arith

  positive_of_unbroken :
      (r : Record) (s : Sheet Rest)
      → is_broken k (some r) (some s) ≡ false
      → ltb_ℤ (pos 0) r.info.update_time ≡ true
  unfolding is_broken integrity
  positive_of_unbroken r s h = ground arith

  is_broken-settled :
      (r : Record) (s t : Sheet Rest)
      → is_broken k (some (settled r t)) (some s) ≡ is_broken k (some r) (some s)
  unfolding is_broken integrity
  is_broken-settled r s t = refl

  is_broken-stamped :
      (r q : Record) (s : Sheet Rest)
      → is_broken k (some r) (some (stamped k q s)) ≡ is_broken k (some r) (some s)
  unfolding is_broken
  is_broken-stamped r q s = refl

  abbrev pub Pair : Type 0
  Pair = Record × Sheet Rest

  -- The record and the sheet after one call that finds them unbroken.
  abbrev pub next : Pair → Pair
  next (r, s) = let (r', s', updated) = sync_fields k r s in (r', s')

  abbrev pub IsUnbroken : Pair → Type 0
  IsUnbroken (r, s) = is_broken k (some r) (some s) ≡ false

  next-IsUnbroken : (p : Pair) → IsUnbroken p → IsUnbroken (next p)
  next-IsUnbroken (r, s) h = elim (Bool-cases (agrees k r s)) [
    | inl same ↦ rw (sync_fields-agrees r s same) (is_broken-settled r s s ∙ h)
    | inr differs ↦ rw (sync_fields-differs r s differs) (is_broken-stamped r r s ∙ h)
  ]

  abbrev SheetAgrees : Pair → Type 0
  SheetAgrees (r, s) = agrees k r s ≡ true

  abbrev RecordAgrees : Pair → Type 0
  RecordAgrees (r, s) = record_agrees r s ≡ true

  next-either : (p : Pair) → IsUnbroken p → RecordAgrees (next p) ⊎ SheetAgrees (next p)
  next-either (r, s) h = elim (Bool-cases (agrees k r s)) [
    | inl same ↦
        inl (rw (sync_fields-agrees r s same) (settled-agrees r s (positive_of_unbroken r s h)))
    | inr differs ↦ inr (rw (sync_fields-differs r s differs) (stamped-agrees k r s))
  ]

  next-RecordAgrees : (p : Pair) → IsUnbroken p → SheetAgrees p → RecordAgrees (next p)
  next-RecordAgrees (r, s) h same =
      rw (sync_fields-agrees r s same) (settled-agrees r s (positive_of_unbroken r s h))

  abbrev Stable : Pair → Type 0
  Stable (r, s) = IsStable r s

  Stable-next : (p : Pair) → Stable p → next p ≡ p
  Stable-next (r, s) (same, held) =
      rw (sync_fields-agrees r s same) (ap (λ q. (q, s)) (agrees-settled r s held))

  next_same : (r : Record) (s : Sheet Rest) → IsStable r s → Stable (next (r, s))
  next_same r s h = subst Stable (sym (Stable-next (r, s) h)) h

  next-Stable : (p : Pair) → RecordAgrees p → Stable (next p)
  next-Stable (r, s) held = elim (Bool-cases (agrees k r s)) [
    | inl same ↦ next_same r s (same, held)
    | inr differs ↦ rw (sync_fields-differs r s differs) (stamped-agrees k r s, held)
  ]

  three_calls : (p : Pair) → IsUnbroken p → Stable (next (next (next p)))
  three_calls p h = elim (next-either p h) [
    | inl held ↦
        let stable = next-Stable (next p) held in
        subst Stable (sym (Stable-next (next (next p)) stable)) stable
    | inr same ↦ next-Stable (next (next p)) (next-RecordAgrees (next p) (next-IsUnbroken p h) same)
  ]

  -- One more call of `FixIntegrity` on what an earlier one left.
  abbrev pub again : Repair Rest → Repair Rest
  again panics = panics
  again (returns v r s) = fix_integrity k r s

  abbrev pub calls : Pair → Repair Rest
  calls (r, s) = fix_integrity k (some r) (some s)

  again-calls : (p : Pair) → IsUnbroken p → again (calls p) ≡ calls (next p)
  unfolding fix_integrity
  again-calls (r, s) h = rw h refl

  calls-Stable :
      (p : Pair)
      → IsUnbroken p
      → Stable p
      → calls p ≡ returns (verdict k p.1 false) (some p.0) (some p.1)
  unfolding fix_integrity
  calls-Stable (r, s) h (same, held) =
      rw (h, sync_fields-agrees r s same, held)
        (ap (λ q. returns (verdict k s false) (some q) (some s)) (agrees-settled r s held))

  -- Of a record and a sheet that are not broken, three calls of `FixIntegrity` leave a pair that
  -- agrees, and a fourth changes neither: its verdict is that of a sheet with no update.
  pub fix_integrity-settles :
      (r : Record) (s : Sheet Rest)
      → is_broken k (some r) (some s) ≡ false
      → (r' : Record) × (s' : Sheet Rest) × IsStable r' s'
        × (again (again (again (fix_integrity k (some r) (some s))))
            ≡ returns (verdict k s' false) (some r') (some s'))
  fix_integrity-settles r s h =
      let p1 = next (r, s) in
      let p2 = next p1 in
      let p3 = next p2 in
      let h1 : IsUnbroken p1 = next-IsUnbroken (r, s) h in
      let h2 : IsUnbroken p2 = next-IsUnbroken p1 h1 in
      let h3 : IsUnbroken p3 = next-IsUnbroken p2 h2 in
      let stable : Stable p3 = three_calls (r, s) h in
      (
        p3.0,
        p3.1,
        stable,
        ap (λ c. again (again c)) (again-calls (r, s) h)
            ∙ ap again (again-calls p1 h1)
            ∙ again-calls p2 h2
            ∙ calls-Stable p3 h3 stable,
      )

  -- `FixIntegrity` says `intact` only of a record and a sheet that agree, where the sheet's own check
  -- holds, and then changes neither.
  pub fix_integrity-intact :
      (r : Record) (s : Sheet Rest) {r' : Option Record} {s' : Option (Sheet Rest)}
      → fix_integrity k (some r) (some s) ≡ returns intact r' s'
      → IsStable r s × (k.sheet_integrity s ≡ true) × (r' ≡ some r) × (s' ≡ some s)
  unfolding fix_integrity
  fix_integrity-intact r s h = elim (Bool-cases (agrees k r s)) [
    | inl same ↦ ground (arith, sync_fields-agrees r s same, agrees-settled r s)
    | inr differs ↦ ground (arith, sync_fields-differs r s differs)
  ]

  -- On a pair that is not broken, whose sheet is out of step with the record and whose record is out
  -- of step with the sheet, `FixIntegrity` updates the sheet only and says `fixed` if the new sheet
  -- passes its own check; the record is then still out of step.
  pub fix_integrity-skips_record :
      (r : Record) (s : Sheet Rest)
      → is_broken k (some r) (some s) ≡ false
      → agrees k r s ≡ false
      → record_agrees r s ≡ false
      → k.sheet_integrity (stamped k r s) ≡ true
      → (fix_integrity k (some r) (some s) ≡ returns fixed (some r) (some (stamped k r s)))
        × (record_agrees r (stamped k r s) ≡ false)
  unfolding fix_integrity
  fix_integrity-skips_record r s whole differs owes sound =
      (rw (whole, sync_fields-differs r s differs, sound) refl, owes)

  -- `FixIntegrity` panics exactly where the record and the sheet are both nil.
  pub fix_integrity-nil :
      (r : Option Record) (s : Option (Sheet Rest))
      → (fix_integrity k r s ≡ panics) ↔ ((r ≡ none) × (s ≡ none))
  unfolding fix_integrity
  fix_integrity-nil none none = ground arith
  fix_integrity-nil none (some s) = ground arith
  fix_integrity-nil (some r) none = ground arith
  fix_integrity-nil (some r) (some s) = ground arith
