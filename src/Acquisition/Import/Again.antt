-- ===== src/Acquisition/Import/Again.antt =====
-- Importing the same events again (internal/acquisition/import_integration.go).
use atb.Prelude.{ℕ, ◌≡◌, refl, subst, String, Bool, true, false, List, [], ◌∷◌, none, All, map}
use atb.Prelude.Result.{ok}
use atb.Canonicalize.{Platform}
use atb.Bundle.{Record, Codec, has_manifest_record}
use atb.Bundle.Verify.{verify_bundle}
use atb.Acquisition.Reconcile.{load_from_bundle}
use atb.Acquisition.Import.{
  ImportEvent, ReconcileCounts, ReconcileAction, no_counts, writes_acquisition, writes_from,
}
use atb.Acquisition.Import.Plan.{plan_reconciliation}
use atb.Acquisition.Import.Write.{apply_from, apply_reconciliation}
use atb.Acquisition.Import.Sourced.{known_of, HasSource, key_of, IsKnown}
use atb.Acquisition.Import.Planned.{plan_from-IsJustified}
use atb.Acquisition.Import.Quiet.{IsQuiet, plan_from-IsQuiet}
use atb.Acquisition.Import.Apply.{apply_from-IsKnown}

-- A plan whose actions are all skipped changes nothing.
apply_from-skips :
    (pf : Platform) (c : Codec) (clock : ℕ → String) (rs : List Record) (counts : ReconcileCounts)
    (actions : List ReconcileAction)
    → All (λ a. a.skip ≡ true) actions
    → apply_from pf c clock rs counts actions ≡ ok (counts, rs)
unfolding apply_from
apply_from-skips pf c clock rs counts [] all = refl
apply_from-skips pf c clock rs counts (a ∷ rest) (s, all) =
    rw (s, apply_from) (apply_from-skips pf c clock rs counts rest all)

writes_from-skips :
    (actions : List ReconcileAction)
    → All (λ a. a.skip ≡ true) actions
    → writes_from actions ≡ false
writes_from-skips [] all = refl
writes_from-skips (a ∷ rest) (s, all) = rw s (writes_from-skips rest all)

IsKnown-events :
    (digest : String → String) (rs : List Record) (actions : List ReconcileAction)
    → All (λ a. IsKnown digest (known_of rs) (key_of a.event.acquisition)) actions
    → All (λ ev. IsKnown digest (known_of rs) (key_of ev.acquisition)) (map (λ a. a.event) actions)
IsKnown-events digest rs [] all = tt
IsKnown-events digest rs (a ∷ rest) (k, all) = (k, IsKnown-events digest rs rest all)

-- After an import into a bundle that passes Verify and starts with a manifest, whether it reconciled or
-- not, of events whose source records have stable identities and one digest each, the same events
-- reconciled against the new bundle, which passes Verify, are all planned to be skipped: no source
-- counts as new, changed or unknown, the plan writes no acquisition, and applying it leaves the bundle
-- as it is.
pub reimport-unchanged :
    (pf : Platform) (c : Codec) (clock later : ℕ → String) (digest : String → String)
    (rs rs' : List Record) (evs : List ImportEvent) (re : Bool) (counts : ReconcileCounts)
    → verify_bundle pf rs ≡ none
    → has_manifest_record rs ≡ true
    → All (HasSource digest) evs
    → apply_reconciliation pf c clock rs (plan_reconciliation evs (load_from_bundle [] rs) re)
      ≡ ok (counts, rs')
    → let again = plan_reconciliation evs (load_from_bundle [] rs') true in
      (verify_bundle pf rs' ≡ none)
      × IsQuiet again
      × (writes_acquisition again ≡ false)
      × (apply_reconciliation pf c later rs' again ≡ ok (again.counts, rs'))
unfolding apply_reconciliation plan_reconciliation
reimport-unchanged pf c clock later digest rs rs' evs re counts v s sources h =
    let (planned, events) =
      plan_from-IsJustified digest (known_of rs) re 0 [] (known_of rs) no_counts evs (λ key. refl)
        sources in
    let (ready, _, known) =
      apply_from-IsKnown pf c digest clock rs rs' _ counts _ (record { verified = v; starts = s })
        planned h in
    let quiet =
      plan_from-IsQuiet digest (known_of rs') 0 [] no_counts evs (λ k. tt) (refl, refl, refl, refl)
        sources (subst (All _) events (IsKnown-events digest rs' _ known)) in
    (
      ready.verified,
      quiet,
      writes_from-skips _ quiet.all_skipped,
      apply_from-skips pf c later rs' _ _ quiet.all_skipped,
    )
