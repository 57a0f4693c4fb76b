-- ===== src/Acquisition/Import/Quiet.antt =====
-- The plan of an import whose sources are all known as they are (internal/acquisition/import_integration.go).
use atb.Prelude.{
  ℕ, suc, ◌≡◌, sym, ap, subst, ◌∙◌, String, true, false, List, [], ◌∷◌, Option, none, some, All,
  str_eq, inl, inr, Bool-cases, Option-cases,
}
use atb.Prelude.Map.{Map, lookup, put}
use atb.Event.{AcquisitionInfo}
use atb.Acquisition.Reconcile.{unchanged, KnownRecord, identity_key, identity_of, is_unstable}
use atb.Acquisition.Import.{ImportEvent, ReconcileCounts, ReconciliationPlan}
use atb.Acquisition.Import.Plan.{
  Decision, decide, settled, action_of, tally, plan_from, with_action,
}
use atb.Acquisition.Import.Sourced.{HasSource, key_of, IsKnown}
use atb.Acquisition.Import.Decide.{decision_key-stable, decide-known}
use atb.Acquisition.Import.Planned.{plan_from-key}

-- The counts of a plan that writes nothing.
pub record IsQuiet (p : ReconciliationPlan) : Type 0 where
  pub all_skipped : All (λ a. a.skip ≡ true) p.actions
  pub none_new : p.counts.new_count ≡ 0
  pub none_changed : p.counts.changed ≡ 0
  pub none_unknown : p.counts.unknown ≡ 0
  pub none_written : p.counts.written ≡ 0

more :
    (ev : ImportEvent) (d : Decision)
    → d.skip ≡ true
    → {p : ReconciliationPlan} → IsQuiet p
    → IsQuiet (with_action (action_of ev d) p)
unfolding action_of
more ev d s quiet = record {
  all_skipped = (s, quiet.all_skipped);
  none_new = quiet.none_new;
  none_changed = quiet.none_changed;
  none_unknown = quiet.none_unknown;
  none_written = quiet.none_written;
}

module _ (digest : String → String) (m : Map KnownRecord) where
  abbrev Skips : Option Decision → Type 0
  Skips none = Unit
  Skips (some d) = d.skip ≡ true

  Skips-put :
      (ds : Map Decision) (key : String) (d : Decision)
      → d.skip ≡ true
      → ((k : String) → Skips (lookup k ds))
      → (k : String) → Skips (lookup k (put key d ds))
  Skips-put ds key d s all k = elim (Bool-cases (str_eq key k)) [
    | inl e ↦ rw e s
    | inr e ↦ rw e (all k)
  ]

  -- Only the count of unchanged sources moves while every source is known as it is.
  abbrev IsIdle : ReconcileCounts → Type 0
  IsIdle c = (c.new_count ≡ 0) × (c.changed ≡ 0) × (c.unknown ≡ 0) × (c.written ≡ 0)

  pub plan_from-IsQuiet :
      (i : ℕ) (ds : Map Decision) (c : ReconcileCounts) (evs : List ImportEvent)
      → ((k : String) → Skips (lookup k ds))
      → IsIdle c
      → All (HasSource digest) evs
      → All (λ ev. IsKnown digest m (key_of ev.acquisition)) evs
      → IsQuiet (plan_from true i ds m c evs)
  unfolding plan_from settled action_of
  plan_from-IsQuiet i ds c [] skips idle sources known = record {
    all_skipped = tt;
    none_new = idle.0;
    none_changed = idle.1;
    none_unknown = idle.2;
    none_written = idle.3;
  }
  plan_from-IsQuiet i ds c (ev ∷ evs) skips idle ((acq, q, u, d), sources) (here, known) =
      let key = identity_key (identity_of acq) in
      let k = decision_key-stable acq u i ev q in
      elim (Option-cases (lookup key ds)) [
        | inr (old, e) ↦
            let s : old.skip ≡ true = subst Skips e (skips key) in
            subst IsQuiet (sym (plan_from-key true i ds m c ev evs key (some old) k e)) (
              more ev old s (
                plan_from-IsQuiet (suc i) (put key (settled old) ds) c evs
                  (Skips-put ds key (settled old) s skips) idle sources known))
        | inl e ↦
            let (s, result, kept) = decided_known acq u q d here in
            let made = (decide true m ev.acquisition).0 in
            let ds' = put key (settled made) ds in
            let rest =
              plan_from-IsQuiet (suc i) ds' (tally (some unchanged) c) evs
                (Skips-put ds key (settled made) s skips) (unfold tally in idle) sources known in
            subst IsQuiet (sym (plan_from-key true i ds m c ev evs key none k e)) (
              more ev made s (
                subst (λ n. IsQuiet (plan_from true (suc i) ds' n (tally made.result c) evs))
                  (sym kept)
                  (subst (λ r. IsQuiet (plan_from true (suc i) ds' m (tally r c) evs)) (sym result)
                    rest)))
      ]
    where
      decided_known :
          (acq : AcquisitionInfo)
          → is_unstable (identity_of acq) ≡ false
          → ev.acquisition ≡ some acq
          → acq.source_digest ≡ digest (identity_key (identity_of acq))
          → IsKnown digest m (key_of ev.acquisition)
          → ((decide true m ev.acquisition).0.skip ≡ true)
            × ((decide true m ev.acquisition).0.result ≡ some unchanged)
            × ((decide true m ev.acquisition).1 ≡ m)
      decided_known acq u q d here =
          subst
            (λ o.
              ((decide true m o).0.skip ≡ true)
              × ((decide true m o).0.result ≡ some unchanged)
              × ((decide true m o).1 ≡ m))
            (sym q)
            (decide-known acq u m
              (subst (λ o. IsKnown digest m (key_of o)) q here ∙ ap some (sym d)))
