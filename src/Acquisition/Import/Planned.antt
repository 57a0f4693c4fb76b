-- ===== src/Acquisition/Import/Planned.antt =====
-- What the plan of an import skips (internal/acquisition/import_integration.go).
use atb.Prelude.{
  ℕ, suc, ◌≡◌, refl, sym, ap, subst, ◌∙◌, String, Bool, true, false, List, [], ◌∷◌, Option, none,
  some, All, str_eq, eq_iff, inl, inr, Bool-cases, Option-cases, map,
}
use atb.Prelude.Map.{Map, lookup, put}
use atb.Acquisition.Reconcile.{KnownRecord, identity_key, identity_of}
use atb.Acquisition.Reconcile.Laws.{digest_of}
use atb.Acquisition.Import.{ImportEvent, ReconcileCounts, ReconcileAction, ReconciliationPlan}
use atb.Acquisition.Import.Plan.{
  Decision, decide, decision_key, settled, action_of, tally, plan_from, with_action,
}
use atb.Acquisition.Import.Sourced.{HasSource, key_of, IsKnown}
use atb.Acquisition.Import.Decide.{decision_key-stable, decide-skip, decide-other}

-- The loop at a key that was decided, and at a new one.
module _ (re : Bool) (i : ℕ) (ds : Map Decision) (m : Map KnownRecord) (c : ReconcileCounts)
    (ev : ImportEvent) (evs : List ImportEvent) where
  abbrev round : String → Option Decision → ReconciliationPlan
  round key (some d) =
      with_action (action_of ev d) (plan_from re (suc i) (put key (settled d) ds) m c evs)
  round key none = with_action (action_of ev (decide re m ev.acquisition).0) (
      plan_from re (suc i) (put key (settled (decide re m ev.acquisition).0) ds)
        (decide re m ev.acquisition).1 (tally (decide re m ev.acquisition).0.result c) evs)

  plan_from-round :
      (o : Option Decision)
      → lookup (decision_key i ev) ds ≡ o
      → plan_from re i ds m c (ev ∷ evs) ≡ round (decision_key i ev) o
  unfolding plan_from
  plan_from-round none q = rw (plan_from, q) refl
  plan_from-round (some d) q = rw (plan_from, q) refl

  pub plan_from-key :
      (key : String) (o : Option Decision)
      → decision_key i ev ≡ key
      → lookup key ds ≡ o
      → plan_from re i ds m c (ev ∷ evs) ≡ round key o
  plan_from-key key o k q = plan_from-round o (ap (λ j. lookup j ds) k ∙ q) ∙ ap (λ j. round j o) k

module _ (digest : String → String) (start : Map KnownRecord) where
  -- A key without a decision is known as at the start; one whose decision is to skip has its digest.
  abbrev IsDecided : Map KnownRecord → String → Option Decision → Type 0
  IsDecided m key none = lookup key m ≡ lookup key start
  IsDecided m key (some d) = d.skip ≡ true → IsKnown digest start key

  abbrev AreDecided : Map KnownRecord → Map Decision → Type 0
  AreDecided m ds = (key : String) → IsDecided m key (lookup key ds)

  AreDecided-put :
      (m known : Map KnownRecord) (ds : Map Decision) (key : String) (d : Decision)
      → (d.skip ≡ true → IsKnown digest start key)
      → ((other : String) → str_eq key other ≡ false → lookup other known ≡ lookup other m)
      → AreDecided m ds
      → AreDecided known (put key d ds)
  AreDecided-put m known ds key d s others all other = elim (Bool-cases (str_eq key other)) [
    | inl e ↦ rw e (λ p. subst (IsKnown digest start) ((eq_iff key other).0 e) (s p))
    | inr e ↦ rw e (later (lookup other ds) (all other) (others other e))
  ]
    where
      later :
          (o : Option Decision)
          → IsDecided m other o
          → lookup other known ≡ lookup other m
          → IsDecided known other o
      later none p q = q ∙ p
      later (some d) p q = p

  -- An action of the plan whose source was known as it is, if the action is skipped.
  abbrev pub IsJustified : ReconcileAction → Type 0
  IsJustified a =
      HasSource digest a.event × (a.skip ≡ true → IsKnown digest start (key_of a.event.acquisition))

  pub plan_from-IsJustified :
      (re : Bool) (i : ℕ) (ds : Map Decision) (m : Map KnownRecord) (c : ReconcileCounts)
      (evs : List ImportEvent)
      → AreDecided m ds
      → All (HasSource digest) evs
      → let p = plan_from re i ds m c evs in
        All IsJustified p.actions × (map (λ a. a.event) p.actions ≡ evs)
  unfolding plan_from settled action_of
  plan_from-IsJustified re i ds m c [] decided all = (tt, refl)
  plan_from-IsJustified re i ds m c (ev ∷ evs) decided ((acq, q, u, d), all) =
      let key = identity_key (identity_of acq) in
      let k = decision_key-stable acq u i ev q in
      let source : HasSource digest ev = (acq, q, u, d) in
      elim (Option-cases (lookup key ds)) [
        | inr (old, e) ↦
            let skips : old.skip ≡ true → IsKnown digest start key =
              subst (IsDecided m key) e (decided key) in
            let (rest, same) =
              plan_from-IsJustified re (suc i) (put key (settled old) ds) m c evs
                (AreDecided-put m m ds key (settled old) skips (λ other p. refl) decided) all in
            rw (plan_from-key re i ds m c ev evs key (some old) k e) (
              ((source, λ s. subst (λ o. IsKnown digest start (key_of o)) (sym q) (skips s)), rest),
              ap (λ l. ev ∷ l) same,
            )
        | inl e ↦
            let (made, known) = decide re m ev.acquisition in
            let skips : made.skip ≡ true → IsKnown digest start key = λ s.
              sym (ap digest_of (subst (IsDecided m key) e (decided key)))
              ∙ decide-skip acq u m re (subst (λ o. (decide re m o).0.skip ≡ true) q s)
              ∙ ap some d in
            let others : (other : String)
                → str_eq key other ≡ false
                → lookup other known ≡ lookup other m =
              λ other n.
                subst (λ o. lookup other (decide re m o).1 ≡ lookup other m) (sym q)
                  (decide-other acq u m re other n) in
            let (rest, same) =
              plan_from-IsJustified re (suc i) (put key (settled made) ds) known
                (tally made.result c) evs
                (AreDecided-put m known ds key (settled made) skips others decided) all in
            rw (plan_from-key re i ds m c ev evs key none k e) (
              ((source, λ s. subst (λ o. IsKnown digest start (key_of o)) (sym q) (skips s)), rest),
              ap (λ l. ev ∷ l) same,
            )
      ]
