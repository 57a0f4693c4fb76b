-- ===== src/Acquisition/Import/Apply.antt =====
-- What applying a plan makes known of its sources (internal/acquisition/import_integration.go).
use atb.Prelude.{
  ℕ, ◌≡◌, sym, ap, subst, String, true, List, [], ◌∷◌, length, All, arith, inl, inr, Bool-cases,
  Option-cases,
}
use atb.Prelude.Result.{Result, ok, err, >>=-eq-ok}
use atb.Canonicalize.{Platform}
use atb.Bundle.{Record, Error, Codec}
use atb.Acquisition.Import.{ImportEvent, ReconcileCounts, ReconcileAction}
use atb.Acquisition.Import.Write.{
  ImportError, finding_not_appended, event_not_appended, relabel, append_acquisition_finding,
  append_finding, append_event, event_options, finding_options, write_action, apply_from,
}
use atb.Acquisition.Import.Sourced.{
  IsReady, Added, append-Added, known_of, known_of-bare, sourced-IsKnown, HasSource, key_of,
  IsKnown,
}

pub relabel-ok :
    (f : Error → ImportError) (m : Result Error (List Record)) {rs : List Record}
    → relabel f m ≡ ok rs
    → m ≡ ok rs
relabel-ok f (err e) p = cc
relabel-ok f (ok r) p = cc

module _ (pf : Platform) (c : Codec) where
  -- A finding leaves the known records as they are.
  append_finding-known_of :
      (now : String) (rs rs' : List Record) (a : ReconcileAction)
      → IsReady pf rs
      → append_finding pf c now rs a ≡ ok rs'
      → IsReady pf rs' × (known_of rs' ≡ known_of rs)
  unfolding append_finding append_acquisition_finding finding_options
  append_finding-known_of now rs rs' a ready h = elim (Option-cases a.finding) [
    | inl e ↦
        let same : rs ≡ rs' = ground (arith) in
        (subst (IsReady pf) same ready, ap known_of (sym same))
    | inr (f, e) ↦ elim (Option-cases a.event.acquisition) [
      | inl n ↦ absurd (ground arith)
      | inr (acq, n) ↦
          let h₁ = relabel-ok finding_not_appended _ (rw (e, n) at h) in
          let added = append-Added pf c rs rs' _ _ _ ready h₁ in
          (added.ready, known_of-bare pf rs rs' added)
    ]
  ]

  module _ (digest : String → String) where
    -- What is known stays known, and the source of the event becomes so.
    append_event-IsKnown :
        (rs rs' : List Record) (ev : ImportEvent)
        → IsReady pf rs
        → HasSource digest ev
        → append_event pf c rs ev ≡ ok rs'
        → IsReady pf rs'
          × ((key : String) → IsKnown digest (known_of rs) key → IsKnown digest (known_of rs') key)
          × IsKnown digest (known_of rs') (key_of ev.acquisition)
    unfolding append_event event_options
    append_event-IsKnown rs rs' ev ready (acq, q, u, d) h =
        let added = append-Added pf c rs rs' _ _ _ ready (relabel-ok event_not_appended _ h) in
        let (keeps, known) =
          sourced-IsKnown pf rs rs' digest acq ready u d (subst (Added pf rs rs') q added) in
        (added.ready, keeps, subst (λ o. IsKnown digest (known_of rs') (key_of o)) (sym q) known)

    -- What an action that is written leaves known.
    write_action-IsKnown :
        (clock : ℕ → String) (rs rs' : List Record) (a : ReconcileAction)
        → IsReady pf rs
        → HasSource digest a.event
        → write_action pf c clock rs a ≡ ok rs'
        → IsReady pf rs'
          × ((key : String) → IsKnown digest (known_of rs) key → IsKnown digest (known_of rs') key)
          × IsKnown digest (known_of rs') (key_of a.event.acquisition)
    unfolding write_action
    write_action-IsKnown clock rs rs' a ready source h =
        let (found, p, q) = >>=-eq-ok (append_finding pf c (clock (length rs)) rs a) _ h in
        let (ready₁, same) = append_finding-known_of _ rs found a ready p in
        let (ready₂, keeps, known) = append_event-IsKnown found rs' a.event ready₁ source q in
        (ready₂, λ key k. keeps key (subst (λ m. IsKnown digest m key) (sym same) k), known)

    -- The event of an action has its source, which is known already if the action is skipped.
    abbrev pub IsPlanned : List Record → ReconcileAction → Type 0
    IsPlanned rs a =
        HasSource digest a.event
        × (a.skip ≡ true → IsKnown digest (known_of rs) (key_of a.event.acquisition))

    IsPlanned-kept :
        (rs rs' : List Record)
        → ((key : String) → IsKnown digest (known_of rs) key → IsKnown digest (known_of rs') key)
        → (actions : List ReconcileAction) → All (IsPlanned rs) actions
        → All (IsPlanned rs') actions
    IsPlanned-kept rs rs' keeps [] all = tt
    IsPlanned-kept rs rs' keeps (a ∷ rest) ((source, known), all) =
        ((source, λ s. keeps _ (known s)), IsPlanned-kept rs rs' keeps rest all)

    -- What the loop of applyReconciliation leaves known.
    pub apply_from-IsKnown :
        (clock : ℕ → String) (rs rs' : List Record) (counts counts' : ReconcileCounts)
        (actions : List ReconcileAction)
        → IsReady pf rs
        → All (IsPlanned rs) actions
        → apply_from pf c clock rs counts actions ≡ ok (counts', rs')
        → IsReady pf rs'
          × ((key : String) → IsKnown digest (known_of rs) key → IsKnown digest (known_of rs') key)
          × All (λ a. IsKnown digest (known_of rs') (key_of a.event.acquisition)) actions
    unfolding apply_from
    apply_from-IsKnown clock rs rs' counts counts' [] ready all h =
        let same : rs ≡ rs' = ground arith in
        (
          subst (IsReady pf) same ready,
          λ key k. subst (λ l. IsKnown digest (known_of l) key) same k,
          tt,
        )
    apply_from-IsKnown clock rs rs' counts counts' (a ∷ rest) ready ((source, known), all) h =
        elim (Bool-cases a.skip) [
          | inl s ↦
              let (ready', keeps, more) =
                apply_from-IsKnown clock rs rs' counts counts' rest ready all (rw s at h) in
              (ready', keeps, (keeps _ (known s), more))
          | inr s ↦
              let (longer, p, q) = >>=-eq-ok (write_action pf c clock rs a) _ (rw s at h) in
              let (ready₁, keeps₁, known₁) =
                write_action-IsKnown clock rs longer a ready source p in
              let (ready', keeps, more) =
                apply_from-IsKnown clock longer rs' _ counts' rest ready₁
                  (IsPlanned-kept rs longer keeps₁ rest all) q in
              (ready', λ key k. keeps key (keeps₁ key k), (keeps _ known₁, more))
        ]
