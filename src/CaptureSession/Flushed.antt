-- ===== src/CaptureSession/Flushed.antt =====
-- What the files hold once the pending entries were brought into the bundle, whether or not there was
-- something to save (internal/proxy/capture.go).
use atb.Prelude.{
  ℕ, ◌≡◌, refl, sym, ap, subst, ◌∙◌, String, List, [], ◌∷◌, ◌++◌, Option, some, length, All,
  append-nil, arith, inl, inr, List-cases,
}
use atb.Prelude.Int.{pos}
use atb.Prelude.Map.{lookup}
use atb.Prelude.Result.{ok, ◌>>=◌, >>=-eq-ok}
use atb.Canonicalize.{Platform}
use atb.Bundle.{Record, Codec}
use atb.CaptureJournal.{Entry}
use atb.CaptureJournal.Append.{entries_from}
use atb.CaptureSession.{ObservationCodec, index_acquisition, validate_entry}
use atb.CaptureSession.Drain.{Drained, drain_entry, replay, drain}
use atb.CaptureSession.Settled.{IsCommitted, IsNamed, Grown, replay-Grown}
use atb.CaptureSession.Loaded.{
  Loaded, stored, IsStored, AreCovered, all_committed, IsNamed-pending, Loaded-committed,
}

-- The state in which both loops start.
abbrev pub at_start : List Record → Drained
at_start rs = record { records = rs; index = index_acquisition rs; appended = 0 }

-- The file behind the call: a bundle in which every entry is committed, and what was committed still is.
pub record Flushed (pf : Platform) (before after : Option (List Record)) (es : List Entry)
    : Type 0 where
  pub is_stored : IsStored pf after
  pub committed : All (IsCommitted (stored after)) es
  pub kept : (e : Entry) → IsCommitted (stored before) e → IsCommitted (stored after) e

module _ (pf : Platform) (c : Codec) (oc : ObservationCodec) (stream : String) where
  -- commitPending's loop is recover's with the validation of each entry.
  pub drain-replay :
      (incarnation : String) (s t : Drained) (es : List Entry)
      → drain pf c oc stream incarnation s es ≡ ok t
      → replay pf c oc stream s es ≡ ok t
  unfolding drain replay
  drain-replay incarnation s t [] h = h
  drain-replay incarnation s t (e ∷ es) h =
      let (_, _, q) = >>=-eq-ok (validate_entry pf incarnation e) _ h in
      let (more, p, r) = >>=-eq-ok (drain_entry pf c oc stream s e) _ q in
      ap (λ m. m >>= λ x. replay pf c oc stream x es) p ∙ drain-replay incarnation more t es r

  module _ (b : Option (List Record)) (rs : List Record) (p : ℕ) (es : List Entry) (d : Drained)
      (l : Loaded pf b rs) (named : All IsNamed es) (covered : AreCovered (stored b) p es)
      (h : replay pf c oc stream (at_start rs) (entries_from (pos p) es) ≡ ok d) where
    -- The loop commits all entries of the journal.
    pub replay-committed_all : Grown pf (at_start rs) d × All (IsCommitted d.records) es
    replay-committed_all =
        let (g, pending) =
          replay-Grown pf c oc stream (at_start rs) d (entries_from (pos p) es) l.ready
            (λ key. refl) (IsNamed-pending p es named) h in
        (
          g,
          all_committed (stored b) d.records p es
              (λ e k. g.kept _ _ (Loaded-committed pf b rs e l k)) covered pending,
        )

    pub saved-Flushed : Flushed pf b (some d.records) es
    saved-Flushed =
        let (g, all) = replay-committed_all in
        record {
          is_stored = g.ready;
          committed = all;
          kept = λ e k. g.kept _ _ (Loaded-committed pf b rs e l k);
        }

    -- Nothing is appended only if the file holds the entries already.
    pub unsaved-Flushed : IsStored pf b → d.appended ≡ 0 → Flushed pf b b es
    unsaved-Flushed ready none_new =
        let (g, all) = replay-committed_all in
        record { is_stored = ready; committed = here (none_more d g none_new) all; kept = λ e k. k }
      where
        none_more : (d : Drained) → Grown pf (at_start rs) d → d.appended ≡ 0 → d.records ≡ rs
        none_more d g z = elim (List-cases g.more) [
          | inl q ↦ g.grown ∙ ap (λ l. rs ++ l) q ∙ append-nil rs
          | inr (r, more, q) ↦ absurd (omega (arith, z, g.counted, ap length q))
        ]

        no_entries :
            (es : List Entry)
            → index_acquisition rs ≡ []
            → All (IsCommitted rs) es
            → All (IsCommitted (stored b)) es
        no_entries [] i all = tt
        no_entries (e ∷ es) i (k, all) =
            cc (subst (λ m. lookup e.observation_id m ≡ some e.representation_digest) i k)

        here : d.records ≡ rs → All (IsCommitted d.records) es → All (IsCommitted (stored b)) es
        here same all = elim l.source [
          | inl q ↦
              subst (λ x. All (IsCommitted (stored x)) es) (sym q)
                (subst (λ x. All (IsCommitted x) es) same all)
          | inr (_, i) ↦ no_entries es i (subst (λ x. All (IsCommitted x) es) same all)
        ]
