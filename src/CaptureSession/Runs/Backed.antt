-- ===== src/CaptureSession/Runs/Backed.antt =====
-- Positions that the bundle backs (internal/proxy/capture.go).
use atb.Prelude.{
  ℕ, suc, ◌+◌, ◌^◌, ◌<◌, ◌≤◌, ◌≡◌, refl, sym, ap, subst, ◌∙◌, String, Bool, true, not, List, [],
  ◌∷◌, ◌++◌, some, length, All, ltb, arith, inl, inr, Option-cases, length-append,
}
use atb.Prelude.Int.{pos, ltb_ℤ}
use atb.Prelude.Decimal.{format_int}
use atb.Prelude.Result.{ok, ◌>>=◌, ◌>>◌, >>=-eq-ok, >>-then, ok_injective, fail_if}
use atb.Canonicalize.{Platform}
use atb.Bundle.{Record, Codec}
use atb.Acquisition.Checkpoint.{Checkpoint}
use atb.CaptureJournal.{Entry}
use atb.CaptureJournal.Append.{last_position}
use atb.CaptureStatus.Position.{checkpoint_position}
use atb.CaptureStatus.Decimal.{checkpoint_position-format_int}
use atb.CaptureStatus.{valid_prefix}
use atb.CaptureSession.{checkpoint_binding}
use atb.CaptureSession.Recover.{
  Coordinator, committed_position, check_continuity, check_existing, check_journal,
}
use atb.CaptureSession.Settled.{IsCommitted}
use atb.CaptureSession.Loaded.{AreCovered}
use atb.CaptureSession.Runs.{IsBacked, ArePlaced}

last_placed :
    (n : ℕ) (e : Entry) (es : List Entry)
    → ArePlaced n (e ∷ es)
    → last_position (e ∷ es) ≡ pos (n + length (e ∷ es))
last_placed n e [] (q, _) = q ∙ ap pos (omega arith)
last_placed n e (f ∷ es) (_, rest) = last_placed (suc n) f es rest ∙ ap pos (omega arith)

-- The last position of a journal is its length.
last_position-length : (es : List Entry) → ArePlaced 0 es → last_position es ≡ pos (length es)
last_position-length [] p = refl
last_position-length (e ∷ es) p = last_placed 0 e es p ∙ ap pos (omega arith)

pub ArePlaced-snoc :
    (n : ℕ) (es : List Entry) (e : Entry)
    → ArePlaced n es
    → e.position ≡ pos (n + length es + 1)
    → ArePlaced n (es ++ e ∷ [])
ArePlaced-snoc n [] e p q = (q ∙ ap pos (omega arith), tt)
ArePlaced-snoc n (f ∷ es) e (h, p) q = (h, ArePlaced-snoc (suc n) es e p (q ∙ ap pos (omega arith)))

pub All-snoc {κ} :
    (P : Entry → Type κ) (es : List Entry) (e : Entry) → All P es → P e → All P (es ++ e ∷ [])
All-snoc P [] e all h = (h, tt)
All-snoc P (f ∷ es) e (g, all) h = (g, All-snoc P es e all h)

AreCovered-all :
    (rs : List Record) (p : ℕ) (es : List Entry) → All (IsCommitted rs) es → AreCovered rs p es
AreCovered-all rs p [] all = tt
AreCovered-all rs p (e ∷ es) (k, all) = (inr k, AreCovered-all rs p es all)

AreCovered-kept :
    (rs rs' : List Record) (p : ℕ) (es : List Entry)
    → ((e : Entry) → IsCommitted rs e → IsCommitted rs' e)
    → AreCovered rs p es
    → AreCovered rs' p es
AreCovered-kept rs rs' p [] keeps c = tt
AreCovered-kept rs rs' p (e ∷ es) keeps (inl b, c) = (inl b, AreCovered-kept rs rs' p es keeps c)
AreCovered-kept rs rs' p (e ∷ es) keeps (inr k, c) =
    (inr (keeps e k), AreCovered-kept rs rs' p es keeps c)

pub IsBacked-kept :
    (position : String) (rs rs' : List Record) (es : List Entry)
    → ((e : Entry) → IsCommitted rs e → IsCommitted rs' e)
    → IsBacked position rs es
    → IsBacked position rs' es
IsBacked-kept position rs rs' es keeps b = record {
  reached = b.reached;
  read = b.read;
  bounded = b.bounded;
  covered = AreCovered-kept rs rs' b.reached es keeps b.covered;
}

-- The position that is written when all entries are committed.
pub IsBacked-end :
    (rs : List Record) (es : List Entry)
    → ArePlaced 0 es
    → length es < 2 ^ 63
    → All (IsCommitted rs) es
    → IsBacked (format_int (last_position es)) rs es
IsBacked-end rs es placed short all = record {
  reached = length es;
  read =
      ap (λ n. checkpoint_position (format_int n)) (last_position-length es placed)
      ∙ checkpoint_position-format_int (length es) short;
  bounded = omega arith;
  covered = AreCovered-all rs (length es) es all;
}

-- A new entry is behind every backed position.
pub IsBacked-more :
    (position : String) (rs : List Record) (es : List Entry) (e : Entry)
    → e.position ≡ pos (length es + 1)
    → IsBacked position rs es
    → IsBacked position rs (es ++ e ∷ [])
IsBacked-more position rs es e q b =
    let behind : ltb_ℤ (pos b.reached) e.position ≡ true =
      subst (λ n. ltb_ℤ (pos b.reached) n ≡ true) (sym q)
        (beyond b.reached (length es) b.bounded) in
    record {
      reached = b.reached;
      read = b.read;
      bounded = omega (arith, b.bounded, length-append es (e ∷ []));
      covered = All-snoc _ es e b.covered (inl behind);
    }
  where
    beyond : (p n : ℕ) → p ≤ n → ltb p (n + 1) ≡ true
    beyond p n h = ground arith

pub committed_position-ok :
    (cp : Checkpoint) (n : ℕ)
    → committed_position cp ≡ ok n
    → checkpoint_position cp.position ≡ some n
committed_position-ok cp n h = elim (Option-cases (checkpoint_position cp.position)) [
  | inl q ↦ absurd (ground arith)
  | inr (m, q) ↦ q ∙ ap some (ok_injective (rw q at h))
]

-- recover goes on from the position of its checkpoint.
pub check_continuity-ok :
    (pf : Platform) (c : Codec) (k : Coordinator) (rs : List Record) (created : Bool) (n : ℕ)
    → check_continuity pf c k rs created ≡ ok n
    → checkpoint_position k.checkpoint.position ≡ some n
unfolding check_continuity
check_continuity-ok pf c k rs created n h =
    let rest = committed_position k.checkpoint >>= λ m. check_journal pf k rs m >> ok m in
    let (_, _, h₁) = >>=-eq-ok (check_existing pf c rs created) _ h in
    let h₂ = >>-then (fail_if (not (valid_prefix k.checkpoint rs)) checkpoint_binding) rest h₁ in
    let (committed, p, h₃) = >>=-eq-ok (committed_position k.checkpoint) _ h₂ in
    committed_position-ok k.checkpoint n
      (p ∙ >>-then (check_journal pf k rs committed) (ok committed) h₃)
