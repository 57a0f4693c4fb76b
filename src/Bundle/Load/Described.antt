-- ===== src/Bundle/Load/Described.antt =====
-- A loaded bundle against a description of the file (internal/bundle/bundle.go, LoadReaderWithLimits).
use atb.Prelude.{
  ℕ, ◌≡◌, ◌≢◌, sym, ◌∙◌, subst, String, List, [], ◌∷◌, ◌++◌, some, length, str_eq, eq_iff,
  Bool-cases, inl, inr,
}
use atb.Prelude.Result.{ok}
use atb.Event.{Event}
use atb.Bundle.{Record, SourcePrefix, no_prefix, Codec, bundle_signature_type}
use atb.Bundle.Load.{LoadLimits, load_reader, prefix_for}
use atb.Bundle.Load.Lines.{raw_lines}
use atb.Bundle.Load.Lines.Cut.{IsCut, IsContent, raw_lines-IsCut, trim-IsContent}
use atb.Bundle.Load.Prefix.{snapshot}
use atb.Bundle.Load.Prefix.Laws.{behind}
use atb.Bundle.Load.Prefix.Bound.{IsPrefixOf, snapshot-IsPrefixOf}
use atb.Bundle.Load.Laws.{IsWithin, Reads, reads_end, reads_blank, reads_record, load_reader-Reads}

-- What the loader notes of a record of the type: a signature record is bound to the bytes before it.
pub data IsNoted (sum : List ℕ → List ℕ) (before : List ℕ) : String → SourcePrefix → Type 0 where
  of_signature :
      (p : SourcePrefix) → IsPrefixOf sum before p → IsNoted sum before "atb.bundle.signature" p
  of_other :
      (type_id : String) → type_id ≢ "atb.bundle.signature" → IsNoted sum before type_id no_prefix

-- The records of the lines behind the bytes `before`: one for each line that is not empty, decoded from
-- the line's content.
pub data Holds (sum : List ℕ → List ℕ) (c : Codec)
    : List ℕ → List (List ℕ) → List Record → Type 0 where
  holds_none : (before : List ℕ) → Holds sum c before [] []
  holds_blank :
      (before raw : List ℕ) (lines : List (List ℕ)) (rs : List Record)
      → IsContent raw []
      → Holds sum c (before ++ raw) lines rs
      → Holds sum c before (raw ∷ lines) rs
  holds_record :
      (before raw : List ℕ) (lines : List (List ℕ)) (rs : List Record) (b : ℕ) (line : List ℕ)
      (e : Event) (h : String) (p : SourcePrefix)
      → IsContent raw (b ∷ line)
      → c.decode_record (b ∷ line) ≡ some (e, h)
      → IsNoted sum before e.type_id p
      → Holds sum c (before ++ raw) lines rs
      → Holds sum c before (raw ∷ lines) (record { event = e; hash = h; prefix = p } ∷ rs)

module _ (sum : List ℕ → List ℕ) (c : Codec) where
  prefix_for-IsNoted :
      (before : List ℕ) (type_id : String)
      → IsNoted sum before type_id (prefix_for sum type_id (behind before))
  unfolding prefix_for
  prefix_for-IsNoted before type_id = elim (Bool-cases (str_eq type_id bundle_signature_type)) [
    | inl e ↦
        rw (prefix_for, e)
          (subst (λ t. IsNoted sum before t (snapshot sum (behind before)))
            (sym ((eq_iff type_id bundle_signature_type).0 e))
            (of_signature (snapshot sum (behind before)) (snapshot-IsPrefixOf sum before)))
    | inr e ↦
        rw (prefix_for, e)
          (of_other type_id λ same. cc (sym ((eq_iff type_id bundle_signature_type).1 same) ∙ e))
  ]

  Reads-Holds :
      (before : List ℕ) (lines : List (List ℕ)) (rs : List Record)
      → Reads sum c before lines rs
      → Holds sum c before lines rs
  Reads-Holds _ _ _ (reads_end before) = holds_none before
  Reads-Holds _ _ _ (reads_blank before raw lines rs q more) =
      holds_blank before raw lines rs (subst (IsContent raw) q (trim-IsContent raw))
        (Reads-Holds (before ++ raw) lines rs more)
  Reads-Holds _ _ _ (reads_record before raw lines rs b line e h q d more) =
      holds_record before raw lines rs b line e h (prefix_for sum e.type_id (behind before))
        (subst (IsContent raw) q (trim-IsContent raw)) d (prefix_for-IsNoted before e.type_id)
        (Reads-Holds (before ++ raw) lines rs more)

-- A file that loads is cut into lines behind its line feeds, and the bundle has one record for each
-- line that is not empty without its line feed and a carriage return before that, in the order of the
-- lines and decoded from them. A signature record has the hash of the bytes before its line, and where
-- these end in one line feed behind another byte also the hash of them without it; the other records
-- have none. The file and the bundle are within the limits.
pub load_reader-Holds :
    (sum : List ℕ → List ℕ) (c : Codec) (limits : LoadLimits) (reads : ℕ → ℕ) (input : List ℕ)
    (rs : List Record)
    → load_reader sum c limits reads input ≡ ok rs
    → (lines : List (List ℕ)) × IsCut input lines
      × Holds sum c [] lines rs
      × IsWithin (length rs) limits.max_records
      × IsWithin (length input) limits.max_bytes
load_reader-Holds sum c limits reads input rs p =
    let (held, few, small) = load_reader-Reads sum c limits reads input rs p in
    (
      raw_lines input,
      raw_lines-IsCut input,
      Reads-Holds sum c [] (raw_lines input) rs held,
      few,
      small,
    )
