-- ===== src/CaptureJournal/Read/Fragment.antt =====
-- Reading a file behind whose last line an append has left a fragment (internal/capturejournal/journal.go).
use atb.Prelude.{
  ℕ, ◌≡◌, refl, ap, ◌∙◌, Bool, true, false, not, List, [], ◌∷◌, ◌++◌, if◌then◌else◌, ◌==◌,
}
use atb.Prelude.Result.{ok, ok_injective}
use atb.Canonicalize.{Platform}
use atb.HashChain.{genesis_hash}
use atb.Bundle.Load.Lines.{HasNoLineFeed, raw_lines}
use atb.CaptureJournal.{Entry, EntryCodec}
use atb.CaptureJournal.Read.{complete, is_terminated, read_data, read_lines}
use atb.CaptureJournal.Read.Bytes.{
  IsComplete, no_line, some_lines, complete-IsComplete, complete-fragment, last_byte-end,
  last_byte-fragment,
}

abbrev pub is_cons : List ℕ → Bool
is_cons [] = false
is_cons (b ∷ p) = true

pub append_nil : (s : List ℕ) → s ++ [] ≡ s
append_nil [] = refl
append_nil (b ∷ s) = ap (λ r. b ∷ r) (append_nil s)

not_empty : (a p : List ℕ) → is_cons ((a ++ 10 ∷ []) ++ p) ≡ true
not_empty [] p = refl
not_empty (b ∷ a) p = refl

module _ (pf : Platform) (c : EntryCodec) (es : List Entry) where
  read_by :
      (bytes kept : List ℕ) (torn : Bool)
      → is_cons bytes ≡ true
      → not (is_terminated bytes) ≡ torn
      → (if torn then complete bytes else bytes) ≡ kept
      → read_lines pf c 1 0 genesis_hash (raw_lines kept) ≡ ok es
      → read_data pf c bytes ≡ ok (es, torn)
  unfolding read_data
  read_by [] kept torn n q k l = cc
  read_by (b ∷ bytes) kept torn n q k l = rw (q, k, l) refl

  -- The entries of a file that ends in a line feed are read whatever fragment stands behind it, and a
  -- fragment is reported.
  pub read_data-fragment :
      (bytes p : List ℕ)
      → IsComplete bytes
      → read_lines pf c 1 0 genesis_hash (raw_lines bytes) ≡ ok es
      → HasNoLineFeed p
      → read_data pf c (bytes ++ p) ≡ ok (es, is_cons p)
  unfolding read_data raw_lines read_lines
  read_data-fragment _ [] no_line l h = ap (λ x. ok (x, false)) (ok_injective l)
  read_data-fragment _ (b ∷ p) no_line l h =
      read_by (b ∷ p) [] true refl (ap not (last_byte-fragment 0 [] b p h))
        (complete-fragment (b ∷ p) h) l
  read_data-fragment _ [] (some_lines a) l h =
      read_by ((a ++ 10 ∷ []) ++ []) (a ++ 10 ∷ []) false (not_empty a [])
        (ap (λ x. not (is_terminated x)) (append_nil (a ++ 10 ∷ []))
          ∙ ap (λ x. not (x == 10)) (last_byte-end 0 a))
        (append_nil (a ++ 10 ∷ [])) l
  read_data-fragment _ (b ∷ p) (some_lines a) l h =
      read_by ((a ++ 10 ∷ []) ++ b ∷ p) (a ++ 10 ∷ []) true (not_empty a (b ∷ p))
        (ap not (last_byte-fragment 0 (a ++ 10 ∷ []) b p h))
        (complete-IsComplete (a ++ 10 ∷ []) (b ∷ p) (some_lines a) h) l
