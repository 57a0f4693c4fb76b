-- ===== src/CaptureJournal/Read/Bytes.antt =====
-- A file that ends in a line feed, and what an append that is cut short leaves behind it
-- (internal/capturejournal/journal.go).
use atb.Prelude.{ℕ, ◌≡◌, refl, false, List, [], ◌∷◌, ◌++◌, ◌==◌}
pub use atb.Bundle.Load.Lines.{IsComplete, no_line, some_lines, raw_lines-more, IsComplete-more}
use atb.Bundle.Load.Lines.{HasNoLineFeed}
use atb.Bundle.Load.Prefix.{last_byte}
use atb.CaptureJournal.Read.{complete}

pub complete-fragment : (p : List ℕ) → HasNoLineFeed p → complete p ≡ []
unfolding complete
complete-fragment [] h = refl
complete-fragment (b ∷ p) h = rw (complete-fragment p h.1, h.0) refl

complete-step :
    (b : ℕ) (r : List ℕ) (c : ℕ) (s : List ℕ) → complete r ≡ c ∷ s → complete (b ∷ r) ≡ b ∷ c ∷ s
unfolding complete
complete-step b r c s e = rw e refl

complete-line : (p : List ℕ) → HasNoLineFeed p → complete (10 ∷ p) ≡ 10 ∷ []
unfolding complete
complete-line p h = rw (complete-fragment p h) refl

complete-lines : (a p : List ℕ) → HasNoLineFeed p → complete ((a ++ 10 ∷ []) ++ p) ≡ a ++ 10 ∷ []
complete-lines [] p h = complete-line p h
complete-lines (b ∷ []) p h = complete-step b (10 ∷ p) 10 [] (complete-lines [] p h)
complete-lines (b ∷ c ∷ a) p h =
    complete-step b ((c ∷ a ++ 10 ∷ []) ++ p) c (a ++ 10 ∷ []) (complete-lines (c ∷ a) p h)

-- Cutting at the last line feed takes away the fragment, and nothing else.
pub complete-IsComplete :
    (lines p : List ℕ) → IsComplete lines → HasNoLineFeed p → complete (lines ++ p) ≡ lines
complete-IsComplete _ p no_line h = complete-fragment p h
complete-IsComplete _ p (some_lines a) h = complete-lines a p h

pub last_byte-end : (d : ℕ) (a : List ℕ) → last_byte d (a ++ 10 ∷ []) ≡ 10
last_byte-end d [] = refl
last_byte-end d (b ∷ a) = last_byte-end b a

pub last_byte-fragment :
    (d : ℕ) (a : List ℕ) (b : ℕ) (p : List ℕ)
    → HasNoLineFeed (b ∷ p)
    → (last_byte d (a ++ b ∷ p) == 10) ≡ false
last_byte-fragment d [] b [] h = h.0
last_byte-fragment d [] b (c ∷ p) h = last_byte-fragment b [] c p h.1
last_byte-fragment d (x ∷ a) b p h = last_byte-fragment x a b p h
