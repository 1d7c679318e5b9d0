-- ===== src/LogAnalyzer/Manager/Lines.antt =====
-- What the lines of a log file are for the manager of hw4/210104004042_main.c, said of the whole
-- file: cut at the newlines, then cut where a line is too long.
use system_hw.CString.{c_string}
use system_hw.Prelude.{
  ℕ, zero, suc, ◌≤◌, ◌≡◌, ◌≢◌, refl, ap, ap₂, ◌∙◌, List, [], ◌∷◌, ◌++◌, map, length, take, drop,
  length-append, length-drop, append_assoc, append-nil, arith, ◌==◌, if◌then◌else◌,
}
use system_hw.LogAnalyzer.Manager.{line_capacity}

-- The segments between newlines; the last one may be empty.
pub split_lines : List ℕ → List ℕ × List (List ℕ)
split_lines [] = ([], [])
split_lines (c ∷ cs) =
    let (first, others) = split_lines cs in
    if c == b'\n' then ([], first ∷ others) else (c ∷ first, others)

-- A long segment gives its first `line_capacity` bytes as a line, loses the next byte, and goes on.
pieces_within : ℕ → List ℕ → List (List ℕ)
pieces_within zero l = []
pieces_within (suc fuel) [] = []
pieces_within (suc fuel) (c ∷ l) =
    take line_capacity (c ∷ l) ∷ pieces_within fuel (drop (suc line_capacity) (c ∷ l))

-- The length of the segment is fuel enough: each piece uses up at least one byte.
pub pieces : List ℕ → List (List ℕ)
unfolding pieces_within
pieces l = pieces_within (length l) l

pub all_pieces : List (List ℕ) → List (List ℕ)
all_pieces [] = []
all_pieces (l ∷ ls) = pieces l ++ all_pieces ls

-- The lines that a whole file stands for.
unfoldable pub lines_of : List ℕ → List (List ℕ)
unfolding split_lines pieces all_pieces
lines_of bytes =
    let (first, others) = split_lines bytes in map c_string (all_pieces (first ∷ others))

take_short : (n : ℕ) (l : List ℕ) → length l ≤ n → (take n l ≡ l) × (drop (suc n) l ≡ [])
take_short zero [] h = (refl, refl)
take_short zero (c ∷ l) h = absurd (omega arith)
take_short (suc n) [] h = (refl, refl)
take_short (suc n) (c ∷ l) h = let (t, d) = take_short n l (omega arith) in (ap (λ xs. c ∷ xs) t, d)

-- A line that fits is one piece.
pub pieces_short :
    (c : ℕ) (l : List ℕ) → length (c ∷ l) ≤ line_capacity → pieces (c ∷ l) ≡ (c ∷ l) ∷ []
unfolding pieces
pieces_short c l h = ap₂ ◌∷◌ short.0 (ap (pieces_within (length l)) short.1 ∙ end (length l))
  where
    short : (take line_capacity (c ∷ l) ≡ c ∷ l) × (drop (suc line_capacity) (c ∷ l) ≡ [])
    short = take_short line_capacity (c ∷ l) h

    end : (f : ℕ) → pieces_within f [] ≡ []
    end zero = refl
    end (suc f) = refl

pieces_within_enough :
    (f g : ℕ) (l : List ℕ) → length l ≤ f → length l ≤ g → pieces_within f l ≡ pieces_within g l
unfolding pieces_within
pieces_within_enough zero zero [] h k = refl
pieces_within_enough zero (suc g) [] h k = refl
pieces_within_enough (suc f) zero [] h k = refl
pieces_within_enough (suc f) (suc g) [] h k = refl
pieces_within_enough zero g (c ∷ l) h k = absurd (omega arith)
pieces_within_enough (suc f) zero (c ∷ l) h k = absurd (omega arith)
pieces_within_enough (suc f) (suc g) (c ∷ l) h k =
    ap (λ ls. take line_capacity (c ∷ l) ∷ ls)
      (pieces_within_enough f g (drop line_capacity l) (omega (arith, length-drop line_capacity l))
        (omega (arith, length-drop line_capacity l)))

take_full :
    (n c : ℕ) (l seg : List ℕ)
    → length l ≡ n
    → (take n (l ++ (c ∷ seg)) ≡ l) × (drop (suc n) (l ++ (c ∷ seg)) ≡ seg)
take_full zero c [] seg h = (refl, refl)
take_full zero c (x ∷ l) seg h = absurd (omega arith)
take_full (suc n) c [] seg h = absurd (omega arith)
take_full (suc n) c (x ∷ l) seg h =
    let (t, d) = take_full n c l seg (omega arith) in (ap (λ xs. x ∷ xs) t, d)

-- A full line is a piece, the byte after it is lost, and the rest starts anew.
pub pieces_full :
    (l : List ℕ) (c : ℕ) (seg : List ℕ)
    → length l ≡ line_capacity
    → pieces (l ++ (c ∷ seg)) ≡ l ∷ pieces seg
unfolding pieces
pieces_full [] c seg h = absurd (omega arith)
pieces_full (x ∷ l) c seg h = ap₂ ◌∷◌ full.0 (
    ap (pieces_within (length (l ++ (c ∷ seg)))) full.1
    ∙ pieces_within_enough (length (l ++ (c ∷ seg))) (length seg) seg
        (omega (arith, length-append l (c ∷ seg))) (omega arith))
  where
    full :
        (take line_capacity (x ∷ l ++ (c ∷ seg)) ≡ x ∷ l)
        × (drop (suc line_capacity) (x ∷ l ++ (c ∷ seg)) ≡ seg)
    full = take_full line_capacity c (x ∷ l) seg h

-- The lines still to come when `line` has been read of the current segment and `rest` is unread.
pub pending : List ℕ → List ℕ → List (List ℕ)
unfolding split_lines all_pieces
pending line rest = let (first, others) = split_lines rest in all_pieces ((line ++ first) ∷ others)

pub pending-newline-nil : (rest : List ℕ) → pending [] (b'\n' ∷ rest) ≡ pending [] rest
unfolding pending pieces
pending-newline-nil rest = refl

pub pending-newline :
    (x : ℕ) (l rest : List ℕ)
    → length (x ∷ l) ≤ line_capacity
    → pending (x ∷ l) (b'\n' ∷ rest) ≡ (x ∷ l) ∷ pending [] rest
unfolding pending
pending-newline x l rest h =
    ap (λ ls. ls ++ pending [] rest) (ap (λ k. pieces (x ∷ k)) (append-nil l) ∙ pieces_short x l h)

pub pending-short :
    (l : List ℕ) (c : ℕ) (rest : List ℕ)
    → c ≢ b'\n'
    → pending l (c ∷ rest) ≡ pending (l ++ (c ∷ [])) rest
unfolding pending
pending-short l c rest h = ground (arith, append_assoc l (c ∷ []) (split_lines rest).0)

pub pending-full :
    (l : List ℕ) (c : ℕ) (rest : List ℕ)
    → c ≢ b'\n'
    → length l ≡ line_capacity
    → pending l (c ∷ rest) ≡ l ∷ pending [] rest
unfolding pending
pending-full l c rest h e = ground (arith, pieces_full l c (split_lines rest).0 e)

pub pieces-nil : pieces [] ≡ []
unfolding pieces
pieces-nil = refl

pub pending-end : (l : List ℕ) → pending l [] ≡ pieces l
unfolding pending
pending-end l = append-nil (pieces (l ++ [])) ∙ ap pieces (append-nil l)

pub lines_of_lem : (bytes : List ℕ) → lines_of bytes ≡ map c_string (pending [] bytes)
unfolding lines_of pending
lines_of_lem bytes = refl
