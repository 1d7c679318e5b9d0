-- ===== src/Chat/Client/Login/Asks.antt =====
-- What `performClientLogin` of final/client/network.c takes for the user's name.
use system_hw.CString.{c_string}
use system_hw.Chat.Client.Login.{username_len, fgets, without_newline, name_in, ask_username}
use system_hw.Chat.Names.{is_valid_username}
use system_hw.Prelude.{
  ℕ, zero, suc, ◌≤◌, ◌<◌, ◌≡◌, ◌≢◌, refl, subst, sym, inl, inr, true, false, Option, none, some,
  List, [], ◌∷◌, ◌++◌, length, ◌==◌, arith, Bool-cases,
}

-- No line feed is among the bytes.
abbrev pub IsOneLine : List ℕ → Type 0
IsOneLine [] = Unit {0}
IsOneLine (c ∷ cs) = (c ≢ b'\n') × IsOneLine cs

-- What is read at once of the input, and what is left: up to a line feed, or `n` bytes of a line, or
-- all of the last line.
pub data IsChunk (n : ℕ) : List ℕ → List ℕ → List ℕ → Type 0 where
  ended :
      (line rest : List ℕ)
      → IsOneLine line
      → length line < n
      → IsChunk n (line ++ (b'\n' ∷ rest)) (line ++ (b'\n' ∷ [])) rest
  full :
      (line rest : List ℕ) → IsOneLine line → length line ≡ n → IsChunk n (line ++ rest) line rest
  last : (line : List ℕ) → IsOneLine line → length line < n → IsChunk n line line []

-- A name stands in a line up to a line feed, a NUL, or its end.
pub data IsNameIn : List ℕ → List ℕ → Type 0 where
  at_end : IsNameIn [] []
  at_feed : (rest : List ℕ) → IsNameIn (b'\n' ∷ rest) []
  at_nul : (rest : List ℕ) → IsNameIn (0 ∷ rest) []
  goes_on :
      (c : ℕ) (line name : List ℕ)
      → c ≢ b'\n'
      → c ≢ 0
      → IsNameIn line name
      → IsNameIn (c ∷ line) (c ∷ name)

-- The dialogue: chunks of at most 16 bytes are read until one has a valid name in it, or the input ends.
pub data Asks : List ℕ → Option (List ℕ × List ℕ) → Type 0 where
  no_more : Asks [] none
  takes :
      (input chunk rest name : List ℕ)
      → IsChunk 16 input chunk rest
      → IsNameIn chunk name
      → is_valid_username name ≡ true
      → Asks input (some (name, rest))
  again :
      (input chunk rest name : List ℕ) (r : Option (List ℕ × List ℕ))
      → IsChunk 16 input chunk rest
      → IsNameIn chunk name
      → is_valid_username name ≡ false
      → Asks rest r
      → Asks input r

more-IsChunk :
    (n c : ℕ) (input chunk rest : List ℕ)
    → c ≢ b'\n'
    → IsChunk n input chunk rest
    → IsChunk (suc n) (c ∷ input) (c ∷ chunk) rest
more-IsChunk n c _ _ _ ne (ended line rest one lt) = ended (c ∷ line) rest (ne, one) (omega arith)
more-IsChunk n c _ _ _ ne (full line rest one e) = full (c ∷ line) rest (ne, one) (omega (arith, e))
more-IsChunk n c _ _ _ ne (last line one lt) = last (c ∷ line) (ne, one) (omega arith)

fgets-IsChunk : (n : ℕ) (input : List ℕ) → IsChunk n input (fgets n input).0 (fgets n input).1
unfolding fgets
fgets-IsChunk zero input = full [] input tt refl
fgets-IsChunk (suc n) [] = last [] tt (omega arith)
fgets-IsChunk (suc n) (c ∷ cs) = elim (Bool-cases (c == b'\n')) [
  | inl e ↦
      let feed : c ≡ b'\n' = ground (arith, e) in
      rw e (
        subst (λ x. IsChunk (suc n) (x ∷ cs) (x ∷ []) cs) (sym feed) (ended [] cs tt (omega arith)))
  | inr e ↦ rw e (more-IsChunk n c cs _ _ (ground (arith, e)) (fgets-IsChunk n cs))
]

name_in-IsNameIn : (line : List ℕ) → IsNameIn line (name_in line)
unfolding c_string without_newline
name_in-IsNameIn [] = at_end
name_in-IsNameIn (c ∷ cs) = elim (Bool-cases (c == 0)) [
  | inl e ↦
      let nul : c ≡ 0 = ground (arith, e) in
      rw e (subst (λ x. IsNameIn (x ∷ cs) []) (sym nul) (at_nul cs))
  | inr e ↦ elim (Bool-cases (c == b'\n')) [
    | inl f ↦
        let feed : c ≡ b'\n' = ground (arith, f) in
        rw (e, f) (subst (λ x. IsNameIn (x ∷ cs) []) (sym feed) (at_feed cs))
    | inr f ↦
        rw (e, f)
          (goes_on c cs (name_in cs) (ground (arith, f)) (ground (arith, e)) (name_in-IsNameIn cs))
  ]
]

length-fgets : (n : ℕ) (input : List ℕ) → length (fgets n input).1 ≤ length input
unfolding fgets
length-fgets zero input = omega arith
length-fgets (suc n) [] = omega arith
length-fgets (suc n) (c ∷ cs) = elim (Bool-cases (c == b'\n')) [
  | inl e ↦ rw e (omega arith)
  | inr e ↦ rw e (omega (arith, length-fgets n cs))
]

fgets_shorter : (n c : ℕ) (cs : List ℕ) → length (fgets (suc n) (c ∷ cs)).1 ≤ length cs
unfolding fgets
fgets_shorter n c cs = elim (Bool-cases (c == b'\n')) [
  | inl e ↦ rw e (omega arith)
  | inr e ↦ rw e (length-fgets n cs)
]

-- With one round more than the input has bytes, the loop that asks for a name ends: with the first
-- chunk of the input that has a valid name in it, that name and the rest of the input, or with none if
-- there is no such chunk; a chunk is what is left of a line, or its next 16 bytes.
pub ask_username-Asks :
    (fuel : ℕ) (input : List ℕ) → length input < fuel → Asks input (ask_username fuel input)
unfolding ask_username
ask_username-Asks zero input enough = elim enough [ ]
ask_username-Asks (suc fuel) [] enough = no_more
ask_username-Asks (suc fuel) (c ∷ cs) enough =
    let chunk = (fgets username_len (c ∷ cs)).0 in
    let rest = (fgets username_len (c ∷ cs)).1 in
    let read = fgets-IsChunk username_len (c ∷ cs) in
    elim (Bool-cases (is_valid_username (name_in chunk))) [
      | inl e ↦ rw e (takes (c ∷ cs) chunk rest (name_in chunk) read (name_in-IsNameIn chunk) e)
      | inr e ↦ rw e (
          again (c ∷ cs) chunk rest (name_in chunk) _ read (name_in-IsNameIn chunk) e
            (ask_username-Asks fuel rest (omega (arith, fgets_shorter 15 c cs, enough))))
    ]
