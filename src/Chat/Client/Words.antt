-- ===== src/Chat/Client/Words.antt =====
-- The words of a line, as final/client/commands.c cuts them off.
use system_hw.Chat.Client.{isspace, take_token, trim_leading_whitespace}
use system_hw.Chat.Names.{all_alnum, is_valid_username}
use system_hw.Prelude.{
  ℕ, zero, suc, ◌≤◌, ◌<◌, ◌≡◌, refl, ap, ◌⊎◌, inl, inr, true, false, List, [], ◌∷◌, ◌++◌, length,
  arith,
}

-- No blank is among the bytes.
abbrev pub Solid : List ℕ → Type 0
Solid [] = Unit {0}
Solid (c ∷ cs) = (isspace c ≡ false) × Solid cs

pub all_alnum-Solid : (name : List ℕ) → all_alnum name ≡ true → Solid name
unfolding all_alnum isspace
all_alnum-Solid [] e = tt
all_alnum-Solid (c ∷ cs) e = (ground arith, all_alnum-Solid cs (ground arith))

pub username-Solid : (name : List ℕ) → is_valid_username name ≡ true → Solid name
unfolding is_valid_username
username-Solid name e = all_alnum-Solid name (ground arith)

pub username-some : (name : List ℕ) → is_valid_username name ≡ true → 0 < length name
unfolding is_valid_username
username-some name e = ground arith

-- A word ends at its greatest length or at a blank.
abbrev pub Ends : ℕ → List ℕ → List ℕ → Type 0
Ends n word rest =
    (length word ≡ n)
    ⊎ ((length word ≤ n) × (c : ℕ) × (cs : List ℕ) × (rest ≡ c ∷ cs) × (isspace c ≡ true))

pub shorter : (n : ℕ) (c : ℕ) (word rest : List ℕ) → Ends (suc n) (c ∷ word) rest → Ends n word rest
shorter n c word rest (inl e) = inl (omega (arith, e))
shorter n c word rest (inr (le, d, ds, e, blank)) = inr (omega arith, d, ds, e, blank)

pub take_token-word :
    (n : ℕ) (word rest : List ℕ)
    → Solid word
    → Ends n word rest
    → take_token n (word ++ rest) ≡ (word, rest)
unfolding take_token
take_token-word zero [] rest solid ends = refl
take_token-word zero (c ∷ word) rest solid (inl e) = absurd (omega (arith, e))
take_token-word zero (c ∷ word) rest solid (inr (le, _, _, _, _)) = absurd (omega arith)
take_token-word (suc n) [] rest solid (inl e) = absurd (omega (arith, e))
take_token-word (suc n) [] rest solid (inr (le, c, cs, e, blank)) = rw (e, blank) refl
take_token-word (suc n) (c ∷ word) rest (dark, solid) ends =
    rw dark
      (ap (λ r. (c ∷ r.0, r.1)) (take_token-word n word rest solid (shorter n c word rest ends)))

pub trim-solid :
    (c : ℕ) (cs : List ℕ) → isspace c ≡ false → trim_leading_whitespace (c ∷ cs) ≡ c ∷ cs
unfolding trim_leading_whitespace
trim-solid c cs dark = rw dark refl

pub isspace-blank : isspace 32 ≡ true
unfolding isspace
isspace-blank = refl

pub trim_blank :
    (text : List ℕ) → trim_leading_whitespace (32 ∷ text) ≡ trim_leading_whitespace text
unfolding trim_leading_whitespace isspace
trim_blank text = refl

pub trim-word :
    (word rest : List ℕ)
    → 0 < length word
    → Solid word
    → trim_leading_whitespace (word ++ rest) ≡ word ++ rest
trim-word [] rest some_bytes solid = absurd (omega arith)
trim-word (c ∷ word) rest some_bytes (dark, solid) = trim-solid c (word ++ rest) dark
