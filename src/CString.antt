-- ===== src/CString.antt =====
-- The C library's functions on texts that the programs call, over lists of byte values. A text is
-- the bytes before its NUL; `c_string` reads one out of an array of char.
use Prim.Native.Char.{code}
use Prim.Native.String.{String}
use system_hw.Prelude.{
  ℕ, ◌≡◌, ◌↔◌, refl, ap, Bool, true, false, ◌&&◌, ◌||◌, Option, none, some, List, [], ◌∷◌, ◌++◌,
  arith, ◌==◌, if◌then◌else◌, Bool-cases, inl, inr,
}

unfoldable pub c_string : List ℕ → List ℕ
c_string [] = []
c_string (c ∷ cs) = if c == 0 then [] else c ∷ c_string cs

-- `strcmp(a, b) == 0`
unfoldable pub strcmp_eq : List ℕ → List ℕ → Bool
strcmp_eq [] [] = true
strcmp_eq [] (_ ∷ _) = false
strcmp_eq (_ ∷ _) [] = false
strcmp_eq (a ∷ xs) (b ∷ ys) = a == b && strcmp_eq xs ys

-- Whether `text` begins with `word`.
pub starts_with : List ℕ → List ℕ → Bool
starts_with text [] = true
starts_with [] (_ ∷ _) = false
starts_with (a ∷ text) (b ∷ word) = a == b && starts_with text word

-- `strstr(text, word) != NULL`
pub strstr : List ℕ → List ℕ → Bool
strstr [] word = starts_with [] word
strstr (c ∷ text) word = starts_with (c ∷ text) word || strstr text word

-- `strrchr(text, c)`: what stands from the last `c` on.
unfoldable pub strrchr : ℕ → List ℕ → Option (List ℕ)
strrchr c [] = none
strrchr c (x ∷ xs) = elim (strrchr c xs) [
  | some rest ↦ some rest
  | none ↦ if x == c then some (x ∷ xs) else none
]

pub strcmp_eq_iff : (a b : List ℕ) → (strcmp_eq a b ≡ true) ↔ (a ≡ b)
unfolding strcmp_eq
strcmp_eq_iff [] [] = (λ _. refl, λ _. refl)
strcmp_eq_iff [] (b ∷ ys) = (λ h. cc, λ h. cc)
strcmp_eq_iff (a ∷ xs) [] = (λ h. cc, λ h. cc)
strcmp_eq_iff (a ∷ xs) (b ∷ ys) = ground (arith, strcmp_eq_iff xs ys)

starts_with_split :
    (text word : List ℕ) → starts_with text word ≡ true → (rest : List ℕ) × (text ≡ word ++ rest)
unfolding starts_with
starts_with_split text [] h = (text, refl)
starts_with_split [] (b ∷ word) h = cc
starts_with_split (a ∷ text) (b ∷ word) h =
    let (rest, e) = starts_with_split text word (ground arith) in (rest, ground (arith, e))

starts_with-append : (word rest : List ℕ) → starts_with (word ++ rest) word ≡ true
unfolding starts_with
starts_with-append [] rest = refl
starts_with-append (c ∷ word) rest = ground (arith, starts_with-append word rest)

strstr_split :
    (text word : List ℕ)
    → strstr text word ≡ true
    → (before : List ℕ) × (rest : List ℕ) × (text ≡ before ++ (word ++ rest))
unfolding strstr
strstr_split [] word h = let (rest, e) = starts_with_split [] word h in ([], rest, e)
strstr_split (c ∷ text) word h = elim (Bool-cases (starts_with (c ∷ text) word)) [
  | inl here ↦ let (rest, e) = starts_with_split (c ∷ text) word here in ([], rest, e)
  | inr later ↦
      let (before, rest, e) = strstr_split text word (ground arith) in
      (c ∷ before, rest, ap (λ r. c ∷ r) e)
]

strstr-append : (before word rest : List ℕ) → strstr (before ++ (word ++ rest)) word ≡ true
unfolding strstr
strstr-append [] word rest = first word rest (word ++ rest) refl
  where
    first : (w r t : List ℕ) → w ++ r ≡ t → strstr t w ≡ true
    first w r [] e = rw (← e) (starts_with-append w r)
    first w r (c ∷ t) e = ground (arith, rw e at (starts_with-append w r))
strstr-append (c ∷ before) word rest = ground (arith, strstr-append before word rest)

-- The bytes of a text literal, in ASCII.
unfoldable pub codes : String → List ℕ
codes String.[] = []
codes (String.◌∷◌ c s) = code c ∷ codes s
