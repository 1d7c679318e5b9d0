-- ===== src/FileManager/List/Extension.antt =====
-- Which names `listFilesByExtension` of hw1/fileManager.c takes, by `strrchr` and `strcmp`.
use system_hw.CString.{strcmp_eq_iff, strrchr}
use system_hw.FileManager.Calls.{Name}
use system_hw.FileManager.List.{ext_eq, has_extension}
use system_hw.Prelude.{
  ℕ, ◌≡◌, ◌≢◌, ◌↔◌, refl, sym, ap, ◌∙◌, inl, inr, true, false, none, some, List, [], ◌∷◌, ◌++◌,
  ◌==◌, ==_iff, Bool-cases, Option-cases, arith,
}

-- No dot is among the bytes.
abbrev pub Dotless : List ℕ → Type 0
Dotless [] = Unit {0}
Dotless (c ∷ cs) = (c ≢ b'.') × Dotless cs

-- The extension is what stands in the name from its last dot on.
abbrev pub HasExtension : List ℕ → Name → Type 0
HasExtension extension name =
    (base : List ℕ) × (rest : List ℕ) × (name ≡ base ++ (b'.' ∷ rest))
    × (extension ≡ b'.' ∷ rest)
    × Dotless rest

strrchr-Dotless : (cs : List ℕ) → Dotless cs → strrchr b'.' cs ≡ none
unfolding strrchr
strrchr-Dotless [] d = refl
strrchr-Dotless (c ∷ cs) (other, d) =
    let differ : (c == b'.') ≡ false = ground (arith, other) in
    rw (strrchr-Dotless cs d, differ) refl

strrchr_last :
    (base rest : List ℕ) → Dotless rest → strrchr b'.' (base ++ (b'.' ∷ rest)) ≡ some (b'.' ∷ rest)
unfolding strrchr
strrchr_last [] rest d = rw (strrchr-Dotless rest d) refl
strrchr_last (c ∷ base) rest d = rw (strrchr_last base rest d) refl

strrchr-none-Dotless : (cs : List ℕ) → strrchr b'.' cs ≡ none → Dotless cs
unfolding strrchr
strrchr-none-Dotless [] e = tt
strrchr-none-Dotless (c ∷ cs) e = elim (Option-cases (strrchr b'.' cs)) [
  | inl later ↦ elim (Bool-cases (c == b'.')) [
    | inl here ↦ absurd (cc (rw (later, here) at e))
    | inr other ↦ (λ same. cc (other, (==_iff c b'.').1 same), strrchr-none-Dotless cs later)
  ]
  | inr (rest, later) ↦ absurd (cc (rw later at e))
]

strrchr_split :
    (cs dot : List ℕ)
    → strrchr b'.' cs ≡ some dot
    → (base : List ℕ) × (rest : List ℕ) × (cs ≡ base ++ dot) × (dot ≡ b'.' ∷ rest) × Dotless rest
unfolding strrchr
strrchr_split [] dot e = cc
strrchr_split (c ∷ cs) dot e = elim (Option-cases (strrchr b'.' cs)) [
  | inr (found, later) ↦
      let (base, rest, split, starts, d) = strrchr_split cs found later in
      let same : found ≡ dot = cc (rw later at e) in
      (c ∷ base, rest, ap (λ r. c ∷ r) (split ∙ ap (λ r. base ++ r) same), sym same ∙ starts, d)
  | inl later ↦ elim (Bool-cases (c == b'.')) [
    | inl here ↦
        let same : c ∷ cs ≡ dot = cc (rw (later, here) at e) in
        (
          [],
          cs,
          same,
          sym same ∙ ap (λ x. x ∷ cs) ((==_iff c b'.').0 here),
          strrchr-none-Dotless cs later,
        )
    | inr other ↦ absurd (cc (rw (later, other) at e))
  ]
]

-- The test is right, whatever the extension: one that does not begin with a dot, or has two, is that
-- of no file.
pub has_extension_iff :
    (extension : List ℕ) (name : Name)
    → (has_extension extension name ≡ true) ↔ HasExtension extension name
unfolding has_extension ext_eq
has_extension_iff extension name = (taken, fits)
  where
    taken : ext_eq extension (strrchr b'.' name) ≡ true → HasExtension extension name
    taken e = elim (Option-cases (strrchr b'.' name)) [
      | inl no_dot ↦ absurd (cc (rw no_dot at e))
      | inr (dot, found) ↦
          let (base, rest, split, starts, d) = strrchr_split name dot found in
          let same : dot ≡ extension = (strcmp_eq_iff dot extension).0 (rw found at e) in
          (base, rest, split ∙ ap (λ r. base ++ r) starts, sym same ∙ starts, d)
    ]

    fits : HasExtension extension name → ext_eq extension (strrchr b'.' name) ≡ true
    fits (base, rest, split, same, d) =
        ap (ext_eq extension) (ap (strrchr b'.') split ∙ strrchr_last base rest d)
        ∙ (strcmp_eq_iff (b'.' ∷ rest) extension).1 (sym same)
