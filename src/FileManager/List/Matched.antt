-- ===== src/FileManager/List/Matched.antt =====
-- The loop of `listFilesByExtension` of hw1/fileManager.c over a directory.
use system_hw.CString.{codes}
use system_hw.FileManager.Calls.{Name, Os, World}
use system_hw.FileManager.Create.{about}
use system_hw.FileManager.List.{has_extension, print_matching, tell_found}
use system_hw.FileManager.List.Extension.{HasExtension, has_extension_iff}
use system_hw.Prelude.{
  ℕ, ◌≡◌, ◌≢◌, refl, sym, ap, ◌∙◌, ◌⊎◌, inl, inr, Bool, true, false, List, [], ◌∷◌, ◌++◌,
  append-nil, append_assoc, Bool-cases,
}

-- The names with the extension, in order, each on a line of its own behind two blanks.
pub data Listing (extension : List ℕ) : List Name → List ℕ → Type 0 where
  end : Listing extension [] []
  hit :
      {name : Name} {names : List Name} {body : List ℕ}
      → HasExtension extension name
      → Listing extension names body
      → Listing extension (name ∷ names) ((codes "  " ++ name ++ codes "\n") ++ body)
  miss :
      {name : Name} {names : List Name} {body : List ℕ}
      → (HasExtension extension name → ⊥)
      → Listing extension names body
      → Listing extension (name ∷ names) body

printed-ne-nil : (name : Name) (body : List ℕ) → (codes "  " ++ name ++ codes "\n") ++ body ≢ []
unfolding codes
printed-ne-nil name body e = cc e

module _ (S : Os) where
  -- After the loop: what it has printed, and whether it has printed anything.
  pub record Printed (extension : List ℕ) (found : Bool) (names : List Name) (w : World S)
      (r : Bool × World S) : Type 0 where
    pub body : List ℕ
    pub listing : Listing extension names body
    pub written : r.1 ≡ record w { out = w.out ++ body }
    pub any : ((body ≡ []) × (r.0 ≡ found)) ⊎ ((body ≢ []) × (r.0 ≡ true))

  always : {P Q : Type 0} {b : Bool} → (P × (b ≡ true)) ⊎ (Q × (b ≡ true)) → b ≡ true
  always (inl (_, e)) = e
  always (inr (_, e)) = e

  pub print_matching-Printed :
      (extension : List ℕ) (found : Bool) (names : List Name) (w : World S)
      → Printed extension found names w (print_matching S extension found names w)
  unfolding print_matching
  print_matching-Printed extension found [] w = record {
    body = [];
    listing = end;
    written = ap (λ o. record w { out = o }) (sym (append-nil w.out));
    any = inl (refl, refl);
  }
  print_matching-Printed extension found (name ∷ names) w =
      elim (Bool-cases (has_extension extension name)) [
        | inl taken ↦
            let printed = codes "  " ++ name ++ codes "\n" in
            let rest =
              print_matching-Printed extension true names (record w { out = w.out ++ printed }) in
            rw taken (record {
              body = printed ++ rest.body;
              listing = hit ((has_extension_iff extension name).0 taken) rest.listing;
              written =
                  rest.written
                  ∙ ap (λ o. record w { out = o }) (append_assoc w.out printed rest.body);
              any = inr (printed-ne-nil name rest.body, always rest.any);
            })
        | inr other ↦
            let rest = print_matching-Printed extension found names w in
            rw other (record {
              body = rest.body;
              listing =
                  miss (λ has. cc (other, (has_extension_iff extension name).1 has)) rest.listing;
              written = rest.written;
              any = rest.any;
            })
      ]

  abbrev pub heading : Name → List ℕ → List ℕ
  heading dir extension =
      about (codes "Files with extension \"") extension
        (about (codes "\" in directory \"") dir (codes "\":"))
      ++ codes "\n"

  abbrev pub no_files : Name → List ℕ → List ℕ
  no_files dir extension =
      about (codes "No files with extension \"") extension
        (about (codes "\" found in \"") dir (codes "\"."))
      ++ codes "\n"

  -- The heading, the names with the extension, and, if there are none, a message that says so.
  pub record Matched (dir : Name) (extension : List ℕ) (names : List Name) (w t : World S)
      : Type 0 where
    pub body : List ℕ
    pub ending : List ℕ
    pub listing : Listing extension names body
    pub written : t ≡ record w { out = w.out ++ heading dir extension ++ body ++ ending }
    pub none_found :
        ((body ≢ []) × (ending ≡ [])) ⊎ ((body ≡ []) × (ending ≡ no_files dir extension))

  pub tell-Matched :
      (dir : Name) (extension : List ℕ) (names : List Name) (w : World S) (r : Bool × World S)
      → Printed extension false names (record w { out = w.out ++ heading dir extension }) r
      → Matched dir extension names w (tell_found S dir extension r.0 r.1).1
  unfolding tell_found
  tell-Matched dir extension names w (found, t) p = by_any p.any
    where
      by_any :
          ((p.body ≡ []) × (found ≡ false)) ⊎ ((p.body ≢ []) × (found ≡ true))
          → Matched dir extension names w (tell_found S dir extension found t).1
      by_any (inl (empty, e)) = rw e (record {
        body = p.body;
        ending = no_files dir extension;
        listing = p.listing;
        written =
            ap {A = World S} (λ u. record u { out = u.out ++ no_files dir extension }) p.written;
        none_found = inr (empty, refl);
      })
      by_any (inr (some_name, e)) = rw e (record {
        body = p.body;
        ending = [];
        listing = p.listing;
        written = p.written ∙ ap (λ o. record w { out = o }) (sym (append-nil _));
        none_found = inl (some_name, refl);
      })
