-- ===== src/FileManager/Read/Copies.antt =====
-- The copying loop of `readFile` and `showLogs` of hw1/fileManager.c, and the line of the log after it.
use system_hw.FileManager.Calls.{Os, World, Result, ok, failed}
use system_hw.FileManager.Create.{log_operation}
use system_hw.FileManager.Create.Log.{InLog, InLog-same, log_operation-Logged}
use system_hw.FileManager.Read.{buffer_size, copy_chunk, copy_out, copy_all}
use system_hw.FileManager.Tree.{Lawful, Either}
use system_hw.Prelude.{
  ℕ, zero, suc, ◌+◌, ◌<◌, ◌≡◌, refl, sym, ap, subst, ◌∙◌, ◌⊎◌, inl, inr, List, [], ◌∷◌, ◌++◌,
  length, length-append, append-nil, append_assoc, arith,
}

module _ (S : Os) (L : Lawful S) where
  -- Reads that gave these bytes, one after the other.
  pub data Reads (fd : ℕ) : S.State → List ℕ → S.State → Type 0 where
    here : (s : S.State) → Reads fd s [] s
    more :
        (s : S.State) (chunk bytes : List ℕ) (t : S.State)
        → (S.read fd buffer_size s).0 ≡ ok chunk
        → Reads fd (S.read fd buffer_size s).1 bytes t
        → Reads fd s (chunk ++ bytes) t

  -- Either nothing is left, or the next read fails.
  abbrev pub IsLast : ℕ → S.State → List ℕ → Type 0
  IsLast fd s rest = (rest ≡ []) ⊎ ((e : ℕ) × ((S.read fd buffer_size s).0 ≡ failed e))

  -- What was ahead is written to the standard output, up to its end or to the read that fails.
  pub record Copies (fd : ℕ) (w t : World S) : Type 0 where
    pub shown : List ℕ
    pub rest : List ℕ
    pub last : S.State
    pub split : L.ahead w.os fd ≡ shown ++ rest
    pub reads : Reads fd w.os shown last
    pub written : t.out ≡ w.out ++ shown
    pub silent : t.err ≡ w.err
    pub same : L.entry t.os ≡ L.entry w.os
    pub whole : IsLast fd last rest

  chunk-Copies :
      (fd fuel : ℕ) (w : World S) (r : Result (List ℕ)) (s : S.State)
      → length (L.ahead w.os fd) < suc fuel
      → (S.read fd buffer_size w.os).0 ≡ r
      → (S.read fd buffer_size w.os).1 ≡ s
      → Either r
          (λ bytes.
            (L.ahead w.os fd ≡ bytes ++ L.ahead s fd)
            × (0 < buffer_size → bytes ≡ [] → L.ahead w.os fd ≡ []))
          (Unit {0})
      → L.entry s ≡ L.entry w.os
      → ((u : World S) → length (L.ahead u.os fd) < fuel → Copies fd u (copy_out S fuel fd u).1)
      → Copies fd w (copy_chunk S (copy_out S fuel fd) r (record w { os = s })).1
  unfolding copy_chunk
  chunk-Copies fd fuel w (failed e) s enough is to _ same next = record {
    shown = [];
    rest = L.ahead w.os fd;
    last = w.os;
    split = refl;
    reads = here w.os;
    written = sym (append-nil w.out);
    silent = refl;
    same = same;
    whole = inr (e, is);
  }
  chunk-Copies fd fuel w (ok []) s enough is to (_, end) same next = record {
    shown = [];
    rest = [];
    last = w.os;
    split = end (omega arith) refl;
    reads = here w.os;
    written = sym (append-nil w.out);
    silent = refl;
    same = same;
    whole = inl refl;
  }
  chunk-Copies fd fuel w (ok (c ∷ cs)) s enough is to (before, _) same next =
      let after =
        next (record { os = s; out = w.out ++ (c ∷ cs); err = w.err })
          (omega (arith, ap length before, length-append (c ∷ cs) (L.ahead s fd), enough)) in
      record {
        shown = (c ∷ cs) ++ after.shown;
        rest = after.rest;
        last = after.last;
        split =
            before
            ∙ ap (λ r. (c ∷ cs) ++ r) after.split
            ∙ sym (append_assoc (c ∷ cs) after.shown after.rest);
        reads =
            more w.os (c ∷ cs) after.shown after.last is
              (subst (λ x. Reads fd x after.shown after.last) (sym to) after.reads);
        written = after.written ∙ append_assoc w.out (c ∷ cs) after.shown;
        silent = after.silent;
        same = after.same ∙ same;
        whole = after.whole;
      }

  copy_out-Copies :
      (fuel fd : ℕ) (w : World S)
      → length (L.ahead w.os fd) < fuel
      → Copies fd w (copy_out S fuel fd w).1
  unfolding copy_out
  copy_out-Copies zero fd w enough = elim enough [ ]
  copy_out-Copies (suc fuel) fd w enough =
      chunk-Copies fd fuel w (S.read fd buffer_size w.os).0 (S.read fd buffer_size w.os).1 enough
        refl refl (L.ahead-read fd buffer_size w.os) (L.entry-read fd buffer_size w.os)
        (copy_out-Copies fuel fd)

  pub copy_all-Copies : (fd : ℕ) (w : World S) → Copies fd w (copy_all S fd w).1
  unfolding copy_all
  copy_all-Copies fd w =
      copy_out-Copies (S.size w.os fd + 1) fd w (omega (arith, L.length-ahead w.os fd))

  -- Between `before` and `after` the bytes are printed that the reads from `s` on gave, which are all of
  -- them, or the first ones up to the read that fails.
  pub record Shows (fd : ℕ) (s : S.State) (bytes before after : List ℕ) (w t : World S)
      (message : List ℕ) : Type 0 where
    pub shown : List ℕ
    pub rest : List ℕ
    pub last : S.State
    pub split : bytes ≡ shown ++ rest
    pub reads : Reads fd s shown last
    pub written : t.out ≡ w.out ++ before ++ shown ++ after
    pub whole : IsLast fd last rest
    pub in_log : InLog S L w t (L.entry w.os) message

  -- After `prefix` is written, the file is copied and the log gets its line.
  pub shown-Shows :
      (fd : ℕ) (bytes before after message : List ℕ) (w : World S) (s s' : S.State) (t : World S)
      → L.entry s ≡ L.entry w.os
      → L.ahead s fd ≡ bytes
      → Copies fd (record w { os = s; out = w.out ++ before }) t
      → L.entry s' ≡ L.entry t.os
      → Shows fd s bytes before after w
          (log_operation S message (record t { os = s'; out = t.out ++ after })).1
          message
  shown-Shows fd bytes before after message w s s' t same full copies same' =
      let u = record t { os = s'; out = t.out ++ after } in
      let (out, logged) = log_operation-Logged S L message u in
      record {
        shown = copies.shown;
        rest = copies.rest;
        last = copies.last;
        reads = copies.reads;
        split = sym full ∙ copies.split;
        written = out ∙ ap (λ o. o ++ after) copies.written;
        whole = copies.whole;
        in_log =
            InLog-same S L u w (log_operation S message u).1 _ _ message copies.silent
              (same' ∙ copies.same ∙ same) logged;
      }
