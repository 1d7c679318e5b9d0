-- ===== src/LogAnalyzer/Manager/Stream.antt =====
-- What the manager of hw4/210104004042_main.c hands over when nothing fails and no signal comes.
pub mod Failures
use system_hw.CString.{c_string}
use system_hw.Prelude.{
  ℕ, zero, suc, ◌+◌, ◌≤◌, ◌<◌, ◌≡◌, ◌≢◌, refl, sym, ap, ap₂, ◌∙◌, Bool, true, false, List, [], ◌∷◌,
  ◌++◌, map, length, replicate, length-append, append_assoc, append-nil, map-append, arith, ◌==◌,
  Bool-cases, inl, inr, ltb, subst,
}
use system_hw.LogAnalyzer.Manager.{
  Action, Env, Manager, Read, chunk, LastRead, unset, positive, eof, line_capacity, eof_marker,
  start, take_byte, scan_chunk, read_loop, last_line, check_error, send_markers, manager,
  read_running, hand_over, act, is_eof,
}
use system_hw.LogAnalyzer.Manager
use system_hw.LogAnalyzer.Manager.Lines.{
  lines_of, lines_of_lem, pending, pieces, pieces_short, pieces-nil, pending-newline,
  pending-newline-nil, pending-short, pending-full, pending-end,
}

-- `running` stays set and every copy succeeds.
pub record IsSteady (env : Env) : Type 0 where
  pub runs : (k : ℕ) → env.running_at k ≡ true
  pub copies : (k : ℕ) → env.copy_ok k ≡ true

adds : List (List ℕ) → List Action
adds ls = map Action.add (map c_string ls)

-- All that the manager has done and will do for the bytes `rest`.
total : Manager → List ℕ → List Action
unfolding adds
total m rest = m.actions ++ adds (pending m.line rest)

record IsGood (m : Manager) : Type 0 where
  alive : m.stopped ≡ false
  fits : length m.line ≤ line_capacity

-- A step that keeps the sum of what is done and what is to be done.
record Keeps (m m' : Manager) (taken : List ℕ) : Type 0 where
  good : IsGood m'
  same : (rest : List ℕ) → total m' rest ≡ total m (taken ++ rest)

total-add :
    (actions : List Action) (l : List ℕ) (ls : List (List ℕ))
    → (actions ++ (Action.add (c_string l) ∷ [])) ++ adds ls ≡ actions ++ adds (l ∷ ls)
unfolding adds
total-add actions l ls = append_assoc actions (Action.add (c_string l) ∷ []) (adds ls)

-- The chunks that `read` returns, and the file that they make up.
unfoldable pub chunks : List (ℕ × List ℕ) → List Read
chunks [] = []
chunks ((c, cs) ∷ rest) = chunk c cs ∷ chunks rest

unfoldable pub file_of : List (ℕ × List ℕ) → List ℕ
file_of [] = []
file_of ((c, cs) ∷ rest) = (c ∷ cs) ++ file_of rest

module _ (env : Env) (steady : IsSteady env) where
  hand_over-steady :
      (text : List ℕ) (m : Manager)
      → hand_over env text m ≡ record m {
        copies = m.copies + 1;
        actions = m.actions ++ (Action.add (c_string text) ∷ []);
      }
  unfolding hand_over
  hand_over-steady text m = rw (steady.copies m.copies)

  take_byte-newline :
      (m : Manager) (l : List ℕ)
      → IsGood m
      → m.line ≡ l
      → Keeps m (take_byte env m b'\n') (b'\n' ∷ [])
  unfolding take_byte total
  take_byte-newline m [] g e = record {
    good = ground (arith, g.alive, g.fits);
    same = λ rest. ground (arith, g.alive, pending-newline-nil rest);
  }
  take_byte-newline m (x ∷ l) g e = record {
    good = ground (arith, g.alive, g.fits, steady.copies m.copies);
    same = λ rest. ground (
      arith,
      g.alive,
      g.fits,
      steady.copies m.copies,
      pending-newline x l rest,
      total-add m.actions (x ∷ l) (pending [] rest),
    );
  }

  take_byte-other :
      (m : Manager) (c : ℕ) → c ≢ b'\n' → IsGood m → Keeps m (take_byte env m c) (c ∷ [])
  unfolding take_byte total
  take_byte-other m c h g = record {
    good =
        ground (arith, g.alive, g.fits, steady.copies m.copies, length-append {0} m.line (c ∷ []));
    same = λ rest. ground (
      arith,
      g.alive,
      g.fits,
      steady.copies m.copies,
      pending-short m.line c rest,
      pending-full m.line c rest,
      total-add m.actions m.line (pending [] rest),
    );
  }

  take_byte-Keeps : (m : Manager) (c : ℕ) → IsGood m → Keeps m (take_byte env m c) (c ∷ [])
  take_byte-Keeps m c g = elim (Bool-cases (c == b'\n')) [
    | inl e ↦
        let here : c ≡ b'\n' = ground arith in
        subst (λ k. Keeps m (take_byte env m k) (k ∷ [])) (sym here)
          (take_byte-newline m m.line g refl)
    | inr e ↦ take_byte-other m c (ground arith) g
  ]

  counted : Manager → Manager
  counted m = record m { reads = m.reads + 1 }

  read_running-steady : (m : Manager) → m.stopped ≡ false → read_running env m ≡ (true, counted m)
  unfolding read_running counted
  read_running-steady m h = rw (h, steady.runs m.reads)

  Keeps-counted : (m : Manager) → IsGood m → Keeps m (counted m) []
  unfolding counted total
  Keeps-counted m g = record {
    good = record { alive = g.alive; fits = g.fits };
    same = λ rest. refl;
  }

  Keeps-trans :
      (m n o : Manager) (cs ds : List ℕ) → Keeps m n cs → Keeps n o ds → Keeps m o (cs ++ ds)
  Keeps-trans m n o cs ds p q = record {
    good = q.good;
    same = λ rest. q.same rest ∙ p.same (ds ++ rest) ∙ ap (total m) (sym (append_assoc cs ds rest));
  }

  scan_chunk-Keeps : (m : Manager) (cs : List ℕ) → IsGood m → Keeps m (scan_chunk env m cs) cs
  unfolding scan_chunk
  scan_chunk-Keeps m [] g = record { good = g; same = λ rest. refl }
  scan_chunk-Keeps m (c ∷ cs) g =
      let taken = take_byte-Keeps (counted m) c (Keeps-counted m g).good in
      let rest = scan_chunk-Keeps (take_byte env (counted m) c) cs taken.good in
      rw (read_running-steady m g.alive) (
        simp taken.good.alive (
          Keeps-trans m (counted m) _ [] (c ∷ cs) (Keeps-counted m g)
            (Keeps-trans (counted m) (take_byte env (counted m) c) _ (c ∷ []) cs taken rest)))

  record Finishes (m : Manager) (bytes : List ℕ) (out : Manager × LastRead) : Type 0 where
    kept : Keeps m out.0 bytes
    ended : out.1 ≡ eof

  read_loop-Finishes :
      (last : LastRead) (m : Manager) (parts : List (ℕ × List ℕ))
      → IsGood m
      → Finishes m (file_of parts) (read_loop env last m (chunks parts))
  unfolding read_loop chunks file_of
  read_loop-Finishes last m [] g =
      rw (read_running-steady m g.alive) (record { kept = Keeps-counted m g; ended = refl })
  read_loop-Finishes last m ((c, cs) ∷ parts) g =
      let scanned = scan_chunk-Keeps (counted m) (c ∷ cs) (Keeps-counted m g).good in
      let again = Keeps-counted _ scanned.good in
      let rest = read_loop-Finishes positive _ parts again.good in
      rw
        (
          read_running-steady m g.alive,
          read_running-steady (scan_chunk env (counted m) (c ∷ cs)) scanned.good.alive,
        )
        (record {
          kept = Keeps-trans m (counted m) _ [] ((c ∷ cs) ++ file_of parts) (Keeps-counted m g) (
              Keeps-trans (counted m) _ _ (c ∷ cs) (file_of parts) scanned (
                Keeps-trans (scan_chunk env (counted m) (c ∷ cs)) _ _ [] (file_of parts) again
                  rest.kept));
          ended = rest.ended;
        })

  last_line-actions :
      (m : Manager) (l : List ℕ)
      → IsGood m
      → m.line ≡ l
      → ((last_line env eof m).actions ≡ total m []) × ((last_line env eof m).stopped ≡ false)
  unfolding last_line total counted adds is_eof act
  last_line-actions m [] g e =
      rw (read_running-steady m g.alive, pending-end, e, pieces-nil)
        (sym (append-nil m.actions), g.alive)
  last_line-actions m (x ∷ l) g e =
      rw (read_running-steady m g.alive, pending-end, e)
        (ground (arith, g.alive, g.fits, e, steady.copies m.copies, pieces_short x l))

  -- After one end marker.
  marked : Manager → Manager
  marked m = record m {
    reads = m.reads + 1;
    copies = m.copies + 1;
    actions = m.actions ++ (Action.add eof_marker ∷ []);
  }

  send_markers-actions :
      (n : ℕ) (m : Manager)
      → m.stopped ≡ false
      → (send_markers env n m).actions ≡ m.actions ++ replicate n (Action.add eof_marker)
  unfolding send_markers counted marked c_string
  send_markers-actions zero m h = sym (append-nil m.actions)
  send_markers-actions (suc n) m h =
      rw (read_running-steady m h, hand_over-steady eof_marker)
        (ground (
          arith,
          h,
          send_markers-actions n (marked m) h,
          append_assoc m.actions (Action.add eof_marker ∷ []) (replicate n (Action.add eof_marker)),
        ))

  -- While `running` stays set and no call fails, the manager hands over the lines of the file and
  -- then one end marker for each worker, however `read` cuts the file into chunks. The lines are what
  -- stands between line feeds, except that empty ones are left out, that one of more than 1023 bytes
  -- is cut into lines of 1023 with the byte after each of them lost, and that each ends at its first
  -- NUL.
  pub manager-actions :
      (parts : List (ℕ × List ℕ)) (num_workers : ℕ)
      → (manager env true (chunks parts) num_workers).actions
        ≡ map Action.add (lines_of (file_of parts)) ++ replicate num_workers (Action.add eof_marker)
  unfolding manager check_error total adds
  manager-actions parts n =
      rw (read.ended, check_error)
        (send_markers-actions n _ last.1
          ∙ ap (λ xs. xs ++ replicate n (Action.add eof_marker))
              (last.0 ∙ read.kept.same [] ∙ whole))
    where
      read : Finishes start (file_of parts) (read_loop env unset start (chunks parts))
      read = read_loop-Finishes unset start parts (record { alive = refl; fits = omega arith })

      last :
          ((last_line env eof (read_loop env unset start (chunks parts)).0).actions
            ≡ total (read_loop env unset start (chunks parts)).0 [])
          × ((last_line env eof (read_loop env unset start (chunks parts)).0).stopped ≡ false)
      last = last_line-actions _ _ read.kept.good refl

      whole : total start (file_of parts ++ []) ≡ map Action.add (lines_of (file_of parts))
      whole =
          ap (total start) (append-nil (file_of parts))
          ∙ ap (map Action.add) (sym (lines_of_lem (file_of parts)))
