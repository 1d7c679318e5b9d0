-- ===== src/LogAnalyzer/Manager/Stream/Failures.antt =====
-- The manager of hw4/210104004042_main.c when `read` fails.
use system_hw.Prelude.{
  ℕ, zero, suc, ◌≡◌, refl, sym, ap, ◌∙◌, true, false, List, [], ◌∷◌, ◌++◌, map, append-nil, arith,
}
use system_hw.LogAnalyzer.Manager.{
  Action, Env, Manager, Read, failure, LastRead, unset, positive, error, start, scan_chunk,
  read_loop, last_line, check_error, send_markers, manager, read_running, act,
}
use system_hw.LogAnalyzer.Manager
use system_hw.LogAnalyzer.Manager.Lines.{lines_of, lines_of_lem}
use system_hw.LogAnalyzer.Manager.Stream.{
  IsSteady, IsGood, Keeps, Keeps-trans, Keeps-counted, counted, read_running-steady,
  scan_chunk-Keeps, total, adds, chunks, file_of,
}

-- A prefix of a list of `add` actions adds a prefix of the lines.
map-prefix :
    (xs ys : List Action) (zs : List (List ℕ))
    → xs ++ ys ≡ map Action.add zs
    → (done left : List (List ℕ)) × (zs ≡ done ++ left) × (xs ≡ map Action.add done)
map-prefix [] ys zs e = ([], zs, refl, refl)
map-prefix (x ∷ xs) ys [] e = cc
map-prefix (x ∷ xs) ys (z ∷ zs) e =
    let (done, left, split, same) = map-prefix xs ys zs (cc e) in
    (z ∷ done, left, ap (λ ls. z ∷ ls) split, cc (e, same))

module _ (env : Env) (steady : IsSteady env) where
  record Breaks (m : Manager) (bytes : List ℕ) (out : Manager × LastRead) : Type 0 where
    kept : Keeps m out.0 bytes
    ended : out.1 ≡ error

  read_loop-Breaks :
      (last : LastRead) (m : Manager) (parts : List (ℕ × List ℕ)) (more : List Read)
      → IsGood m
      → Breaks m (file_of parts) (read_loop env last m (chunks parts ++ (failure ∷ more)))
  unfolding read_loop chunks file_of
  read_loop-Breaks last m [] more g =
      rw (read_running-steady env steady m g.alive)
        (record { kept = Keeps-counted env steady m g; ended = refl })
  read_loop-Breaks last m ((c, cs) ∷ parts) more g =
      let first = Keeps-counted env steady m g in
      let scanned = scan_chunk-Keeps env steady (counted env steady m) (c ∷ cs) first.good in
      let again = Keeps-counted env steady _ scanned.good in
      let rest = read_loop-Breaks positive _ parts more again.good in
      rw
        (
          read_running-steady env steady m g.alive,
          read_running-steady env steady (scan_chunk env (counted env steady m) (c ∷ cs))
              scanned.good.alive,
        )
        (record {
          kept = Keeps-trans env steady m _ _ [] ((c ∷ cs) ++ file_of parts) first (
              Keeps-trans env steady _ _ _ (c ∷ cs) (file_of parts) scanned
                (Keeps-trans env steady _ _ _ [] (file_of parts) again rest.kept));
          ended = rest.ended;
        })

  last_line-error :
      (m : Manager)
      → m.stopped ≡ false
      → ((last_line env error m).actions ≡ m.actions) × ((last_line env error m).stopped ≡ false)
  unfolding last_line Manager.is_eof read_running
  last_line-error m h = ground arith

  check_error-stops :
      (m : Manager)
      → m.stopped ≡ false
      → ((check_error env error m).actions ≡ m.actions ++ (Action.clear_running ∷ []))
        × ((check_error env error m).stopped ≡ true)
  unfolding check_error Manager.is_error read_running Manager.stop act
  check_error-stops m h = ground (arith, steady.runs m.reads)

  send_markers-stopped :
      (n : ℕ) (m : Manager) → m.stopped ≡ true → (send_markers env n m).actions ≡ m.actions
  unfolding send_markers read_running
  send_markers-stopped zero m h = refl
  send_markers-stopped (suc n) m h = simp h

  after_error :
      (n : ℕ) (m : Manager)
      → m.stopped ≡ false
      → (send_markers env n (check_error env error (last_line env error m))).actions
        ≡ m.actions ++ (Action.clear_running ∷ [])
  after_error n m h =
      let last = last_line-error m h in
      let checked = check_error-stops (last_line env error m) last.1 in
      send_markers-stopped n _ checked.1
      ∙ checked.0
      ∙ ap (λ xs. xs ++ (Action.clear_running ∷ [])) last.0

  -- While `running` stays set and no other call fails, a read error in the middle of the file:
  -- the manager has handed over some of the lines, the first ones, and all that it does after
  -- them is to clear `running`. It sends no end marker and wakes no worker.
  pub manager_read_error :
      (parts : List (ℕ × List ℕ)) (more : List Read) (num_workers : ℕ)
      → (done left : List (List ℕ)) × (lines_of (file_of parts) ≡ done ++ left)
        × ((manager env true (chunks parts ++ (failure ∷ more)) num_workers).actions
            ≡ map Action.add done ++ (Action.clear_running ∷ []))
  unfolding manager total adds
  manager_read_error parts more n =
      let (done, left, split, same) =
        map-prefix (read_loop env unset start (chunks parts ++ (failure ∷ more))).0.actions _
          (lines_of (file_of parts)) whole in
      (
        done,
        left,
        split,
        rw broken.ended (
            after_error n _ broken.kept.good.alive
            ∙ ap (λ xs. xs ++ (Action.clear_running ∷ [])) same),
      )
    where
      broken :
          Breaks start
            (file_of parts)
            (read_loop env unset start (chunks parts ++ (failure ∷ more)))
      broken = read_loop-Breaks unset start parts more (record { alive = refl; fits = omega arith })

      whole :
          total (read_loop env unset start (chunks parts ++ (failure ∷ more))).0 []
          ≡ map Action.add (lines_of (file_of parts))
      whole =
          broken.kept.same []
          ∙ ap (total start) (append-nil (file_of parts))
          ∙ ap (map Action.add) (sym (lines_of_lem (file_of parts)))
