-- ===== src/LogAnalyzer/Buffer/Fifo.antt =====
-- hw4/buffer.c as a bounded queue: each critical section of `add_to_buffer` and
-- `remove_from_buffer` against a list, and any interleaving of them.
use system_hw.Prelude.{
  ◌<◌, ◌≡◌, refl, sym, ap, ◌∙◌, Bool, ◌&&◌, true, false, none, some, List, [], ◌∷◌, ◌++◌, map,
  length, length-map, arith, map-append,
}
use system_hw.LogAnalyzer.Buffer.{
  Buffer, Added, inserted, dropped, add_waits, Removed, returned, remove_waits, add_to_buffer,
  add_after_wait, remove_from_buffer, remove_after_wait, insert, take_out,
}
use system_hw.LogAnalyzer.Buffer.Inv.{IsValid, insert-IsValid, take_out-IsValid}
use system_hw.LogAnalyzer.Buffer.Window.{entries, length-entries, entries-insert, entries-take_out}

module _ {A : Type 0} where
  -- The buffer is well formed and holds the lines `q`, oldest first.
  pub record Holds (b : Buffer A) (q : List A) : Type 0 where
    pub valid : IsValid b
    pub lines : entries b ≡ map some q

  pub Holds-count : (b : Buffer A) (q : List A) → Holds b q → b.count ≡ length q
  Holds-count b q h = sym (length-entries b) ∙ ap length h.lines ∙ length-map q some

  -- What a section of `add_to_buffer` may do to a queue of capacity `b.size`.
  abbrev pub AddsTo : Buffer A → List A → A → Bool → Added A → Type 0
  AddsTo b q line running (inserted b') =
      (length q < b.size) × (b'.size ≡ b.size) × Holds b' (q ++ (line ∷ []))
  AddsTo b q line running dropped = (length q ≡ b.size) × (running ≡ false)
  AddsTo b q line running add_waits = (length q ≡ b.size) × (running ≡ true)

  abbrev pub TakesFrom : Buffer A → List A → Bool → Removed A → Type 0
  TakesFrom b q running (returned none b') = (q ≡ []) × (running ≡ false) × (b' ≡ b)
  TakesFrom b q running (returned (some line) b') =
      (b'.size ≡ b.size) × (rest : List A) × (q ≡ line ∷ rest) × Holds b' rest
  TakesFrom b q running remove_waits = (q ≡ []) × (running ≡ true)

  insert-Holds :
      (b : Buffer A) (q : List A) (line : A)
      → Holds b q
      → b.count < b.size
      → Holds (insert b line) (q ++ (line ∷ []))
  insert-Holds b q line h lt = record {
    valid = insert-IsValid b line h.valid lt;
    lines =
        entries-insert b line h.valid lt
        ∙ ap (λ xs. xs ++ (some line ∷ [])) h.lines
        ∙ sym (map-append some q (line ∷ []));
  }

  size-insert : (b : Buffer A) (line : A) → (insert b line).size ≡ b.size
  unfolding insert
  size-insert b line = refl

  size-take_out : (b : Buffer A) → (take_out b).1.size ≡ b.size
  unfolding take_out
  size-take_out b = refl

  -- On a well-formed buffer that holds the lines `q`, `add_to_buffer` appends the line, and keeps
  -- the buffer well formed and its size, when fewer than `size` lines are held; on a full buffer it
  -- sleeps while the program runs and frees the line otherwise.
  pub add_to_buffer-AddsTo :
      (running : Bool) (b : Buffer A) (q : List A) (line : A)
      → Holds b q
      → AddsTo b q line running (add_to_buffer running b line)
  unfolding add_to_buffer
  add_to_buffer-AddsTo running b q line h =
      ground (arith, Holds-count b q h, insert-Holds b q line h, size-insert b line)

  -- After a wake-up `add_to_buffer` does to the lines `q` of a well-formed buffer what it does at its
  -- start (append when there is room, else sleep or free the line), where the program counts as
  -- running if both reads of `running` are set.
  pub add_after_wait-AddsTo :
      (woken running : Bool) (b : Buffer A) (q : List A) (line : A)
      → Holds b q
      → AddsTo b q line (woken && running) (add_after_wait woken running b line)
  unfolding add_after_wait
  add_after_wait-AddsTo woken running b q line h =
      ground (arith, Holds-count b q h, add_to_buffer-AddsTo running b q line h)

  take_out-Holds :
      (b : Buffer A) (line : A) (rest : List A)
      → Holds b (line ∷ rest)
      → ((take_out b).0 ≡ some line) × Holds (take_out b).1 rest
  take_out-Holds b line rest h =
      (cc (split), record { valid = take_out-IsValid b h.valid nonempty; lines = cc (split) })
    where
      nonempty : 0 < b.count
      nonempty = omega (arith, Holds-count b (line ∷ rest) h)

      split : (take_out b).0 ∷ entries (take_out b).1 ≡ some line ∷ map some rest
      split = sym (entries-take_out b h.valid nonempty) ∙ h.lines

  -- On a well-formed buffer that holds the lines `q`, `remove_from_buffer` returns the oldest of
  -- them and leaves the others, well formed and of the same size; on an empty buffer it sleeps while
  -- the program runs, and otherwise returns NULL and changes nothing.
  pub remove_from_buffer-TakesFrom :
      (running : Bool) (b : Buffer A) (q : List A)
      → Holds b q
      → TakesFrom b q running (remove_from_buffer running b)
  unfolding remove_from_buffer
  remove_from_buffer-TakesFrom running b [] h = ground (arith, Holds-count b [] h)
  remove_from_buffer-TakesFrom running b (line ∷ rest) h =
      ground (arith, Holds-count b (line ∷ rest) h, take_out-Holds b line rest h, size-take_out b)

  -- After a wake-up `remove_from_buffer` does to the lines `q` of a well-formed buffer what it does at
  -- its start (return the oldest, else sleep or return NULL), where the program counts as running if
  -- both reads of `running` are set.
  pub remove_after_wait-TakesFrom :
      (woken running : Bool) (b : Buffer A) (q : List A)
      → Holds b q
      → TakesFrom b q (woken && running) (remove_after_wait woken running b)
  unfolding remove_after_wait
  remove_after_wait-TakesFrom false running b [] h = ground (arith, Holds-count b [] h)
  remove_after_wait-TakesFrom false running b (line ∷ rest) h =
      ground (
        arith,
        Holds-count b (line ∷ rest) h,
        remove_from_buffer-TakesFrom running b (line ∷ rest) h,
      )
  remove_after_wait-TakesFrom true running b q h = remove_from_buffer-TakesFrom running b q h

  -- The four critical sections on a buffer that holds the lines `q`: where either call begins, with
  -- `running`, and where it goes on after a wake-up, with the two reads `woken` and `running`.
  abbrev pub RefinesQueue : Bool → Bool → Buffer A → List A → A → Type 0
  RefinesQueue woken running b q line =
      AddsTo b q line running (add_to_buffer running b line)
      × AddsTo b q line (woken && running) (add_after_wait woken running b line)
      × TakesFrom b q running (remove_from_buffer running b)
      × TakesFrom b q (woken && running) (remove_after_wait woken running b)

  -- On a well-formed buffer that holds the lines `q`, each critical section of `add_to_buffer` appends
  -- the line when fewer than `size` lines are held, and each of `remove_from_buffer` returns the
  -- oldest line and leaves the others, the buffer well formed and of the same size. On a full or empty
  -- buffer the call sleeps while the program runs, and otherwise frees the line, or returns NULL and
  -- changes nothing; after a wake-up the program runs if both reads of `running` are set.
  pub sections-RefinesQueue :
      (woken running : Bool) (b : Buffer A) (q : List A) (line : A)
      → Holds b q
      → RefinesQueue woken running b q line
  sections-RefinesQueue woken running b q line h = (
    add_to_buffer-AddsTo running b q line h,
    add_after_wait-AddsTo woken running b q line h,
    remove_from_buffer-TakesFrom running b q h,
    remove_after_wait-TakesFrom woken running b q h,
  )
