-- ===== src/LogAnalyzer/Buffer/Schedule.antt =====
-- Threads that share the buffer of hw4/buffer.c. The mutex makes a run of the program a sequence
-- of critical sections; which thread runs which section, and what it reads from `running`, is free.
use system_hw.Prelude.{
  ◌≡◌, sym, ap, ◌∙◌, Bool, ◌&&◌, none, some, List, [], ◌∷◌, ◌++◌, append_assoc, ℕ,
}
use system_hw.LogAnalyzer.Buffer.{
  Buffer, Added, inserted, dropped, add_waits, Removed, returned, remove_waits, add_to_buffer,
  add_after_wait, remove_from_buffer, remove_after_wait,
}
use system_hw.LogAnalyzer.Buffer.Fifo.{
  Holds, AddsTo, TakesFrom, add_to_buffer-AddsTo, add_after_wait-AddsTo,
  remove_from_buffer-TakesFrom, remove_after_wait-TakesFrom,
}

pub data Section (A : Type 0) : Type 0 where
  add : Bool → A → Section A
  add_again : Bool → Bool → A → Section A
  remove : Bool → Section A
  remove_again : Bool → Bool → Section A

-- The buffer, the lines that have gone in and the lines that have come out, in order.
pub record History (A : Type 0) : Type 0 where
  pub buffer : Buffer A
  pub put : List A
  pub got : List A

module _ {A : Type 0} where
  after_add : History A → A → Added A → History A
  after_add h line (inserted b) = record h { buffer = b; put = h.put ++ (line ∷ []) }
  after_add h line dropped = h
  after_add h line add_waits = h

  after_remove : History A → Removed A → History A
  after_remove h (returned none b) = record h { buffer = b }
  after_remove h (returned (some line) b) = record h { buffer = b; got = h.got ++ (line ∷ []) }
  after_remove h remove_waits = h

  unfoldable pub step : History A → Section A → History A
  unfolding after_add after_remove
  step h (add running line) = after_add h line (add_to_buffer running h.buffer line)
  step h (add_again woken running line) =
      after_add h line (add_after_wait woken running h.buffer line)
  step h (remove running) = after_remove h (remove_from_buffer running h.buffer)
  step h (remove_again woken running) = after_remove h (remove_after_wait woken running h.buffer)

  unfoldable pub run : History A → List (Section A) → History A
  run h [] = h
  run h (s ∷ ss) = run (step h s) ss

  -- What has gone in is what has come out, followed by what the buffer holds.
  pub record Balanced (size : ℕ) (h : History A) : Type 0 where
    pub same_size : h.buffer.size ≡ size
    pub queue : List A
    pub holds : Holds h.buffer queue
    pub in_order : h.put ≡ h.got ++ queue

  after_add-Balanced :
      (size : ℕ) (h : History A) (line : A) (running : Bool) (out : Added A)
      → (v : Balanced size h) → AddsTo h.buffer v.queue line running out
      → Balanced size (after_add h line out)
  unfolding after_add
  after_add-Balanced size h line running (inserted b) v (room, same, holds) = record {
    same_size = same ∙ v.same_size;
    queue = v.queue ++ (line ∷ []);
    holds = holds;
    in_order = ap (λ xs. xs ++ (line ∷ [])) v.in_order ∙ append_assoc h.got v.queue (line ∷ []);
  }
  after_add-Balanced size h line running dropped v a = v
  after_add-Balanced size h line running add_waits v a = v

  after_remove-Balanced :
      (size : ℕ) (h : History A) (running : Bool) (out : Removed A)
      → (v : Balanced size h) → TakesFrom h.buffer v.queue running out
      → Balanced size (after_remove h out)
  unfolding after_remove
  after_remove-Balanced size h running (returned none b) v (none_left, stopping, same) = rw same v
  after_remove-Balanced size h running (returned (some line) b) v (same, rest, split, holds) =
      record {
        same_size = same ∙ v.same_size;
        queue = rest;
        holds = holds;
        in_order =
            v.in_order ∙ ap (λ q. h.got ++ q) split ∙ sym (append_assoc h.got (line ∷ []) rest);
      }
  after_remove-Balanced size h running remove_waits v a = v

  step-Balanced :
      (size : ℕ) (h : History A) (s : Section A) → Balanced size h → Balanced size (step h s)
  unfolding step
  step-Balanced size h (add running line) v =
      after_add-Balanced size h line running _ v
        (add_to_buffer-AddsTo running h.buffer v.queue line v.holds)
  step-Balanced size h (add_again woken running line) v =
      after_add-Balanced size h line (woken && running) _ v
        (add_after_wait-AddsTo woken running h.buffer v.queue line v.holds)
  step-Balanced size h (remove running) v =
      after_remove-Balanced size h running _ v
        (remove_from_buffer-TakesFrom running h.buffer v.queue v.holds)
  step-Balanced size h (remove_again woken running) v =
      after_remove-Balanced size h (woken && running) _ v
        (remove_after_wait-TakesFrom woken running h.buffer v.queue v.holds)

  -- From a well-formed buffer that holds the lines put in and not yet taken out, in order:
  -- whatever the threads do, and in whatever order their critical sections run, the buffer keeps
  -- its size and its invariant, and the lines put in are the lines taken out followed by those
  -- that it still holds: none is lost, doubled or overtaken.
  pub run-Balanced :
      (size : ℕ) (h : History A) (ss : List (Section A))
      → Balanced size h
      → Balanced size (run h ss)
  unfolding run
  run-Balanced size h [] v = v
  run-Balanced size h (s ∷ ss) v = run-Balanced size (step h s) ss (step-Balanced size h s v)
