-- ===== src/LogAnalyzer/Buffer/Tests.antt =====
-- The theorems about hw4/buffer.c at concrete inputs.
use system_hw.Prelude.{ℕ, ◌≡◌, refl, true, false, none, some, List, [], ◌∷◌, arith}
use system_hw.LogAnalyzer.Buffer.{
  Buffer, InitCalls, add_to_buffer, add_after_wait, remove_from_buffer, remove_after_wait, insert,
  take_out,
}
use system_hw.LogAnalyzer.Buffer.Window.{entries}
use system_hw.LogAnalyzer.Buffer.Fifo.{Holds, RefinesQueue, sections-RefinesQueue}
use system_hw.LogAnalyzer.Buffer.Schedule.{
  History, Section, add, add_again, remove, remove_again, step, run, Balanced, run-Balanced,
}

-- Lines 7 and 8, round the end of an array of three.
abbrev wrapped : Buffer ℕ
wrapped = record {
  allocated = true;
  cells = some 8 ∷ none ∷ some 7 ∷ [];
  size = 3;
  count = 2;
  head = 1;
  tail = 2;
  mutex = true;
  not_full = true;
  not_empty = true;
}

abbrev zeroed : Buffer ℕ
zeroed = record {
  allocated = false;
  cells = [];
  size = 0;
  count = 0;
  head = 0;
  tail = 0;
  mutex = false;
  not_full = false;
  not_empty = false;
}

abbrev calls : InitCalls ℕ
calls = record {
  storage = some (none ∷ none ∷ []);
  mutex_ok = true;
  not_full_ok = false;
  not_empty_ok = true;
}

wrapped-Holds : Holds wrapped (7 ∷ 8 ∷ [])
unfolding entries
wrapped-Holds = record { valid = ground arith; lines = refl }

abbrev history : History ℕ
history = record { buffer = wrapped; put = 7 ∷ 8 ∷ []; got = [] }

abbrev sections : List (Section ℕ)
sections =
    add true 9 ∷ add true 10 ∷ remove true ∷ add_again true true 10 ∷ remove_again false false ∷ []

fifo_order : (run history sections).got ≡ 7 ∷ 8 ∷ []
unfolding run step add_to_buffer add_after_wait remove_from_buffer remove_after_wait insert take_out
fifo_order = refl

run-Balanced_example : Balanced 3 (run history sections)
run-Balanced_example =
    run-Balanced 3 history sections
      (record { same_size = refl; queue = 7 ∷ 8 ∷ []; holds = wrapped-Holds; in_order = refl })

sections-RefinesQueue_example : RefinesQueue true false wrapped (7 ∷ 8 ∷ []) 9
sections-RefinesQueue_example =
    sections-RefinesQueue true false wrapped (7 ∷ 8 ∷ []) 9 wrapped-Holds
