-- ===== src/Relay/Tests.antt =====
-- The theorems on hw2/main.c at the numbers 3 and 7.
use system_hw.Prelude.Int.{pos}
use system_hw.Prelude.{true, false, []}
use system_hw.Relay.{done, gone, Daemon, Processes}

-- Where `plain_end` leads.
abbrev last : Processes
last = record {
  n1 = pos 3;
  n2 = pos 7;
  unset = pos 0;
  parent = done;
  child1 = gone (pos 7);
  child2 = gone (pos 7);
  daemon = Daemon.gone;
  fifo1 = record { reader = true; writer = true; closed = true; items = [] };
  fifo2 = record { reader = true; writer = true; closed = true; items = [] };
  child_counter = 4;
  daemon_known = true;
  pending = true;
  handling = false;
}
