-- ===== src/Station/Queue/Tests.antt =====
-- The theorems on the list of requests at a concrete heap.
use system_hw.Prelude.{refl, true, false, none, some, [], ◌∷◌, arith, if◌then◌else◌, ◌==◌}
use system_hw.Station.Queue.{SatelliteRequest, Heap, null, find_and_remove_highest_priority}
use system_hw.Station.Queue.Seg.{Seg}
use system_hw.Station.Queue.Remove.{Removes, find_and_remove_highest_priority-Removes}

abbrev first : SatelliteRequest
first = record { id = 0; priority = 4; handled = false; next = 16 }

abbrev second : SatelliteRequest
second = record { id = 1; priority = 2; handled = false; next = 24 }

abbrev third : SatelliteRequest
third = record { id = 2; priority = 2; handled = true; next = null }

abbrev fresh : SatelliteRequest
fresh = record { id = 3; priority = 1; handled = false; next = null }

abbrev heap : Heap
heap a =
    if a == 8
    then some first
    else if a == 16
    then some second
    else if a == 24
    then some third
    else if a == 32
    then some fresh
    else none

heap-Seg : Seg heap 8 (8 ∷ 16 ∷ 24 ∷ [])
heap-Seg = (
  refl,
  ground arith,
  refl,
  first,
  refl,
  (refl, ground arith, refl, second, refl, (refl, ground arith, refl, third, refl, refl)),
)

find_and_remove_highest_priority-Removes_example :
    Removes heap 8 (16 ∷ 24 ∷ []) (find_and_remove_highest_priority 3 heap 8)
find_and_remove_highest_priority-Removes_example =
    find_and_remove_highest_priority-Removes 3 heap 8 (16 ∷ 24 ∷ []) (omega arith) heap-Seg
