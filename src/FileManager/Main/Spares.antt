-- ===== src/FileManager/Main/Spares.antt =====
-- What a run of the program of hw1/main.c leaves alone.
use system_hw.FileManager.Calls.{Name, Os, World}
use system_hw.FileManager.Create.{log_file}
use system_hw.FileManager.Create.Ends.{Ends}
use system_hw.FileManager.Main.{
  Command, create_dir, create_file_at, delete_at, delete_dir, append_at,
}
use system_hw.FileManager.Tree.{Tree, Lawful}
use system_hw.Prelude.{◌≡◌, List}

module _ (S : Os) (L : Lawful S) (m : Name) (log : L.apart log_file m) where
  -- `m` is apart from the name that the command is to change, if it is to change one.
  abbrev pub IsClear : Command → Type 0
  IsClear (create_dir name) = L.apart name m
  IsClear (create_file_at name) = L.apart name m
  IsClear (append_at name content) = L.apart name m
  IsClear (delete_at name) = L.apart name m
  IsClear (delete_dir name) = L.apart name m
  IsClear _ = Unit {0}

  abbrev pub Spares : World S → World S → Type 0
  Spares w t = L.entry t.os m ≡ L.entry w.os m
