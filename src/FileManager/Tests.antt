-- ===== src/FileManager/Tests.antt =====
-- The theorems on the file manager at runs over the file system in memory.
use system_hw.CString.{codes, strcmp_eq, strrchr}
use system_hw.FileManager.Calls.{Name, World}
use system_hw.FileManager.List.{has_extension, ext_eq}
use system_hw.FileManager.List.Lists.{Lists}
use system_hw.FileManager.Main.Spares.{Spares}
use system_hw.FileManager.Memory.{Disk, memory}
use system_hw.FileManager.Read.Prints.{Prints}
use system_hw.FileManager.Tree.{folder, file, change}
use system_hw.Prelude.{ℕ, ◌≡◌, refl, none, some, List, [], ◌∷◌, true}

abbrev notes : Name
notes = codes "notes.txt"

abbrev docs : Name
docs = codes "docs"

-- A directory "docs" that lists as empty, and a file.
abbrev small_disk : Disk
small_disk = record {
  tree =
      change docs (λ _. some folder) (change notes (λ _. some (file (codes "hello"))) (λ _. none));
  names = λ _. codes "." ∷ codes ".." ∷ [];
  path = [];
  left = [];
}

abbrev small : World memory
small = record { os = small_disk; out = []; err = [] }

-- `fileManager deleteFile notes.txt`
abbrev delete_notes : List (List ℕ)
delete_notes = codes "fileManager" ∷ codes "deleteFile" ∷ notes ∷ []

txt_extension : has_extension (codes ".txt") notes ≡ true
unfolding has_extension ext_eq codes strcmp_eq strrchr
txt_extension = refl
