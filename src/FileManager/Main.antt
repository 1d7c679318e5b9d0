-- ===== src/FileManager/Main.antt =====
-- `main` of hw1/main.c: which command a run performs.
pub mod Spares
use system_hw.CString.{codes, strcmp_eq}
use system_hw.FileManager.Calls.{Name, Os, Program, put_out}
use system_hw.FileManager.Create.{create_directory, create_file, append_to_file}
use system_hw.FileManager.List.{list_directory, list_files_by_extension}
use system_hw.FileManager.Read.{read_file, show_logs}
use system_hw.FileManager.Delete.{delete_file, delete_directory}
use system_hw.Prelude.{ℕ, Bool, ◌&&◌, List, [], ◌∷◌, ◌++◌, length, get_or, ltb, ◌==◌, if◌then◌else◌}

-- The calls that `main` chooses from, with their arguments.
pub data Command : Type 0 where
  create_dir create_file_at list_dir read_at delete_at delete_dir : Name → Command
  list_by_extension : Name → List ℕ → Command
  append_at : Name → List ℕ → Command
  show help : Command

-- `strcmp(argv[1], word) == 0 && argc == n`
is_call : List ℕ → ℕ → List (List ℕ) → Bool
is_call word n argv = strcmp_eq (get_or argv 1 []) word && length argv == n

-- The chain of tests in `main`.
unfoldable pub command_of : List (List ℕ) → Command
unfolding is_call
command_of argv =
    if ltb (length argv) 2
    then help
    else if is_call (codes "createDir") 3 argv
    then create_dir (get_or argv 2 [])
    else if is_call (codes "createFile") 3 argv
    then create_file_at (get_or argv 2 [])
    else if is_call (codes "listDir") 3 argv
    then list_dir (get_or argv 2 [])
    else if is_call (codes "listFilesByExtension") 4 argv
    then list_by_extension (get_or argv 2 []) (get_or argv 3 [])
    else if is_call (codes "readFile") 3 argv
    then read_at (get_or argv 2 [])
    else if is_call (codes "appendToFile") 4 argv
    then append_at (get_or argv 2 []) (get_or argv 3 [])
    else if is_call (codes "deleteFile") 3 argv
    then delete_at (get_or argv 2 [])
    else if is_call (codes "deleteDir") 3 argv
    then delete_dir (get_or argv 2 [])
    else if is_call (codes "showLogs") 2 argv
    then show
    else help

-- `displayHelp`
help_msg : List ℕ
help_msg =
    codes "Usage: fileManager <command> [arguments]\n"
    ++ (codes "Commands:\n"
        ++ (codes "  createDir \"folderName\" - Create a new directory\n"
            ++ (codes "  createFile \"fileName\" - Create a new file\n"
                ++ (codes "  listDir \"folderName\" - List all files in a directory\n"
                    ++ (codes
                          "  listFilesByExtension \"folderName\" \".txt\" - List files with specific extension\n"
                        ++ (codes "  readFile \"fileName\" - Read a file's content\n"
                            ++ (codes
                                  "  appendToFile \"fileName\" \"new content\" - Append content to a file\n"
                                ++ (codes "  deleteFile \"fileName\" - Delete a file\n"
                                    ++ (codes
                                          "  deleteDir \"folderName\" - Delete an empty directory\n"
                                        ++ codes "  showLogs - Display operation logs\n")))))))))

module _ (S : Os) where
  pub perform : Command → Program S (Unit {0})
  unfolding help_msg
  perform (create_dir name) = create_directory S name
  perform (create_file_at name) = create_file S name
  perform (list_dir name) = list_directory S name
  perform (read_at name) = read_file S name
  perform (delete_at name) = delete_file S name
  perform (delete_dir name) = delete_directory S name
  perform (list_by_extension name extension) = list_files_by_extension S name extension
  perform (append_at name content) = append_to_file S name content
  perform show = show_logs S
  perform help = put_out S help_msg

  -- `main`
  pub main : List (List ℕ) → Program S (Unit {0})
  main argv = perform (command_of argv)
