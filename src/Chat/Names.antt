-- ===== src/Chat/Names.antt =====
-- The validation of names of final/shared/utils.c, over C strings as lists of bytes.
use system_hw.CString.{strcmp_eq, strrchr}
use system_hw.Prelude.{
  ℕ, Bool, true, false, ◌&&◌, ◌||◌, Option, none, some, List, [], ◌∷◌, length, ltb, leb, ◌==◌,
  if◌then◌else◌,
}

abbrev pub max_username_len : ℕ
max_username_len = 16

abbrev pub max_room_name_len : ℕ
max_room_name_len = 32

-- `isalnum` in the C locale
unfoldable pub isalnum : ℕ → Bool
isalnum c = leb b'0' c && leb c b'9' || (leb b'A' c && leb c b'Z' || leb b'a' c && leb c b'z')

unfoldable pub all_alnum : List ℕ → Bool
unfolding isalnum
all_alnum [] = true
all_alnum (c ∷ cs) = isalnum c && all_alnum cs

-- `isValidUsername`
unfoldable pub is_valid_username : List ℕ → Bool
is_valid_username name =
    if length name == 0 || ltb max_username_len (length name) then false else all_alnum name

-- `isValidRoomName`
unfoldable pub is_valid_room_name : List ℕ → Bool
is_valid_room_name name =
    if length name == 0 || ltb max_room_name_len (length name) then false else all_alnum name

-- ".txt", ".pdf", ".jpg", ".png"
valid_extension : List ℕ → Bool
valid_extension dot =
    strcmp_eq dot (b'.' ∷ b't' ∷ b'x' ∷ b't' ∷ [])
    || (strcmp_eq dot (b'.' ∷ b'p' ∷ b'd' ∷ b'f' ∷ [])
        || (strcmp_eq dot (b'.' ∷ b'j' ∷ b'p' ∷ b'g' ∷ [])
            || strcmp_eq dot (b'.' ∷ b'p' ∷ b'n' ∷ b'g' ∷ [])))

valid_dot : List ℕ → Option (List ℕ) → Bool
unfolding valid_extension
valid_dot filename none = false
valid_dot filename (some dot) =
    if length dot == length filename || length dot == 1 then false else valid_extension dot

-- `isValidFileType`
pub is_valid_file_type : List ℕ → Bool
unfolding valid_dot
is_valid_file_type filename = valid_dot filename (strrchr b'.' filename)
