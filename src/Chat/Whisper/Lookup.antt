-- ===== src/Chat/Whisper/Lookup.antt =====
-- Whom `findClientByUsername` of final/server/utils_server.c finds, and what a whisper may change.
use system_hw.CString.{strcmp_eq_iff}
use system_hw.Chat.Rooms.{Server, client_at}
use system_hw.Chat.Whisper.{matches, find_in_slots, find_client_by_username}
use system_hw.Prelude.{
  ℕ, zero, suc, ◌<◌, ◌≡◌, ◌≢◌, refl, ap, ◌∙◌, true, false, Option, none, some, List, [], ◌∷◌,
  length, get_or, arith, Bool-cases, inl, inr,
}

-- Slot `i` holds no active client of this name.
abbrev pub IsOther : Server → List ℕ → Option ℕ → Type 0
IsOther s name slot =
    (c : ℕ) → slot ≡ some c → (client_at s c).is_active ≡ true → (client_at s c).username ≢ name

-- The client in the first slot with an active client of this name, or none when there is no such
-- slot.
abbrev pub FirstOf : Server → List (Option ℕ) → List ℕ → Option ℕ → Type 0
FirstOf s slots name none = (i : ℕ) → i < length slots → IsOther s name (get_or slots i none)
FirstOf s slots name (some c) =
    ((client_at s c).is_active ≡ true)
    × ((client_at s c).username ≡ name)
    × (i : ℕ) × (i < length slots)
    × (get_or slots i none ≡ some c)
    × ((j : ℕ) → j < i → IsOther s name (get_or slots j none))

matches-IsOther :
    (s : Server) (name : List ℕ) (slot : Option ℕ)
    → matches s name slot ≡ false
    → IsOther s name slot
unfolding matches
matches-IsOther s name none h c e active same = absurd cc
matches-IsOther s name (some d) h c e active same =
    let here : d ≡ c = cc e in
    absurd (
      ground (
        arith,
        h,
        ap (λ x. (client_at s x).is_active) here ∙ active,
        (strcmp_eq_iff (client_at s d).username name).1
            (ap (λ x. (client_at s x).username) here ∙ same),
      ))

skip_slot :
    (s : Server) (slot : Option ℕ) (slots : List (Option ℕ)) (name : List ℕ) (r : Option ℕ)
    → IsOther s name slot
    → FirstOf s slots name r
    → FirstOf s (slot ∷ slots) name r
skip_slot s slot slots name none other all = skipped
  where
    skipped : (i : ℕ) → i < suc (length slots) → IsOther s name (get_or (slot ∷ slots) i none)
    skipped zero lt = other
    skipped (suc i) lt = all i (omega arith)
skip_slot s slot slots name (some c) other (active, same, i, lt, at, before) =
    (active, same, suc i, omega arith, at, skipped)
  where
    skipped : (j : ℕ) → j < suc i → IsOther s name (get_or (slot ∷ slots) j none)
    skipped zero less = other
    skipped (suc j) less = before j (omega arith)

take_slot :
    (s : Server) (slot : Option ℕ) (slots : List (Option ℕ)) (name : List ℕ)
    → matches s name slot ≡ true
    → FirstOf s (slot ∷ slots) name slot
unfolding matches
take_slot s none slots name h = absurd cc
take_slot s (some c) slots name h = (
  ground (arith, h),
  (strcmp_eq_iff (client_at s c).username name).0 (ground (arith, h)),
  0,
  omega arith,
  refl,
  (λ j less. absurd (omega arith)),
)

find_in_slots-FirstOf :
    (s : Server) (slots : List (Option ℕ)) (name : List ℕ)
    → FirstOf s slots name (find_in_slots s slots name)
unfolding find_in_slots
find_in_slots-FirstOf s [] name = λ i lt. absurd (omega arith)
find_in_slots-FirstOf s (slot ∷ slots) name = elim (Bool-cases (matches s name slot)) [
  | inl h ↦ rw h (take_slot s slot slots name h)
  | inr h ↦ rw h (
      skip_slot s slot slots name (find_in_slots s slots name) (matches-IsOther s name slot h)
        (find_in_slots-FirstOf s slots name))
]

-- `findClientByUsername` returns the active client of that name in the first slot that holds one,
-- and NULL only if no slot holds one.
pub find_client_by_username-FirstOf :
    (s : Server) (name : List ℕ)
    → FirstOf s s.connected_clients name (find_client_by_username s name)
unfolding find_client_by_username
find_client_by_username-FirstOf s name = find_in_slots-FirstOf s s.connected_clients name
