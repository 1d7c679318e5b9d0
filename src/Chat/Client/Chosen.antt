-- ===== src/Chat/Client/Chosen.antt =====
-- Which command of final/client/commands.c a line is.
use system_hw.CString.{codes, strcmp_eq}
use system_hw.Chat.Client.{
  Net, ClientState, command_len, isspace, take_token, trim_leading_whitespace, broadcast_line,
  whisper_line, other_line, process_user_command,
}
use system_hw.Chat.Client.Words.{trim_blank}
use system_hw.Prelude.{ℕ, ◌≡◌, refl, ap, ◌∙◌, List, ◌∷◌, ◌++◌, if◌then◌else◌}

pub whisper_taken :
    (text : List ℕ)
    → take_token command_len (codes "/whisper " ++ text) ≡ (codes "/whisper", 32 ∷ text)
unfolding take_token isspace codes
whisper_taken text = refl

pub broadcast_taken :
    (text : List ℕ)
    → take_token command_len (codes "/broadcast " ++ text) ≡ (codes "/broadcast", 32 ∷ text)
unfolding take_token isspace codes
broadcast_taken text = refl

-- What is done with a command and the rest of its line.
chosen : Net → ClientState → List ℕ × List ℕ → ClientState
chosen net s (command, rest) =
    let text = trim_leading_whitespace rest in
    if strcmp_eq command (codes "/broadcast")
    then broadcast_line net text s
    else if strcmp_eq command (codes "/whisper")
    then whisper_line net text s
    else other_line net command text s

process_user_command-chosen :
    (net : Net) (input : List ℕ) (s : ClientState)
    → process_user_command net input s ≡ chosen net s (take_token command_len input)
unfolding process_user_command chosen
process_user_command-chosen net input s = refl

chosen-whisper :
    (net : Net) (text : List ℕ) (s : ClientState)
    → chosen net s (codes "/whisper", text) ≡ whisper_line net (trim_leading_whitespace text) s
unfolding chosen codes strcmp_eq
chosen-whisper net text s = refl

chosen-broadcast :
    (net : Net) (text : List ℕ) (s : ClientState)
    → chosen net s (codes "/broadcast", text) ≡ broadcast_line net (trim_leading_whitespace text) s
unfolding chosen codes strcmp_eq
chosen-broadcast net text s = refl

pub whisper_command :
    (net : Net) (text : List ℕ) (s : ClientState)
    → trim_leading_whitespace text ≡ text
    → process_user_command net (codes "/whisper " ++ text) s ≡ whisper_line net text s
whisper_command net text s e =
    process_user_command-chosen net (codes "/whisper " ++ text) s
    ∙ ap (chosen net s) (whisper_taken text)
    ∙ chosen-whisper net (32 ∷ text) s
    ∙ ap (λ t. whisper_line net t s) (trim_blank text ∙ e)

pub broadcast_command :
    (net : Net) (text : List ℕ) (s : ClientState)
    → trim_leading_whitespace text ≡ text
    → process_user_command net (codes "/broadcast " ++ text) s ≡ broadcast_line net text s
broadcast_command net text s e =
    process_user_command-chosen net (codes "/broadcast " ++ text) s
    ∙ ap (chosen net s) (broadcast_taken text)
    ∙ chosen-broadcast net (32 ∷ text) s
    ∙ ap (λ t. broadcast_line net t s) (trim_blank text ∙ e)
