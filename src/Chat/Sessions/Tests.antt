-- ===== src/Chat/Sessions/Tests.antt =====
-- The theorems on sessions at one connection.
use system_hw.Chat.Rooms.{Server, client_at}
use system_hw.Chat.Sessions.{
  register_new_client_on_server, register_in, find_empty_slot, process_client_login, first_message,
  unregister_client, initialize_server_state,
}
use system_hw.Chat.Sessions.Welcome.{LogsIn, process_client_login-LogsIn}
use system_hw.Chat.Sessions.Reachable.{Reachable, starts, accepts, begins, Reachable-IsSound}
use system_hw.Chat.Sessions.Register.{Registers, register_new_client_on_server-Registers}
use system_hw.Chat.Sessions.Sound.{IsSound, At}
use system_hw.Chat.Sessions.Unregister.{Unregisters, unregister_client-Unregisters}
use system_hw.Prelude.Int.{pos}
use system_hw.Prelude.{ℕ, ◌≡◌, refl, true, some, List, [], ◌∷◌}

abbrev user : List ℕ
user = b'x' ∷ []

-- One client has connected.
abbrev connected : Server
connected = (register_new_client_on_server true initialize_server_state (pos 4)).0

connected-At : At connected 0 0
unfolding register_new_client_on_server register_in find_empty_slot initialize_server_state
connected-At = refl

no_name : (client_at connected 0).username ≡ []
unfolding register_new_client_on_server register_in find_empty_slot initialize_server_state
no_name = refl

connected-Reachable : Reachable connected
connected-Reachable = accepts initialize_server_state true (pos 4) starts

register_new_client_on_server-Registers_example :
    Registers true initialize_server_state
      (register_new_client_on_server true initialize_server_state (pos 4))
register_new_client_on_server-Registers_example =
    register_new_client_on_server-Registers true initialize_server_state (pos 4)
      (Reachable-IsSound initialize_server_state starts)

process_client_login-LogsIn_example :
    LogsIn connected 0 true user (process_client_login connected 0 true user)
    × IsSound (process_client_login connected 0 true user).0
process_client_login-LogsIn_example =
    process_client_login-LogsIn connected 0 0 true user
      (Reachable-IsSound connected connected-Reachable) connected-At no_name

unregister_client-Unregisters_example : Unregisters connected 0 (unregister_client connected 0)
unregister_client-Unregisters_example =
    unregister_client-Unregisters connected 0 0 (Reachable-IsSound connected connected-Reachable)
      connected-At

Reachable-IsSound_example : IsSound (first_message connected 0 (some (true, user)))
Reachable-IsSound_example =
    Reachable-IsSound (first_message connected 0 (some (true, user)))
      (begins connected 0 0 (some (true, user)) connected-Reachable connected-At no_name)
