-- ===== src/Console/Sending.antt =====
-- web/src/pages/ServerDetail.tsx: what the page sends, commands and the request to delete a server.
use mirocraft.Prelude.{
  trim-splits, trim-Blank, is_space, All, ◌++◌, ◌∷◌, trim, trim-IsTrimmed, IsTrimmed, ◌≡◌, refl, ap,
  subst, inl, inr, true, false, [], Option, none, some, Text, codes, is_empty, ◌===◌, ===_sound,
  Bool-cases, arith,
}
use mirocraft.Api.Types.{Server}
use mirocraft.Api.Json.{str, object}
use mirocraft.Api.Endpoint.{Endpoint}
use mirocraft.Api.Servers.{send_command, delete_server}
use mirocraft.Console.{
  Console, handle_command, handle_delete, ask_delete, Sent, nowhere, by_socket, by_call, is_open,
}

-- The text is what the command is without the white space at its ends.
pub record IsCoreOf (command text : Text) : Type 0 where
  pub before : Text
  pub after : Text
  pub whole : command ≡ before ++ (text ++ after)
  pub blank_before : All (λ c. is_space c ≡ true) before
  pub blank_after : All (λ c. is_space c ≡ true) after
  pub trimmed : IsTrimmed text

trim-IsCoreOf : (command : Text) → is_empty (trim command) ≡ false → IsCoreOf command (trim command)
trim-IsCoreOf command text =
    let (before, after, e, h, k) = trim-splits command in
    record {
      before = before;
      after = after;
      whole = e;
      blank_before = h;
      blank_after = k;
      trimmed = trim-IsTrimmed command text;
    }

-- What submitting a command does: nothing for a blank one; else it goes out once, by the open
-- socket, which clears the input, or by a call, which leaves the input until it has succeeded.
pub data Sends (id : Text) (c : Console) : Console × Sent → Type 0 where
  blank : All (λ c. is_space c ≡ true) c.command → Sends id c (c, nowhere)
  to_socket :
      (text : Text)
      → IsCoreOf c.command text
      → is_open c.link ≡ true
      → Sends id c (
        record c { command = [] },
        by_socket (object ((codes "type", str (codes "command")) ∷ (codes "text", str text) ∷ [])),
      )
  to_api :
      (text : Text)
      → IsCoreOf c.command text
      → is_open c.link ≡ false
      → Sends id c (c, by_call (send_command id text))

-- A submitted command that is not blank goes out exactly once, as it was typed but for the white
-- space at its ends: by the socket if that is open, which empties the input, and by a call of the
-- API otherwise; one of white space alone goes nowhere.
pub handle_command-Sends : (id : Text) (c : Console) → Sends id c (handle_command id c)
unfolding handle_command
handle_command-Sends id c = elim (Bool-cases (is_empty (trim c.command))) [
  | inl nothing ↦ rw nothing (blank (trim-Blank c.command nothing))
  | inr text ↦ rw text (elim (Bool-cases (is_open c.link)) [
    | inl ready ↦ rw ready (to_socket _ (trim-IsCoreOf c.command text) ready)
    | inr not_ready ↦ rw not_ready (to_api _ (trim-IsCoreOf c.command text) not_ready)
  ])
]

pub data IsConfirmed (id : Text) (typed : Option Text) (c : Console) : Endpoint → Type 0 where
  confirmed :
      (server : Server)
      → c.server ≡ some server
      → typed ≡ some server.name
      → IsConfirmed id typed c (delete_server id server.name)

ask_delete-IsConfirmed :
    (id : Text) (typed : Option Text) (server : Option Server) (c : Console) (e : Endpoint)
    → c.server ≡ server
    → ask_delete id typed server ≡ some e
    → IsConfirmed id typed c e
unfolding ask_delete
ask_delete-IsConfirmed id typed none c e here asked = cc
ask_delete-IsConfirmed id none (some server) c e here asked = cc
ask_delete-IsConfirmed id (some name) (some server) c e here asked =
    elim (Bool-cases (name === server.name)) [
      | inl same ↦
          let named : some name ≡ some server.name = ap some (===_sound name server.name same) in
          let sent : delete_server id server.name ≡ e = ground arith in
          subst (IsConfirmed id (some name) c) sent (confirmed server here named)
      | inr other ↦ ground arith
    ]

-- The deletion is asked for only if the server's name was typed, and asks with that name.
pub handle_delete-IsConfirmed :
    (id : Text) (typed : Option Text) (c : Console) (e : Endpoint)
    → handle_delete id typed c ≡ some e
    → IsConfirmed id typed c e
unfolding handle_delete
handle_delete-IsConfirmed id typed c e asked =
    ask_delete-IsConfirmed id typed c.server c e refl asked
