-- ===== src/Console/Laws.antt =====
-- web/src/pages/ServerDetail.tsx: the invariant of the console.
use mirocraft.Prelude.{
  ◌≡◌, ◌≢◌, refl, subst, ◌⊎◌, inl, inr, ◌≤◌, Bool, true, false, [], Option, none, some, length,
  Text, is_empty, if◌then◌else◌, Bool-cases, ◌==◌, arith,
}
use mirocraft.Api.Types.{Server}
use mirocraft.Api.Json.{Json}
use mirocraft.Api.Http.{Failure, Outcome, returned, threw, api_error}
use mirocraft.Console.{
  Line, Link, detached, awaited, attached, Console, max_rendered_lines, console_available, push,
  set_server, Message, line_frame, status_frame, error_frame, other_frame, expected, receive,
  reloaded, socket_came, socket_switched, handle_command, Event, polled, came, switched, old_closed,
  old_closes, received, powered, power_ended, command_ended, delete_ended, typed, submitted, step,
  trim, is_open, with_status,
}
use mirocraft.Console.Keys.{Rising, push-keyed}
use mirocraft.Console.Bound.{push-length}

-- The page says that it is connected exactly when an open socket is attached; once a socket that was
-- detached before has told late that it is closed, only while one is.
abbrev SaysSo : (late : Bool) → Bool → Type 0
SaysSo false connected = connected ≡ true
SaysSo true connected = Unit

abbrev pub Truthful : (late : Bool) → Link → Bool → Type 0
Truthful late (attached true) connected = SaysSo late connected
Truthful late rest connected = connected ≡ false

pub record IsSound (late : Bool) (c : Console) : Type 0 where
  pub bounded : length c.lines ≤ max_rendered_lines
  pub keyed : Rising 0 c.next_key c.lines
  pub truthful : Truthful late c.link c.connected
  pub quiet : console_available c.server ≡ false → c.link ≡ detached

Truthful-late :
    (late : Bool) (l : Link) (connected : Bool)
    → Truthful late l connected
    → Truthful true l connected
Truthful-late late (attached true) connected h = tt
Truthful-late late (attached false) connected h = h
Truthful-late late detached connected h = h
Truthful-late late awaited connected h = h

told_closed : (l : Link) → Truthful true l false
told_closed (attached true) = tt
told_closed (attached false) = refl
told_closed detached = refl
told_closed awaited = refl

says_so : (late : Bool) → SaysSo late true
says_so true = tt
says_so false = refl

module _ {late : Bool} where
  push-IsSound : (l : Line) (c : Console) → IsSound late c → IsSound late (push l c)
  unfolding push
  push-IsSound l c sound = record {
    bounded = push-length l c;
    keyed = push-keyed l c sound.keyed;
    truthful = sound.truthful;
    quiet = sound.quiet;
  }

  -- Only the lines, the keys, the socket and the server count.
  retold :
      (c : Console) (e : Option Json) (t : Text)
      → IsSound late c
      → IsSound late (record c { error = e; command = t })
  retold c e t sound = record {
    bounded = sound.bounded;
    keyed = sound.keyed;
    truthful = sound.truthful;
    quiet = sound.quiet;
  }

  set_server-IsSound :
      (server : Option Server) (c : Console) → IsSound late c → IsSound late (set_server server c)
  unfolding set_server
  set_server-IsSound server c sound = elim (Bool-cases (console_available c.server)) [
    | inl before ↦ elim (Bool-cases (console_available server)) [
      | inl after ↦
          rw (before, after)
            (record {
              bounded = sound.bounded;
              keyed = sound.keyed;
              truthful = sound.truthful;
              quiet = λ off. cc;
            })
      | inr after ↦
          rw (before, after)
            (record {
              bounded = sound.bounded;
              keyed = sound.keyed;
              truthful = refl;
              quiet = λ off. refl;
            })
    ]
    | inr before ↦ elim (Bool-cases (console_available server)) [
      | inl after ↦
          rw (before, after)
            (record {
              bounded = omega arith;
              keyed = omega arith;
              truthful =
                  subst (λ l. Truthful late l c.connected) (sound.quiet before) sound.truthful;
              quiet = λ off. cc;
            })
      | inr after ↦
          rw (before, after)
            (record {
              bounded = sound.bounded;
              keyed = sound.keyed;
              truthful = sound.truthful;
              quiet = λ off. sound.quiet before;
            })
    ]
  ]

  reloaded-IsSound :
      (message : Failure → Text) (result : Outcome Server) (c : Console)
      → IsSound late c
      → IsSound late (reloaded message result c)
  unfolding reloaded
  reloaded-IsSound message (returned server) c sound = set_server-IsSound (some server) c sound
  reloaded-IsSound message (threw (api_error status code text details)) c sound =
      retold c (some text) c.command sound
  reloaded-IsSound message (threw e) c sound = retold c _ c.command sound

  -- A socket that changes its state, where there may be one.
  relinked :
      (c : Console) (l : Link) (connected : Bool)
      → IsSound late c
      → Truthful late l connected
      → (l ≡ detached) ⊎ (c.link ≢ detached)
      → IsSound late (record c { link = l; connected = connected })
  relinked c l connected sound truthful where_from = record {
    bounded = sound.bounded;
    keyed = sound.keyed;
    truthful = truthful;
    quiet = λ off. still where_from (sound.quiet off);
  }
    where
      still : (l ≡ detached) ⊎ (c.link ≢ detached) → c.link ≡ detached → l ≡ detached
      still (inl gone) off = gone
      still (inr linked) off = absurd (linked off)

  socket_came-IsSound : (ok : Bool) (c : Console) → IsSound late c → IsSound late (socket_came ok c)
  unfolding socket_came
  socket_came-IsSound ok c sound = by_link c.link refl
    where
      arrived :
          (ok : Bool)
          → c.link ≡ awaited
          → IsSound late (record c { link = if ok then attached false else detached })
      arrived true e =
          relinked c (attached false) c.connected sound
            (subst (λ l. Truthful late l c.connected) e sound.truthful) (inr (λ off. cc))
      arrived false e =
          relinked c detached c.connected sound
            (subst (λ l. Truthful late l c.connected) e sound.truthful) (inl refl)

      by_link :
          (l : Link)
          → c.link ≡ l
          → IsSound late (elim l [
            | detached ↦ c
            | awaited ↦ record c { link = if ok then attached false else detached }
            | attached ready ↦ c
          ])
      by_link detached e = sound
      by_link awaited e = arrived ok e
      by_link (attached ready) e = sound

  socket_switched-IsSound :
      (ready : Bool) (c : Console) → IsSound late c → IsSound late (socket_switched ready c)
  unfolding socket_switched
  socket_switched-IsSound ready c sound = by_link c.link refl
    where
      truth : (ready : Bool) → Truthful late (attached ready) ready
      truth true = says_so late
      truth false = refl

      by_link :
          (l : Link)
          → c.link ≡ l
          → IsSound late (elim l [
            | detached ↦ c
            | awaited ↦ c
            | attached before ↦ record c { link = attached ready; connected = ready }
          ])
      by_link detached e = sound
      by_link awaited e = sound
      by_link (attached before) e =
          relinked c (attached ready) ready sound (truth ready) (inr (λ off. cc))

  receive-IsSound :
      (now : Text) (m : Message) (c : Console) → IsSound late c → IsSound late (receive now m c)
  unfolding receive
  receive-IsSound now (line_frame l) c sound = push-IsSound l c sound
  receive-IsSound now (status_frame s) c sound = set_server-IsSound (with_status s c.server) c sound
  receive-IsSound now (error_frame code text) c sound = elim (Bool-cases (expected code)) [
    | inl routine ↦ rw routine sound
    | inr news ↦ rw news (push-IsSound _ c sound)
  ]
  receive-IsSound now other_frame c sound = sound

  handle_command-IsSound :
      (id : Text) (c : Console) → IsSound late c → IsSound late (handle_command id c).0
  unfolding handle_command
  handle_command-IsSound id c sound = elim (Bool-cases (is_empty (trim c.command))) [
    | inl blank ↦ rw blank sound
    | inr text ↦ rw text (elim (Bool-cases (is_open c.link)) [
      | inl ready ↦ rw ready (retold c c.error [] sound)
      | inr not_ready ↦ rw not_ready sound
    ])
  ]

  old_closes-IsSound : (c : Console) → IsSound late c → IsSound true (old_closes c)
  unfolding old_closes
  old_closes-IsSound c sound = elim (Bool-cases (c.closing == 0)) [
    | inl none_left ↦ rw none_left (record {
      bounded = sound.bounded;
      keyed = sound.keyed;
      truthful = Truthful-late late c.link c.connected sound.truthful;
      quiet = sound.quiet;
    })
    | inr some_left ↦ rw some_left (record {
      bounded = sound.bounded;
      keyed = sound.keyed;
      truthful = told_closed c.link;
      quiet = sound.quiet;
    })
  ]

-- An old socket tells that it is closed.
abbrev pub late_after : Event → Bool → Bool
late_after old_closed late = true
late_after event late = late

-- Any event keeps this: the console has at most a thousand lines, whose keys rise; it says that it
-- is connected only while an open socket is attached, and exactly then as long as no socket that was
-- detached before has told late that it is closed; and it has no socket and awaits none while the
-- server has no console.
pub step-IsSound :
    (late : Bool) (id : Text) (message : Failure → Text) (event : Event) (c : Console)
    → IsSound late c
    → IsSound (late_after event late) (step id message event c)
unfolding step
step-IsSound late id message (polled result) c sound = reloaded-IsSound message result c sound
step-IsSound late id message (came ok) c sound = socket_came-IsSound ok c sound
step-IsSound late id message (switched ready) c sound = socket_switched-IsSound ready c sound
step-IsSound late id message old_closed c sound = old_closes-IsSound c sound
step-IsSound late id message (received now m) c sound = receive-IsSound now m c sound
step-IsSound late id message (powered action) c sound = retold c none c.command sound
step-IsSound late id message (power_ended (returned body)) c sound = sound
step-IsSound late id message (power_ended (threw e)) c sound = retold c _ c.command sound
step-IsSound late id message (command_ended (returned body)) c sound = retold c c.error [] sound
step-IsSound late id message (command_ended (threw e)) c sound = retold c _ c.command sound
step-IsSound late id message (delete_ended (returned body)) c sound = sound
step-IsSound late id message (delete_ended (threw e)) c sound = retold c _ c.command sound
step-IsSound late id message (typed text) c sound = retold c c.error text sound
step-IsSound late id message submitted c sound = handle_command-IsSound id c sound
