-- ===== src/Servers/Chart.antt =====
-- web/src/pages/Servers.tsx: the samples that the sparkline of a server draws.
use mirocraft.Prelude.{
  ◌≡◌, refl, ap, ◌∙◌, ℕ, List, [], ◌∷◌, ◌++◌, Option, none, some, get_or_else, last_of,
  last_of-append, ◌===◌, ===_sound, if◌then◌else◌, Bool-cases, inl, inr, Text,
}
use mirocraft.Prelude.Dict.{lookup, insert, lookup-insert}
use mirocraft.Api.Types.{Server}
use mirocraft.Servers.{History, history_length, cpu_of, samples, grow, next_history}

-- The load that a poll shows for a server, if it lists the server.
unfoldable pub sample : Text → List Server → Option ℕ
sample id [] = none
sample id (s ∷ list) = elim (sample id list) [
  | none ↦ if s.id === id then some (cpu_of s) else none
  | some cpu ↦ some cpu
]

-- The samples since the server was last missing from a poll.
abbrev pub extend : Option ℕ → List ℕ → List ℕ
extend none before = []
extend (some cpu) before = before ++ cpu ∷ []

unfoldable pub track : Text → List (List Server) → List ℕ → List ℕ
track id [] before = before
track id (poll ∷ polls) before = track id polls (extend (sample id poll) before)

unfoldable pub poll_all : List (List Server) → History → History
poll_all [] h = h
poll_all (poll ∷ polls) h = poll_all polls (next_history poll h)

abbrev chart : Option ℕ → List ℕ → Option (List ℕ) → Option (List ℕ)
chart none before default = default
chart (some cpu) before default = some (last_of history_length (before ++ cpu ∷ []))

abbrev grown : History → Server → List ℕ
grown current s = last_of history_length (samples s.id current ++ cpu_of s ∷ [])

chart-sample :
    (id : Text) (current : History) (s : Server) (later : Option ℕ) (default : Option (List ℕ))
    → chart later (samples id current) (if s.id === id then some (grown current s) else default)
      ≡ chart
          (elim later [
            | none ↦ if s.id === id then some (cpu_of s) else none
            | some cpu ↦ some cpu
          ])
          (samples id current)
          default
chart-sample id current s (some cpu) default = refl
chart-sample id current s none default = elim (Bool-cases (s.id === id)) [
  | inl same ↦ rw same (
      ap (λ (k : Text). some (last_of history_length (samples k current ++ cpu_of s ∷ [])))
        (===_sound s.id id same))
  | inr other ↦ rw other refl
]

lookup-grow :
    (id : Text) (current : History) (list : List Server) (next : History)
    → lookup id (grow current list next)
      ≡ chart (sample id list) (samples id current) (lookup id next)
unfolding grow sample
lookup-grow id current [] next = refl
lookup-grow id current (s ∷ list) next =
    lookup-grow id current list (insert s.id (grown current s) next)
    ∙ ap (chart (sample id list) (samples id current))
        (lookup-insert s.id id (grown current s) next)
    ∙ chart-sample id current s (sample id list) (lookup id next)

samples-chart :
    (later : Option ℕ) (before : List ℕ)
    → get_or_else (chart later before none) [] ≡ last_of history_length (extend later before)
samples-chart none before = refl
samples-chart (some cpu) before = refl

samples-next_history :
    (id : Text) (list : List Server) (h : History)
    → samples id (next_history list h)
      ≡ last_of history_length (extend (sample id list) (samples id h))
unfolding next_history lookup
samples-next_history id list h =
    ap (λ found. get_or_else found []) (lookup-grow id h list [])
    ∙ samples-chart (sample id list) (samples id h)

extend-last_of :
    (later : Option ℕ) (before : List ℕ)
    → last_of history_length (extend later (last_of history_length before))
      ≡ last_of history_length (extend later before)
extend-last_of none before = refl
extend-last_of (some cpu) before = last_of-append history_length before (cpu ∷ [])

samples-poll_all :
    (id : Text) (polls : List (List Server)) (h : History) (before : List ℕ)
    → samples id h ≡ last_of history_length before
    → samples id (poll_all polls h) ≡ last_of history_length (track id polls before)
unfolding poll_all track
samples-poll_all id [] h before same = same
samples-poll_all id (poll ∷ polls) h before same =
    samples-poll_all id polls (next_history poll h) (extend (sample id poll) before) (
      samples-next_history id poll h
      ∙ ap (λ seen. last_of history_length (extend (sample id poll) seen)) same
      ∙ extend-last_of (sample id poll) before)

-- After any polls from the empty history on, the sparkline of a server shows the last 24 of its
-- samples since the server was last missing from a poll.
pub samples-track :
    (id : Text) (polls : List (List Server))
    → samples id (poll_all polls []) ≡ last_of history_length (track id polls [])
unfolding lookup
samples-track id polls = samples-poll_all id polls [] [] refl
