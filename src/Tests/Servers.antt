-- ===== src/Tests/Servers.antt =====
-- The list of servers and the form at concrete inputs.
use mirocraft.Prelude.{◌≡◌, refl, [], ◌∷◌, List, last_of, Text, codes, inr, inl, arith, decimal}
use mirocraft.Api.Types.{Server}
use mirocraft.Api.Themes.{CoreVersion, release}
use mirocraft.Tests.Data.{lobby}
use mirocraft.Servers.{samples, history_length, plural, opened_form, CreateForm}
use mirocraft.Servers.Chart.{poll_all, track, samples-track}
use mirocraft.Servers.Form.{IsFitting, form_step, form_step-IsFitting, core_chosen, Requests}

abbrev polls : List (List Server)
polls = (lobby ∷ []) ∷ [] ∷ (lobby ∷ []) ∷ []

samples-track_example :
    samples (codes "s1") (poll_all polls []) ≡ last_of history_length (track (codes "s1") polls [])
samples-track_example = samples-track (codes "s1") polls

plural_at_twelve :
    plural 12 (codes "сервер") (codes "сервера") (codes "серверов") ≡ codes "12 серверов"
unfolding plural decimal codes
plural_at_twelve = refl

abbrev version : CoreVersion
version = record { id = codes "1.21"; channel = release; java_major = 21 }

abbrev offered : Text → List CoreVersion
offered core = version ∷ []

abbrev opening : CreateForm × Requests
opening = (opened_form, (1, codes "paper") ∷ [])

opening-IsFitting : IsFitting offered opening
opening-IsFitting = record { current = ((omega arith, λ same. refl), tt); fits = inr (inl refl) }

form_step-IsFitting_example :
    IsFitting offered (form_step offered (core_chosen (codes "fabric")) opening)
form_step-IsFitting_example =
    form_step-IsFitting offered (core_chosen (codes "fabric")) opening opening-IsFitting
