-- ===== src/Tests/Creations.antt =====
-- The page of the servers as it runs, at concrete inputs.
use mirocraft.Prelude.{
  refl, inl, inr, ℕ, true, false, List, [], ◌++◌, none, All, Text, codes, decimal,
}
use mirocraft.Api.Http.{Failure}
use mirocraft.Pages.Run.{Reach, here, next, acts}
use mirocraft.Pages.Ui.{Offers, Dialogs, when_some, either}
use mirocraft.Pages.Layout.View.{page_header}
use mirocraft.Servers.Shown.{
  ServersPage, Event, form_toggled, name_typed, version_typed, eula_checked, create_pressed, view,
  form_view,
}
use mirocraft.Servers.Running.{Job, open_form, handle, handle_form, handle_field, opened, page}
use mirocraft.Servers.Creations.{AllowedCall, SendsOnce}
use mirocraft.Servers.Creations.Reached.{Reach-SendsOnce}

abbrev to_fixed : ℕ → ℕ → ℕ → Text
to_fixed n d k = decimal n

abbrev number : Text → ℕ
number text = 0

abbrev message : Failure → Text
message e = []

abbrev unasked : Dialogs
unasked = record { typed = none; sure = false }

abbrev with_form : ServersPage
with_form = (handle form_toggled opened).0

abbrev naming : Event
naming = name_typed (codes "Lobby")

abbrev versioning : Event
versioning = version_typed (codes "1.21")

abbrev named : ServersPage
named = (handle naming with_form).0

abbrev versioned : ServersPage
versioned = (handle versioning named).0

abbrev accepted : ServersPage
accepted = (handle (eula_checked true) versioned).0

abbrev sending : ServersPage
sending = (handle create_pressed accepted).0

abbrev after : ServersPage → Event → List Job → List Job
after p event jobs = (handle event p).1 ++ jobs

abbrev calls : List Job
calls = after accepted create_pressed (
    after versioned (eula_checked true)
      (after named versioning (after with_form naming (after opened form_toggled []))))

form_offered : Offers form_toggled (view to_fixed number opened)
unfolding view page_header Offers when_some
form_offered = inl (inr (inr (inr (refl, unasked, refl))))

name_offered : Offers naming (view to_fixed number with_form)
unfolding view form_view Offers when_some handle handle_form open_form
name_offered = inr (inl (inr (inl (refl, codes "Lobby", refl))))

version_offered : Offers versioning (view to_fixed number named)
unfolding view form_view Offers when_some either handle handle_form handle_field open_form
version_offered = inr (inl (inr (inr (inr (inr (inr (inl (refl, codes "1.21", refl))))))))

eula_offered : Offers (eula_checked true) (view to_fixed number versioned)
unfolding view form_view Offers when_some handle handle_form handle_field open_form
eula_offered =
    inr (inl (inr (inr (inr (inr (inr (inr (inr (inr (inr (inr (inl (refl, true, refl)))))))))))))

create_offered : Offers create_pressed (view to_fixed number accepted)
unfolding view form_view Offers when_some handle handle_form handle_field open_form codes
create_offered = inr (
    inl (
      inr (
        inr (
          inr (
            inr (
              inr (
                inr (
                  inr (
                    inr (
                      inr (
                        inr
                          (inr (inr (inr (inr (inr (refl, (refl, (refl, tt)), refl)))))))))))))))))

-- The form was opened, filled in with the EULA accepted, and sent.
sent : Reach (page message to_fixed number) (opened, []) (sending, calls)
unfolding handle handle_form handle_field open_form
sent =
    next
      (next
        (next (next (next here (acts form_toggled form_offered)) (acts naming name_offered))
          (acts versioning version_offered))
        (acts (eula_checked true) eula_offered))
      (acts create_pressed create_offered)

Reach-SendsOnce_example : All AllowedCall calls × SendsOnce sending.form calls
Reach-SendsOnce_example = Reach-SendsOnce message to_fixed number sent
