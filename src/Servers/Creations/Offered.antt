-- ===== src/Servers/Creations/Offered.antt =====
-- web/src/pages/Servers.tsx: what the page offers to whom it is shown, in terms of its form.
use mirocraft.Prelude.{
  ◌≡◌, refl, ℕ, Bool, true, false, List, [], ◌∷◌, Option, none, some, length, ltb, ◌==◌, Text,
  arith,
}
use mirocraft.Api.Types.{Server}
use mirocraft.Api.Servers.{PowerAction}
use mirocraft.Pages.Ui.{
  Only, no_more, both, a_text, a_raw, a_link, a_button, a_submit, a_checkbox, an_input, a_select,
  when_some, Only-when, Only-either, Only-when_error, Only-each,
}
use mirocraft.Pages.Layout.View.{page_header}
use mirocraft.Servers.{Card, CreateForm}
use mirocraft.Servers.View.{card_buttons}
use mirocraft.Servers.Shown.{
  ServersPage, Event, form_toggled, first_pressed, create_pressed, name_typed, core_picked,
  version_typed, ram_typed, eula_checked, power_pressed, view, form_view, cards_view, card_view,
  metric_view, empty_state, count_text,
}

abbrev pub Form : Type 0
Form = Option (ℕ × CreateForm)

-- When the page offers what.
pub data Open (form : Form) : Event → Type 0 where
  creating :
      (opening : ℕ) (f : CreateForm)
      → form ≡ some (opening, f)
      → f.busy ≡ false
      → f.eula ≡ true
      → Open form create_pressed
  opening_or_closing : Open form form_toggled
  first : Open form first_pressed
  naming : (t : Text) → Open form (name_typed t)
  picking : (core : Text) → Open form (core_picked core)
  versioning : (t : Text) → Open form (version_typed t)
  sizing : (n : ℕ) → Open form (ram_typed n)
  checking : (b : Bool) → Open form (eula_checked b)
  powering : (id : Text) (action : PowerAction) → Open form (power_pressed id action)

module _ (to_fixed : ℕ → ℕ → ℕ → Text) (number : Text → ℕ) where
  form-Open : (form : Form) → Only (Open form) (when_some form (λ f. form_view to_fixed number f.1))
  unfolding when_some form_view
  form-Open none = no_more
  form-Open (some (opening, f)) = both a_text (
      both (an_input (λ free t. naming t)) (
        both a_text (
          both (a_select (λ free t. picking t)) (
            both a_text (
              both
                (Only-either (ltb 0 (length f.versions)) (a_select (λ free t. versioning t))
                  (an_input (λ free t. versioning t)))
                (both (Only-when_error f.versions_error _ (λ j. a_raw)) (
                  both a_text (
                    both (an_input (λ free t. sizing (number t))) (
                      both (Only-when _ a_text) (
                        both (a_checkbox (λ free b. checking b)) (
                          both a_text (
                            both a_link (
                              both a_text (
                                both (Only-when_error f.error _ (λ j. a_raw)) (
                                  a_submit (λ free.
                                    creating opening f refl (ground arith)
                                      (ground arith)))))))))))))))))

  card-Open :
      (form : Form) (card : Card) (server : Server)
      → Only (Open form) (card_view to_fixed number card server)
  unfolding card_view metric_view
  card-Open form card server = both a_link (
      both a_text (
        both a_text (
          both (Only-when _ (both (both a_text a_text) (both a_text a_text))) (
            both (both a_text a_text) (
              both
                (Only-each _ (card_buttons server.status card.busy)
                  (λ b. a_button (λ free x. powering server.id b.0)))
                (Only-when_error card.error _ (λ j. a_raw)))))))

  count-Open :
      (form : Form) (servers : List Server)
      → Only (Open form) (when_some (count_text to_fixed number servers) (λ v. v))
  unfolding when_some
  count-Open form [] = no_more
  count-Open form (s ∷ servers) = a_text

  pub view-Open : (p : ServersPage) → Only (Open p.form) (view to_fixed number p)
  unfolding view page_header when_some empty_state cards_view
  view-Open p =
      both
        (both no_more (
          both a_text
            (both (count-Open p.form p.list.servers) (a_button (λ free x. opening_or_closing)))))
        (both (form-Open p.form) (
          both (Only-when_error p.list.error _ (λ j. a_raw)) (
            Only-either p.list.loading no_more (
              Only-either (length p.list.servers == 0)
                (both a_text (both a_text (a_button (λ free x. first))))
                (Only-each _ p.list.servers (λ s. card-Open p.form _ s))))))
