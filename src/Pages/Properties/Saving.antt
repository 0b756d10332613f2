-- ===== src/Pages/Properties/Saving.antt =====
-- web/src/pages/ServerSettings.tsx: what a save sends.
use mirocraft.Prelude.{
  ◌≡◌, refl, sym, ap, subst, ◌∙◌, inl, inr, true, false, List, [], ◌∷◌, Option, none, some,
  get_or_else, All, ◌===◌, ===_sound, ===_swap, filter-All, Bool-cases, Text, arith,
}
use mirocraft.Prelude.Dict.{lookup, insert, lookup-insert}
use mirocraft.Api.Servers.{Settings}
use mirocraft.Api.Http.{returned, threw}
use mirocraft.Pages.Properties.{
  Values, Editor, Event, load_started, load_ended, save_ended, typed, filtered, reset, save_pressed,
  step, set_value, handle_save, save_changes, save_from, changes_of, differs, shown_value, loaded,
  saved,
}

-- No key stands twice.
abbrev Keyed : Values → Type 0
Keyed [] = Unit
Keyed ((k, v) ∷ dict) = (lookup k dict ≡ none) × Keyed dict

insert-Keyed : (k v : Text) (dict : Values) → Keyed dict → Keyed (insert k v dict)
unfolding insert lookup
insert-Keyed k v [] h = (refl, tt)
insert-Keyed k v ((j, w) ∷ dict) (fresh, h) = elim (Bool-cases (j === k)) [
  | inl same ↦ rw same (subst (λ t. lookup t dict ≡ none) (===_sound j k same) fresh, h)
  | inr other ↦
      rw other (rw (lookup-insert k j v dict, ===_swap k j other) fresh, insert-Keyed k v dict h)
]

pub save_changes-draft :
    (changes : Values) (e : Editor) → (save_changes changes e).0.draft ≡ e.draft
unfolding save_changes
save_changes-draft [] e = refl
save_changes-draft (c ∷ changes) e = refl

save_from-draft : (o : Option Settings) (e : Editor) → (save_from o e).0.draft ≡ e.draft
unfolding save_from
save_from-draft none e = refl
save_from-draft (some settings) e = save_changes-draft _ e

step-Keyed : (event : Event) (e : Editor) → Keyed e.draft → Keyed (step event e).draft
unfolding step loaded saved set_value handle_save
step-Keyed load_started e h = h
step-Keyed (load_ended (returned settings)) e h = tt
step-Keyed (load_ended (threw f)) e h = h
step-Keyed (save_ended (returned settings)) e h = tt
step-Keyed (save_ended (threw f)) e h = h
step-Keyed (typed key value) e h = insert-Keyed key value e.draft h
step-Keyed (filtered text) e h = h
step-Keyed reset e h = tt
step-Keyed save_pressed e h = subst Keyed (sym (save_from-draft e.settings e)) h

abbrev pub opened : Editor
opened = record {
  settings = none;
  draft = [];
  error = none;
  notice = none;
  saving = false;
  filter = [];
}

unfoldable pub run : List Event → Editor → Editor
unfolding step
run [] e = e
run (event ∷ events) e = run events (step event e)

run-Keyed : (events : List Event) (e : Editor) → Keyed e.draft → Keyed (run events e).draft
unfolding run
run-Keyed [] e h = h
run-Keyed (event ∷ events) e h = run-Keyed events (step event e) (step-Keyed event e h)

-- A file after the changes were written to it, one after the other.
unfoldable pub written : Values → Values → Values
unfolding insert
written [] values = values
written ((k, v) ∷ changes) values = insert k v (written changes values)

-- What is sent: only what the file does not hold, and all that it takes to make the file hold
-- what the page shows.
pub record Saves (settings : Settings) (draft : Values) (sent : Option Values) : Type 0 where
  pub needed : All (λ kv. differs kv.1 (lookup kv.0 settings.values) ≡ true) (get_or_else sent [])
  pub complete :
      (key : Text)
      → get_or_else (lookup key (written (get_or_else sent []) settings.values)) []
        ≡ shown_value draft settings.values key

lookup-written :
    (key : Text) (changes values : Values)
    → get_or_else (lookup key (written changes values)) [] ≡ shown_value changes values key
unfolding written shown_value lookup
lookup-written key [] values = refl
lookup-written key ((k, v) ∷ changes) values = elim (Bool-cases (k === key)) [
  | inl same ↦ rw (lookup-insert k key v (written changes values), same) refl
  | inr other ↦
      rw (lookup-insert k key v (written changes values), other) (lookup-written key changes values)
]

same_value : (v : Text) (old : Option Text) → differs v old ≡ false → old ≡ some v
unfolding differs
same_value v none h = cc
same_value v (some w) h = elim (Bool-cases (v === w)) [
  | inl same ↦ ap some (sym (===_sound v w same))
  | inr other ↦ let changed : differs v (some w) ≡ true = rw other refl in cc
]

lookup-changes_of :
    (key : Text) (values draft : Values)
    → lookup key draft ≡ none
    → lookup key (changes_of values draft) ≡ none
unfolding lookup changes_of
lookup-changes_of key values [] h = refl
lookup-changes_of key values ((k, v) ∷ draft) h = ground (arith, lookup-changes_of key values draft)

unsent :
    (key v : Text) (values changes : Values)
    → lookup key changes ≡ none
    → lookup key values ≡ some v
    → shown_value changes values key ≡ v
unfolding shown_value
unsent key v values changes h k = rw (h, k) refl

-- What is not sent stands in the file.
shown-changes_of :
    (values draft : Values) (key : Text)
    → Keyed draft
    → shown_value (changes_of values draft) values key ≡ shown_value draft values key
unfolding shown_value changes_of lookup
shown-changes_of values [] key h = refl
shown-changes_of values ((k, v) ∷ draft) key (fresh, h) =
    elim (Bool-cases (differs v (lookup k values))) [
      | inl new ↦ rw new (elim (Bool-cases (k === key)) [
        | inl same ↦ rw same refl
        | inr other ↦ rw other (shown-changes_of values draft key h)
      ])
      | inr old ↦ rw old (elim (Bool-cases (k === key)) [
        | inl same ↦ rw same (
            unsent key v values (changes_of values draft)
              (subst (λ t. lookup t (changes_of values draft) ≡ none) (===_sound k key same)
                (lookup-changes_of k values draft fresh))
              (subst (λ t. lookup t values ≡ some v) (===_sound k key same)
                (same_value v (lookup k values) old)))
        | inr other ↦ rw other (shown-changes_of values draft key h)
      ])
    ]

changes_of-needed :
    (values draft : Values)
    → All (λ kv. differs kv.1 (lookup kv.0 values) ≡ true) (changes_of values draft)
unfolding changes_of
changes_of-needed values draft = filter-All (λ kv. differs kv.1 (lookup kv.0 values)) draft

sent_changes : (changes : Values) (e : Editor) → get_or_else (save_changes changes e).1 [] ≡ changes
unfolding save_changes
sent_changes [] e = refl
sent_changes (c ∷ changes) e = refl

save_changes-Saves :
    (settings : Settings) (e : Editor)
    → Keyed e.draft
    → Saves settings e.draft (save_changes (changes_of settings.values e.draft) e).1
save_changes-Saves settings e h =
    let sent = sent_changes (changes_of settings.values e.draft) e in
    record {
      needed = rw sent (changes_of-needed settings.values e.draft);
      complete = λ key.
          rw sent
            (lookup-written key _ settings.values ∙ shown-changes_of settings.values e.draft key h);
    }

-- Whatever was done in the editor before: when the file was read, a press of the save button sends
-- only values that the file does not hold, and once they are written to it, the file holds for
-- every key the value that the page shows; where nothing is sent, the file holds it already.
pub handle_save-Saves :
    (events : List Event) (settings : Settings)
    → (run events opened).settings ≡ some settings
    → Saves settings (run events opened).draft (handle_save (run events opened)).1
unfolding handle_save save_from
handle_save-Saves events settings h =
    let e = run events opened in
    subst (λ o. Saves settings e.draft (save_from o e).1) (sym h)
      (save_changes-Saves settings e (run-Keyed events opened tt))
