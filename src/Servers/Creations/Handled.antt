-- ===== src/Servers/Creations/Handled.antt =====
-- web/src/pages/Servers.tsx: what the controls do to the creations under way.
use mirocraft.Prelude.{
  ◌≡◌, refl, sym, subst, ◌∙◌, inl, inr, ℕ, ◌+◌, Bool, true, false, List, [], ◌∷◌, ◌++◌, Option,
  none, some, All, ◌==◌, ◌===◌, Bool-cases, Text, is_empty, arith,
}
use mirocraft.Api.Http.{Outcome, returned, threw}
use mirocraft.Api.Themes.{Core, CoreVersion}
use mirocraft.Pages.Flight.{actions}
use mirocraft.Servers.{
  CreateForm, choose_core, cores_came, first_unless, versions_came, versions_arrive, pick_version,
  submit,
}
use mirocraft.Servers.Shown.{ServersPage, Event, create_pressed, power_pressed}
use mirocraft.Servers.Running.{
  request_of, asking, Job, reload, cores, versions, create, power, open_form, handle_field,
  handle_form, handle,
}
use mirocraft.Servers.Creations.{
  is_creation, in_flight, SendsOnce, Within, IsLast, Good, Silent, Same, Same-refl, Quiet,
  Quiet-Good,
}
use mirocraft.Servers.Creations.Offered.{
  Form, Open, creating, opening_or_closing, first, naming, picking, versioning, sizing, checking,
  powering,
}

choose_core-busy : (core : Text) (f : CreateForm) → (choose_core core f).0.busy ≡ f.busy
unfolding choose_core
choose_core-busy core f = elim (Bool-cases (core === f.core)) [
  | inl same ↦ rw same refl
  | inr new ↦
      rw new (elim (Bool-cases (is_empty core)) [
        | inl blank ↦ rw blank refl
        | inr named ↦ rw named refl
      ])
]

first_unless-busy :
    (listed : Bool) (list : List Core) (f : CreateForm)
    → (first_unless listed list f).0.busy ≡ f.busy
first_unless-busy listed [] f = refl
first_unless-busy true (c ∷ list) f = refl
first_unless-busy false (c ∷ list) f = choose_core-busy c.id f

pub cores_came-busy :
    (core : Text) (answer : Outcome (List Core)) (f : CreateForm)
    → (cores_came core answer f).0.busy ≡ f.busy
unfolding cores_came
cores_came-busy core (returned list) f = first_unless-busy _ list (record f { cores = list })
cores_came-busy core (threw e) f = refl

pick_version-busy : (v : Option CoreVersion) (f : CreateForm) → (pick_version v f).busy ≡ f.busy
pick_version-busy none f = refl
pick_version-busy (some v) f = refl

versions_arrive-busy :
    (answer : Outcome (List CoreVersion)) (f : CreateForm)
    → (versions_arrive answer f).busy ≡ f.busy
unfolding versions_arrive
versions_arrive-busy (returned list) f = pick_version-busy _ (record f { versions = list })
versions_arrive-busy (threw e) f = refl

pub versions_came-busy :
    (effect : ℕ) (answer : Outcome (List CoreVersion)) (f : CreateForm)
    → (versions_came effect answer f).busy ≡ f.busy
unfolding versions_came
versions_came-busy effect answer f = elim (Bool-cases (effect == f.effect)) [
  | inl same ↦ rw same (versions_arrive-busy answer f)
  | inr old ↦ rw old refl
]

-- What leaves the form as it is.
pub kept : (p : ServersPage) (new : List Job) → All Silent new → Quiet p (p, new)
kept p new h = record { openings = refl; silent = h; same = Same-refl p.form }

closed :
    (p : ServersPage) (new : List Job) → All Silent new → Quiet p (record p { form = none }, new)
closed p new h = record { openings = refl; silent = h; same = tt }

-- What puts another form in the place of the open one, which is as busy.
pub replaced :
    (opening : ℕ) (f : CreateForm) (p : ServersPage) (g : CreateForm) (new : List Job)
    → p.form ≡ some (opening, f)
    → g.busy ≡ f.busy
    → All Silent new
    → Quiet p (record p { form = some (opening, g) }, new)
replaced opening f p g new e busy h = record {
  openings = refl;
  silent = h;
  same = subst (λ form. Same form (some (opening, g))) (sym e) (refl, busy);
}

request_of-Silent :
    (opening : ℕ) (core : Text) (request : Option ℕ) → All Silent (request_of opening core request)
request_of-Silent opening core none = tt
request_of-Silent opening core (some effect) = (tt, tt)

pub asked :
    (opening : ℕ) (f : CreateForm) (p : ServersPage) (after : CreateForm × Option ℕ)
    → p.form ≡ some (opening, f)
    → after.0.busy ≡ f.busy
    → Quiet p (asking opening p after)
asked opening f p (g, request) e busy =
    replaced opening f p g _ e busy (request_of-Silent opening g.core request)

pub Within-suc : (n : ℕ) (jobs : List Job) → All (Within n) jobs → All (Within (n + 1)) jobs
Within-suc n [] h = tt
Within-suc n (reload ∷ jobs) (h, k) = (tt, Within-suc n jobs k)
Within-suc n (cores opening ∷ jobs) (h, k) = (tt, Within-suc n jobs k)
Within-suc n (versions opening effect core ∷ jobs) (h, k) = (tt, Within-suc n jobs k)
Within-suc n (create opening sent ∷ jobs) ((h, eula), k) =
    ((omega arith, eula), Within-suc n jobs k)
Within-suc n (power id action ∷ jobs) (h, k) = (tt, Within-suc n jobs k)

-- The next opening has sent nothing.
none_newer :
    (n : ℕ) (jobs : List Job) → All (Within n) jobs → actions (is_creation (n + 1)) jobs ≡ 0
unfolding actions
none_newer n [] h = refl
none_newer n (reload ∷ jobs) (h, k) = omega (arith, none_newer n jobs k)
none_newer n (cores opening ∷ jobs) (h, k) = omega (arith, none_newer n jobs k)
none_newer n (versions opening effect core ∷ jobs) (h, k) = omega (arith, none_newer n jobs k)
none_newer n (create opening sent ∷ jobs) ((h, eula), k) = ground (arith, none_newer n jobs k)
none_newer n (power id action ∷ jobs) (h, k) = omega (arith, none_newer n jobs k)

abbrev pub Holds : ServersPage × List Job → List Job → Type 0
Holds after jobs = Good after.0 (after.1 ++ jobs)

open_form-Good : (p : ServersPage) (jobs : List Job) → Good p jobs → Holds (open_form p) jobs
unfolding open_form actions
open_form-Good p jobs h = record {
  within = (tt, (tt, Within-suc p.openings jobs h.within));
  last = refl;
  once = omega (arith, none_newer p.openings jobs h.within);
}

create_pressed-Good :
    (p : ServersPage) (jobs : List Job) (opening : ℕ) (f : CreateForm)
    → p.form ≡ some (opening, f)
    → f.busy ≡ false
    → f.eula ≡ true
    → Good p jobs
    → Holds (handle_field create_pressed opening f p) jobs
unfolding handle_field submit actions
create_pressed-Good p jobs opening f e free accepted h =
    let last : opening ≡ p.openings = subst (IsLast p.openings) e h.last in
    let once : actions (is_creation opening) jobs ≡ in_flight f.busy =
      subst (λ form. SendsOnce form jobs) e h.once in
    record {
      within = ((omega (arith, last), accepted), h.within);
      last = last;
      once = ground (arith, once, free);
    }

pub quiet :
    (p : ServersPage) (jobs : List Job) {after : ServersPage × List Job}
    → Good p jobs
    → Quiet p after
    → Holds after jobs
quiet p jobs {after = after} h q = Quiet-Good p jobs after q h

form-Good :
    (form : Form) (p : ServersPage) (jobs : List Job) {event : Event}
    → p.form ≡ form
    → Open form event
    → Good p jobs
    → Holds (handle_form event form p) jobs
unfolding handle_form handle_field
form-Good form p jobs e (creating opening f same free accepted) h =
    subst (λ form. Holds (handle_form create_pressed form p) jobs) (sym same)
      (create_pressed-Good p jobs opening f (e ∙ same) free accepted h)
form-Good none p jobs e opening_or_closing h = open_form-Good p jobs h
form-Good (some f) p jobs e opening_or_closing h = quiet p jobs h (closed p [] tt)
form-Good none p jobs e first h = open_form-Good p jobs h
form-Good (some f) p jobs e first h = quiet p jobs h (kept p [] tt)
form-Good none p jobs e (naming t) h = quiet p jobs h (kept p [] tt)
form-Good (some (o, f)) p jobs e (naming t) h =
    quiet p jobs h (replaced o f p (record f { name = t }) [] e refl tt)
form-Good none p jobs e (picking core) h = quiet p jobs h (kept p [] tt)
form-Good (some (o, f)) p jobs e (picking core) h =
    quiet p jobs h (asked o f p (choose_core core f) e (choose_core-busy core f))
form-Good none p jobs e (versioning t) h = quiet p jobs h (kept p [] tt)
form-Good (some (o, f)) p jobs e (versioning t) h =
    quiet p jobs h (replaced o f p (record f { version = t }) [] e refl tt)
form-Good none p jobs e (sizing n) h = quiet p jobs h (kept p [] tt)
form-Good (some (o, f)) p jobs e (sizing n) h =
    quiet p jobs h (replaced o f p (record f { ram = n }) [] e refl tt)
form-Good none p jobs e (checking b) h = quiet p jobs h (kept p [] tt)
form-Good (some (o, f)) p jobs e (checking b) h =
    quiet p jobs h (replaced o f p (record f { eula = b }) [] e refl tt)
form-Good none p jobs e (powering id action) h = quiet p jobs h (kept p [] tt)
form-Good (some (o, f)) p jobs e (powering id action) h = quiet p jobs h (kept p [] tt)

pub handle-Good :
    (p : ServersPage) (jobs : List Job) {event : Event}
    → Open p.form event
    → Good p jobs
    → Holds (handle event p) jobs
unfolding handle
handle-Good p jobs (powering id action) h =
    Quiet-Good p jobs (handle (power_pressed id action) p)
      (record { openings = refl; silent = (tt, tt); same = Same-refl p.form }) h
handle-Good p jobs (creating o f e free accepted) h =
    form-Good p.form p jobs refl (creating o f e free accepted) h
handle-Good p jobs opening_or_closing h = form-Good p.form p jobs refl opening_or_closing h
handle-Good p jobs first h = form-Good p.form p jobs refl first h
handle-Good p jobs (naming t) h = form-Good p.form p jobs refl (naming t) h
handle-Good p jobs (picking t) h = form-Good p.form p jobs refl (picking t) h
handle-Good p jobs (versioning t) h = form-Good p.form p jobs refl (versioning t) h
handle-Good p jobs (sizing n) h = form-Good p.form p jobs refl (sizing n) h
handle-Good p jobs (checking b) h = form-Good p.form p jobs refl (checking b) h
