-- ===== src/Servers/Creations.antt =====
-- web/src/pages/Servers.tsx: the creations that are under way, and the form that has sent them.
pub mod Offered
pub mod Handled
pub mod Settled
pub mod Reached
use mirocraft.Prelude.{
  ◌≡◌, refl, sym, ap, subst, ◌∙◌, ℕ, ◌≤◌, Bool, true, false, List, [], ◌∷◌, ◌++◌, Option, none,
  some, All, ◌==◌, if◌then◌else◌, arith,
}
use mirocraft.Api.Endpoint.{Endpoint}
use mirocraft.Api.Servers.{NewServer, create_server}
use mirocraft.Pages.Flight.{actions, actions-append, weight}
use mirocraft.Servers.{CreateForm}
use mirocraft.Servers.Shown.{ServersPage}
use mirocraft.Servers.Running.{Job, reload, cores, versions, create, power, endpoint_of}

-- A request for a server whose EULA is accepted.
abbrev pub Accepts : Endpoint → Type 0
Accepts e = (server : NewServer) × (server.eula_accepted ≡ true) × (e ≡ create_server server)

abbrev pub AllowedCall : Job → Type 0
AllowedCall (create opening sent) = Accepts (endpoint_of (create opening sent))
AllowedCall job = Unit

abbrev pub is_creation : ℕ → Job → Bool
is_creation opening (create o sent) = o == opening
is_creation opening job = false

abbrev pub in_flight : Bool → ℕ
in_flight busy = if busy then 1 else 0

-- The form that is open waits for exactly one creation while it is busy, for none while it is not.
abbrev pub SendsOnce : Option (ℕ × CreateForm) → List Job → Type 0
SendsOnce none jobs = Unit
SendsOnce (some (opening, f)) jobs = actions (is_creation opening) jobs ≡ in_flight f.busy

-- A creation was sent by one of the openings so far.
abbrev pub Within : ℕ → Job → Type 0
Within n (create opening sent) = (opening ≤ n) × (sent.eula ≡ true)
Within n job = Unit

abbrev pub IsLast : ℕ → Option (ℕ × CreateForm) → Type 0
IsLast n none = Unit
IsLast n (some (opening, f)) = opening ≡ n

pub record Good (p : ServersPage) (jobs : List Job) : Type 0 where
  pub within : All (Within p.openings) jobs
  pub last : IsLast p.openings p.form
  pub once : SendsOnce p.form jobs

abbrev pub Silent : Job → Type 0
Silent (create opening sent) = ⊥
Silent job = Unit

pub Silent-weight : (n : ℕ) (job : Job) → Silent job → weight (is_creation n) job ≡ 0
Silent-weight n reload h = refl
Silent-weight n (cores opening) h = refl
Silent-weight n (versions opening effect core) h = refl
Silent-weight n (create opening sent) h = absurd h
Silent-weight n (power id action) h = refl

Silent-actions : (n : ℕ) (new : List Job) → All Silent new → actions (is_creation n) new ≡ 0
unfolding actions
Silent-actions n [] h = refl
Silent-actions n (job ∷ new) (h, k) = omega (arith, Silent-weight n job h, Silent-actions n new k)

Silent-Within :
    (n : ℕ) (new jobs : List Job)
    → All Silent new
    → All (Within n) jobs
    → All (Within n) (new ++ jobs)
Silent-Within n [] jobs h w = w
Silent-Within n (reload ∷ new) jobs (h, k) w = (tt, Silent-Within n new jobs k w)
Silent-Within n (cores opening ∷ new) jobs (h, k) w = (tt, Silent-Within n new jobs k w)
Silent-Within n (versions opening effect core ∷ new) jobs (h, k) w =
    (tt, Silent-Within n new jobs k w)
Silent-Within n (create opening sent ∷ new) jobs (h, k) w = absurd h
Silent-Within n (power id action ∷ new) jobs (h, k) w = (tt, Silent-Within n new jobs k w)

-- The form is closed, or still the same, and as busy as it was.
abbrev pub Same : Option (ℕ × CreateForm) → Option (ℕ × CreateForm) → Type 0
Same was none = Unit
Same none (some f) = ⊥
Same (some (o, f)) (some (opening, g)) = (opening ≡ o) × (g.busy ≡ f.busy)

pub Same-refl : (form : Option (ℕ × CreateForm)) → Same form form
Same-refl none = tt
Same-refl (some (opening, f)) = (refl, refl)

Same-IsLast :
    (n : ℕ) (was now : Option (ℕ × CreateForm)) → Same was now → IsLast n was → IsLast n now
Same-IsLast n was none h l = tt
Same-IsLast n none (some f) h l = absurd h
Same-IsLast n (some (o, f)) (some (opening, g)) (h, k) l = h ∙ l

Same-SendsOnce :
    (was now : Option (ℕ × CreateForm)) (new jobs : List Job)
    → Same was now
    → All Silent new
    → SendsOnce was jobs
    → SendsOnce now (new ++ jobs)
Same-SendsOnce was none new jobs h silent once = tt
Same-SendsOnce none (some f) new jobs h silent once = absurd h
Same-SendsOnce (some (o, f)) (some (opening, g)) new jobs (same, busy) silent once = omega (
  arith,
  actions-append (is_creation opening) new jobs,
  Silent-actions opening new silent,
  ap (λ o. actions (is_creation o) jobs) same,
  once,
  ap in_flight busy,
)

-- A step that sends no creation and opens no form.
pub record Quiet (p : ServersPage) (after : ServersPage × List Job) : Type 0 where
  pub openings : after.0.openings ≡ p.openings
  pub silent : All Silent after.1
  pub same : Same p.form after.0.form

pub Quiet-Good :
    (p : ServersPage) (jobs : List Job) (after : ServersPage × List Job)
    → Quiet p after
    → Good p jobs
    → Good after.0 (after.1 ++ jobs)
Quiet-Good p jobs after q h = record {
  within =
      Silent-Within after.0.openings after.1 jobs q.silent
        (subst (λ n. All (Within n) jobs) (sym q.openings) h.within);
  last =
      subst (λ n. IsLast n after.0.form) (sym q.openings)
        (Same-IsLast p.openings p.form after.0.form q.same h.last);
  once = Same-SendsOnce p.form after.0.form after.1 jobs q.same q.silent h.once;
}
