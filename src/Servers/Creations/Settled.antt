-- ===== src/Servers/Creations/Settled.antt =====
-- web/src/pages/Servers.tsx: what the answers do to the creations under way.
use mirocraft.Prelude.{
  ◌≡◌, refl, sym, ap, ap₂, subst, ◌∙◌, inl, inr, ℕ, zero, suc, ◌+◌, Bool, true, false, List, [],
  ◌∷◌, Option, none, some, some-injective, All, ◌==◌, if◌then◌else◌, Bool-cases, Text, codes, arith,
}
use mirocraft.Api.Http.{Failure, Outcome, returned, threw}
use mirocraft.Api.Themes.{Core, CoreVersion}
use mirocraft.Pages.Flight.{past, take_out, actions, actions-take_out, weight}
use mirocraft.Servers.{card_done, Card, CreateForm, cores_came, versions_came, submitted}
use mirocraft.Servers.Shown.{card_of, ServersPage}
use mirocraft.Servers.Running.{
  Reply, with_card, same_form, Job, reload, cores, versions, create, power, cores_answered,
  versions_answered, create_answered, settle,
}
use mirocraft.Servers.Creations.{
  is_creation, in_flight, SendsOnce, Within, IsLast, Good, Same-refl, Quiet, Quiet-Good,
}
use mirocraft.Servers.Creations.Offered.{Form}
use mirocraft.Servers.Creations.Handled.{
  kept, replaced, asked, Holds, cores_came-busy, versions_came-busy,
}

All-take_out :
    (P : Job → Type 0) (place : ℕ) (jobs : List Job) {job : Job} {left : List Job}
    → take_out place jobs ≡ some (job, left)
    → All P jobs
    → P job × All P left
unfolding take_out
All-take_out P place [] e h = cc
All-take_out P zero (j ∷ jobs) e (p, h) = subst (λ x. P x.0 × All P x.1) (some-injective e) (p, h)
All-take_out P (suc place) (j ∷ jobs) e (p, h) =
    behind (take_out place jobs) (λ k rest found. All-take_out P place jobs found h) e
  where
    behind :
        (o : Option (Job × List Job)) {job : Job} {left : List Job}
        → ((k : Job) (rest : List Job) → o ≡ some (k, rest) → P k × All P rest)
        → past j o ≡ some (job, left)
        → P job × All P left
    behind none known e = cc
    behind (some (k, rest)) known e =
        let (q, r) = known k rest refl in
        subst (λ x. P x.0 × All P x.1) (some-injective e) (q, (p, r))

-- The calls that are left when one that is no creation has ended.
left-SendsOnce :
    (form : Form) (place : ℕ) (jobs : List Job) (job : Job) (left : List Job)
    → take_out place jobs ≡ some (job, left)
    → ((n : ℕ) (f : CreateForm) → form ≡ some (n, f) → weight (is_creation n) job ≡ 0)
    → SendsOnce form jobs
    → SendsOnce form left
left-SendsOnce none place jobs job left e h once = tt
left-SendsOnce (some (n, f)) place jobs job left e h once =
    omega (arith, actions-take_out (is_creation n) place jobs e, h n f refl, once)

left-Good :
    (p : ServersPage) (place : ℕ) (jobs : List Job) (job : Job) (left : List Job)
    → take_out place jobs ≡ some (job, left)
    → ((n : ℕ) (f : CreateForm) → p.form ≡ some (n, f) → weight (is_creation n) job ≡ 0)
    → Good p jobs
    → Good p left
left-Good p place jobs job left e h good = record {
  within = (All-take_out (Within p.openings) place jobs e good.within).1;
  last = good.last;
  once = left-SendsOnce p.form place jobs job left e h good.once;
}

-- The one creation of a form has ended.
none_left :
    (n opening : ℕ) (sent : CreateForm) (busy : Bool) (all rest : ℕ)
    → n ≡ opening
    → all ≡ weight (is_creation n) (create opening sent) + rest
    → all ≡ in_flight busy
    → rest ≡ 0
none_left n opening sent true all rest same e once = ground arith
none_left n opening sent false all rest same e once = ground arith

refused-Good :
    (form : Form) (p : ServersPage) (place : ℕ) (jobs left : List Job) (opening : ℕ)
    (sent : CreateForm) (e : Failure)
    → p.form ≡ form
    → take_out place jobs ≡ some (create opening sent, left)
    → Good p jobs
    → Holds (create_answered opening (threw e) (same_form opening form) p) left
unfolding create_answered submitted
refused-Good none p place jobs left opening sent e shown found h =
    left-Good p place jobs (create opening sent) left found (λ n f it. cc) h
refused-Good (some (n, f)) p place jobs left opening sent e shown found h =
    let last : n ≡ p.openings = subst (IsLast p.openings) shown h.last in
    let once : actions (is_creation n) jobs ≡ in_flight f.busy =
      subst (λ form. SendsOnce form jobs) shown h.once in
    elim (Bool-cases (n == opening)) [
      | inl same ↦
          let here : n ≡ opening = ground arith in
          let freed : actions (is_creation n) left ≡ 0 =
            none_left n opening sent f.busy _ _ here
              (actions-take_out (is_creation n) place jobs found) once in
          rw same (record {
            within = (All-take_out (Within p.openings) place jobs found h.within).1;
            last = sym here ∙ last;
            once = subst (λ o. actions (is_creation o) left ≡ 0) here freed;
          })
      | inr old ↦ rw old (
          left-Good p place jobs (create opening sent) left found
            (λ m g it.
              let same_one : n ≡ m = ap (λ x. x.0) (some-injective (sym shown ∙ it)) in
              ground arith)
            h)
    ]

-- An answer for the form that is open.
same_form-open :
    (opening : ℕ) (form : Form) (f : CreateForm)
    → same_form opening form ≡ some f
    → form ≡ some (opening, f)
same_form-open opening none f e = cc
same_form-open opening (some (n, g)) f e = elim (Bool-cases (n == opening)) [
  | inl same ↦
      let here : n ≡ opening = ground arith in
      let found : some g ≡ some f = ground (arith, e) in
      ap₂ (λ n g. some (n, g)) here (some-injective found)
  | inr old ↦ absurd (ground (arith, e))
]

cores-Quiet :
    (opening : ℕ) (answer : Outcome (List Core)) (found : Option CreateForm) (p : ServersPage)
    → same_form opening p.form ≡ found
    → Quiet p (cores_answered opening answer found p)
unfolding cores_answered
cores-Quiet opening answer none p e = kept p [] tt
cores-Quiet opening answer (some f) p e =
    asked opening f p (cores_came (codes "paper") answer f) (same_form-open opening p.form f e)
      (cores_came-busy (codes "paper") answer f)

versions-Quiet :
    (opening effect : ℕ) (answer : Outcome (List CoreVersion)) (found : Option CreateForm)
    (p : ServersPage)
    → same_form opening p.form ≡ found
    → Quiet p (versions_answered opening effect answer found p)
unfolding versions_answered
versions-Quiet opening effect answer none p e = kept p [] tt
versions-Quiet opening effect answer (some f) p e =
    replaced opening f p (versions_came effect answer f) [] (same_form-open opening p.form f e)
      (versions_came-busy effect answer f) tt

card-Quiet :
    (id : Text) (after : Card × Bool) (listed : Bool) (p : ServersPage)
    → Quiet p (if listed then with_card id after.0 p else p, if after.1 then reload ∷ [] else [])
card-Quiet id (card, true) true p = record {
  openings = refl;
  silent = (tt, tt);
  same = Same-refl p.form;
}
card-Quiet id (card, true) false p = kept p (reload ∷ []) (tt, tt)
card-Quiet id (card, false) true p = record {
  openings = refl;
  silent = tt;
  same = Same-refl p.form;
}
card-Quiet id (card, false) false p = kept p [] tt

module _ (message : Failure → Text) where
  pub settle-Good :
      (p : ServersPage) (place : ℕ) (jobs : List Job) (job : Job) (left : List Job)
      (answer : Outcome (Reply job))
      → take_out place jobs ≡ some (job, left)
      → Good p jobs
      → Holds (settle message job answer p) left
  unfolding settle
  settle-Good p place jobs reload left answer found h =
      Quiet-Good p left (settle message reload answer p)
        (record { openings = refl; silent = tt; same = Same-refl p.form })
        (left-Good p place jobs reload left found (λ n f it. refl) h)
  settle-Good p place jobs (cores opening) left answer found h =
      Quiet-Good p left (settle message (cores opening) answer p)
        (cores-Quiet opening answer _ p refl)
        (left-Good p place jobs (cores opening) left found (λ n f it. refl) h)
  settle-Good p place jobs (versions opening effect core) left answer found h =
      Quiet-Good p left (settle message (versions opening effect core) answer p)
        (versions-Quiet opening effect answer _ p refl)
        (left-Good p place jobs (versions opening effect core) left found (λ n f it. refl) h)
  settle-Good p place jobs (power id action) left answer found h =
      Quiet-Good p left (settle message (power id action) answer p)
        (card-Quiet id (card_done answer (card_of id p.cards)) _ p)
        (left-Good p place jobs (power id action) left found (λ n f it. refl) h)
  settle-Good p place jobs (create opening sent) left (returned body) found h = record {
    within = (tt, (All-take_out (Within p.openings) place jobs found h.within).1);
    last = tt;
    once = tt;
  }
  settle-Good p place jobs (create opening sent) left (threw e) found h =
      refused-Good p.form p place jobs left opening sent e refl found h
