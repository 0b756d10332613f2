-- ===== src/Servers/Form.antt =====
-- web/src/pages/Servers.tsx: the versions that the form offers, with the requests that are under
-- way.
use mirocraft.Prelude.{
  All, some-injective, ap, subst, zero, suc, get_elem?, codes, ◌≡◌, refl, ◌⊎◌, inl, inr, ℕ, ◌+◌,
  ◌≤◌, Bool, true, false, List, [], ◌∷◌, Option, none, some, any, ◌==◌, ◌===◌, Text, is_empty,
  Bool-cases, arith,
}
use mirocraft.Api.Http.{Failure, Outcome, returned, threw}
use mirocraft.Api.Themes.{Core, CoreVersion}
use mirocraft.Servers.{
  CreateForm, choose_core, cores_came, first_unless, versions_came, versions_arrive, pick_version,
  same_core,
}

-- A request for versions that may still be answered: the effect that made it, and its core.
abbrev pub Requests : Type 0
Requests = List (ℕ × Text)

abbrev add_request : Text → Option ℕ → Requests → Requests
add_request core none rs = rs
add_request core (some effect) rs = (effect, core) ∷ rs

-- What happens to the form: a core is chosen, the list of cores comes, or a request is answered,
-- which may be an old one.
pub data FormEvent : Type 0 where
  core_chosen : (core : Text) → FormEvent
  cores_listed : Outcome (List Core) → FormEvent
  answered : (request : ℕ) → Option Failure → FormEvent

abbrev asked : CreateForm × Option ℕ → Requests → CreateForm × Requests
asked (f, request) rs = (f, add_request f.core request rs)

-- The server offers these versions for a core.
module _ (offered : Text → List CoreVersion) where
  abbrev reply_to : Text → Option Failure → Outcome (List CoreVersion)
  reply_to core none = returned (offered core)
  reply_to core (some e) = threw e

  abbrev answer : Option (ℕ × Text) → Option Failure → CreateForm → CreateForm
  answer none failure f = f
  answer (some (effect, core)) failure f = versions_came effect (reply_to core failure) f

  unfoldable pub form_step : FormEvent → CreateForm × Requests → CreateForm × Requests
  form_step (core_chosen core) (f, rs) = asked (choose_core core f) rs
  form_step (cores_listed result) (f, rs) = asked (cores_came (codes "paper") result f) rs
  form_step (answered i failure) (f, rs) = (answer (get_elem? rs i) failure f, rs)

  -- Only the last effect's request is for the core that is chosen.
  abbrev IsCurrent : CreateForm → ℕ × Text → Type 0
  IsCurrent f (effect, core) = (effect ≤ f.effect) × (effect ≡ f.effect → core ≡ f.core)

  -- No core is chosen, or the versions on offer are none yet or those of the core that is chosen.
  abbrev pub Fits : CreateForm → Type 0
  Fits f = (is_empty f.core ≡ true) ⊎ ((f.versions ≡ []) ⊎ (f.versions ≡ offered f.core))

  pub record IsFitting (s : CreateForm × Requests) : Type 0 where
    pub current : All (IsCurrent s.0) s.1
    pub fits : Fits s.0

  outdated :
      (f g : CreateForm) (rs : Requests)
      → g.effect ≡ f.effect + 1
      → All (IsCurrent f) rs
      → All (IsCurrent g) rs
  outdated f g [] e h = tt
  outdated f g ((effect, core) ∷ rs) e ((le, fresh), h) =
      ((omega arith, λ same. absurd (omega arith)), outdated f g rs e h)

  choose_core-IsFitting :
      (core : Text) (f : CreateForm) (rs : Requests)
      → IsFitting (f, rs)
      → IsFitting (asked (choose_core core f) rs)
  unfolding choose_core
  choose_core-IsFitting core f rs h = elim (Bool-cases (core === f.core)) [
    | inl same ↦ rw same h
    | inr new ↦ rw new (elim (Bool-cases (is_empty core)) [
      | inl blank ↦ rw blank (record {
        current = outdated f (record f { core = core; effect = f.effect + 1 }) rs refl h.current;
        fits = inl blank;
      })
      | inr named ↦ rw named (record {
        current = (
          (omega arith, λ same. refl),
          outdated f
              (record f {
                core = core;
                versions = [];
                versions_error = none;
                effect = f.effect + 1;
              })
              rs refl h.current,
        );
        fits = inr (inl refl);
      })
    ])
  ]

  with_cores :
      (list : List Core) (f : CreateForm) (rs : Requests)
      → IsFitting (f, rs)
      → IsFitting (record f { cores = list }, rs)
  with_cores list f rs h = record { current = h.current; fits = h.fits }

  cores_came-IsFitting :
      (result : Outcome (List Core)) (f : CreateForm) (rs : Requests)
      → IsFitting (f, rs)
      → IsFitting (asked (cores_came (codes "paper") result f) rs)
  unfolding cores_came
  cores_came-IsFitting (threw e) f rs h = with_cores [] f rs h
  cores_came-IsFitting (returned list) f rs h =
      chosen (any (same_core (codes "paper")) list) list (record f { cores = list })
        (with_cores list f rs h)
    where
      chosen :
          (listed : Bool) (list : List Core) (g : CreateForm)
          → IsFitting (g, rs)
          → IsFitting (asked (first_unless listed list g) rs)
      chosen listed [] g h = h
      chosen true (c ∷ list) g h = h
      chosen false (c ∷ list) g h = choose_core-IsFitting c.id g rs h

  picked :
      (v : Option CoreVersion) (g : CreateForm) (rs : Requests)
      → IsFitting (g, rs)
      → IsFitting (pick_version v g, rs)
  picked none g rs h = h
  picked (some v) g rs h = record { current = h.current; fits = h.fits }

  arrive-IsFitting :
      (core : Text) (failure : Option Failure) (f : CreateForm) (rs : Requests)
      → core ≡ f.core
      → IsFitting (f, rs)
      → IsFitting (versions_arrive (reply_to core failure) f, rs)
  unfolding versions_arrive
  arrive-IsFitting core (some e) f rs same h = record { current = h.current; fits = h.fits }
  arrive-IsFitting core none f rs same h =
      picked _ (record f { versions = offered core }) rs
        (record { current = h.current; fits = inr (inr (ap offered same)) })

  answer-IsFitting :
      (found : Option (ℕ × Text)) (failure : Option Failure) (f : CreateForm) (rs : Requests)
      → ((effect : ℕ) (core : Text) → found ≡ some (effect, core) → IsCurrent f (effect, core))
      → IsFitting (f, rs)
      → IsFitting (answer found failure f, rs)
  unfolding versions_came
  answer-IsFitting none failure f rs known h = h
  answer-IsFitting (some (effect, core)) failure f rs known h =
      elim (Bool-cases (effect == f.effect)) [
        | inl same ↦
            rw same
              (arrive-IsFitting core failure f rs ((known effect core refl).1 (ground arith)) h)
        | inr old ↦ rw old h
      ]

  get_elem?-IsCurrent :
      (f : CreateForm) (rs : Requests) (i : ℕ) {effect : ℕ} {core : Text}
      → All (IsCurrent f) rs
      → get_elem? rs i ≡ some (effect, core)
      → IsCurrent f (effect, core)
  get_elem?-IsCurrent f [] i h e = cc
  get_elem?-IsCurrent f (r ∷ rs) zero h e = subst (IsCurrent f) (some-injective e) h.0
  get_elem?-IsCurrent f (r ∷ rs) (suc i) h e = get_elem?-IsCurrent f rs i h.1 e

  -- Any event, such as a late answer to an old request, keeps this: a form with a core offers no
  -- versions yet or those of that core, and a request of the last effect is for that core.
  pub form_step-IsFitting :
      (event : FormEvent) (s : CreateForm × Requests) → IsFitting s → IsFitting (form_step event s)
  unfolding form_step
  form_step-IsFitting (core_chosen core) (f, rs) h = choose_core-IsFitting core f rs h
  form_step-IsFitting (cores_listed result) (f, rs) h = cores_came-IsFitting result f rs h
  form_step-IsFitting (answered i failure) (f, rs) h =
      answer-IsFitting (get_elem? rs i) failure f rs
        (λ effect core e. get_elem?-IsCurrent f rs i h.current e) h
