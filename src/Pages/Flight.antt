-- ===== src/Pages/Flight.antt =====
-- The calls of a page that are under way. Some belong to an action, for which the page is busy.
use mirocraft.Prelude.{
  ◌≡◌, refl, ap, ℕ, zero, suc, ◌+◌, Bool, List, [], ◌∷◌, ◌++◌, Option, none, some, get_or_else,
  if◌then◌else◌, arith,
}

abbrev pub past : {Job : Type 0} → Job → Option (Job × List Job) → Option (Job × List Job)
past job none = none
past job (some (found, left)) = some (found, job ∷ left)

-- The call at a place, and the others.
unfoldable pub take_out : {Job : Type 0} → ℕ → List Job → Option (Job × List Job)
take_out i [] = none
take_out zero (job ∷ jobs) = some (job, jobs)
take_out (suc i) (job ∷ jobs) = past job (take_out i jobs)

module _ {Job : Type 0} (is_action : Job → Bool) where
  abbrev pub weight : Job → ℕ
  weight job = if is_action job then 1 else 0

  unfoldable pub actions : List Job → ℕ
  actions [] = 0
  actions (job ∷ jobs) = weight job + actions jobs

  pub actions-append : (xs ys : List Job) → actions (xs ++ ys) ≡ actions xs + actions ys
  unfolding actions
  actions-append [] ys = omega arith
  actions-append (x ∷ xs) ys = omega (arith, actions-append xs ys)

  -- A call and the others together.
  abbrev weigh : Job × List Job → ℕ
  weigh (job, jobs) = weight job + actions jobs

  actions-past :
      (j : Job) (o : Option (Job × List Job)) (jobs : List Job) {job : Job} {left : List Job}
      → ((k : Job) (rest : List Job) → o ≡ some (k, rest) → actions jobs ≡ weight k + actions rest)
      → past j o ≡ some (job, left)
      → weight j + actions jobs ≡ weight job + actions left
  unfolding actions
  actions-past j none jobs known e = cc
  actions-past j (some (k, rest)) jobs {job = job} {left = left} known e =
      let same : weight k + (weight j + actions rest) ≡ weight job + actions left =
        ap (λ o. weigh (get_or_else o (k, j ∷ rest))) e in
      omega (arith, known k rest refl, same)

  pub actions-take_out :
      (i : ℕ) (jobs : List Job) {job : Job} {left : List Job}
      → take_out i jobs ≡ some (job, left)
      → actions jobs ≡ weight job + actions left
  unfolding take_out actions
  actions-take_out i [] e = cc
  actions-take_out zero (j ∷ jobs) e = ap (λ o. weigh (get_or_else o (j, jobs))) e
  actions-take_out (suc i) (j ∷ jobs) e =
      actions-past j (take_out i jobs) jobs (λ k rest h. actions-take_out i jobs h) e
