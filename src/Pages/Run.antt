-- ===== src/Pages/Run.antt =====
-- How a page of the panel runs: whoever uses it acts on what it shows, its timers fire, and its
-- calls end, in any order. A page is shown anew after each of these.
use mirocraft.Prelude.{◌≡◌, refl, sym, ◌∙◌, ℕ, ◌+◌, Bool, List, ◌++◌, some, if◌then◌else◌, arith}
use mirocraft.Pages.Flight.{take_out, actions, actions-append, actions-take_out, weight}
use mirocraft.Pages.Ui.{View, Offers}

-- What a page is: `handle` is what the control of an event does, `happen` what a timer or another
-- part does, `settle` what follows a call that has ended.
pub record Page : Type 1 where
  pub State : Type 0
  pub Event : Type 0
  pub Outside : Type 0
  pub Job : Type 0
  pub Answer : Job → Type 0
  pub view : State → View Event
  pub handle : Event → State → State × List Job
  pub happen : Outside → State → State × List Job
  pub settle : (job : Job) → Answer job → State → State × List Job

module _ (p : Page) where
  open p use {State, Event, Outside, Job, Answer, view, handle, happen, settle}

  -- A page with its calls under way.
  abbrev pub Running : Type 0
  Running = State × List Job

  abbrev pub started : State × List Job → List Job → Running
  started (s, new) jobs = (s, new ++ jobs)

  pub data Step : Running → Running → Type 0 where
    acts :
        {s : State} {jobs : List Job} (event : Event)
        → Offers event (view s)
        → Step (s, jobs) (started (handle event s) jobs)
    happens :
        {s : State} {jobs : List Job} (what : Outside)
        → Step (s, jobs) (started (happen what s) jobs)
    ends :
        {s : State} {jobs : List Job} (place : ℕ) (job : Job) (left : List Job)
        (answer : Answer job)
        → take_out place jobs ≡ some (job, left)
        → Step (s, jobs) (started (settle job answer s) left)

  pub data Reach (from : Running) : Running → Type 0 where
    here : Reach from from
    next : {a b : Running} → Reach from a → Step a b → Reach from b

  abbrev pub busy_count : Bool → ℕ
  busy_count busy = if busy then 1 else 0

  -- What starts a call of an action makes a page busy that is not, and only that does.
  abbrev pub Balanced : (Job → Bool) → (State → Bool) → State → State × List Job → Type 0
  Balanced is_action is_busy s (s', new) =
      actions is_action new + busy_count (is_busy s) ≡ busy_count (is_busy s')

  -- The calls of actions, for which the page is busy; `n` counts those beside the one that ends.
  pub record Actions : Type 0 where
    pub is_action : Job → Bool
    pub is_busy : State → Bool
    pub offered :
        (s : State) (event : Event)
        → Offers event (view s)
        → Balanced is_action is_busy s (handle event s)
    pub outside : (what : Outside) (s : State) → Balanced is_action is_busy s (happen what s)
    pub settled :
        (job : Job) (answer : Answer job) (s : State) (n : ℕ)
        → weight is_action job + n ≡ busy_count (is_busy s)
        → actions is_action (settle job answer s).1 + n
          ≡ busy_count (is_busy (settle job answer s).0)

  module _ (a : Actions) where
    -- The page is busy exactly while a call of an action is under way, and then one is.
    abbrev pub RunsOne : Running → Type 0
    RunsOne (s, jobs) = actions a.is_action jobs ≡ busy_count (a.is_busy s)

    started-RunsOne :
        (after : State × List Job) (jobs : List Job) (n : ℕ)
        → actions a.is_action jobs ≡ n
        → actions a.is_action after.1 + n ≡ busy_count (a.is_busy after.0)
        → RunsOne (started after jobs)
    started-RunsOne (s, new) jobs n e h = omega (arith, actions-append a.is_action new jobs, e, h)

    pub Step-RunsOne : {b c : Running} → Step b c → RunsOne b → RunsOne c
    Step-RunsOne (acts {s = s} {jobs = jobs} event o) h =
        started-RunsOne (handle event s) jobs _ h (a.offered s event o)
    Step-RunsOne (happens {s = s} {jobs = jobs} what) h =
        started-RunsOne (happen what s) jobs _ h (a.outside what s)
    Step-RunsOne (ends {s = s} {jobs = jobs} place job left answer e) h =
        started-RunsOne (settle job answer s) left _ refl
          (a.settled job answer s _ (sym (actions-take_out a.is_action place jobs e) ∙ h))

    pub Reach-RunsOne : {from to : Running} → RunsOne from → Reach from to → RunsOne to
    Reach-RunsOne h here = h
    Reach-RunsOne h (next r step) = Step-RunsOne step (Reach-RunsOne h r)
