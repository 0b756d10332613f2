-- ===== src/Servers/Creations/Reached.antt =====
-- web/src/pages/Servers.tsx: the creations that are under way, as the page runs.
use mirocraft.Prelude.{refl, ℕ, List, [], ◌∷◌, All, Text}
use mirocraft.Api.Http.{Failure}
use mirocraft.Pages.Run.{Page, Running, Step, acts, happens, ends, Reach, here, next, started}
use mirocraft.Pages.Ui.{Only-Offers}
use mirocraft.Servers.{submit}
use mirocraft.Servers.Shown.{ServersPage}
use mirocraft.Servers.Running.{
  opened, Job, reload, cores, versions, create, power, endpoint_of, handle, happen, settle, page,
}
use mirocraft.Servers.Creations.{AllowedCall, SendsOnce, Within, Good}
use mirocraft.Servers.Creations.Offered.{Open, view-Open}
use mirocraft.Servers.Creations.Handled.{kept, quiet, Holds, handle-Good}
use mirocraft.Servers.Creations.Settled.{settle-Good}

module _ (message : Failure → Text) where
  module _ (to_fixed : ℕ → ℕ → ℕ → Text) (number : Text → ℕ) where
    abbrev Servers : Page
    Servers = page message to_fixed number

    started-Good :
        (after : ServersPage × List Job) (jobs : List Job)
        → Holds after jobs
        → Good (started Servers after jobs).0 (started Servers after jobs).1
    started-Good (p, new) jobs h = h

    Step-Good : {b c : Running Servers} → Step Servers b c → Good b.0 b.1 → Good c.0 c.1
    unfolding happen
    Step-Good (acts {s = p} {jobs = jobs} event o) h =
        started-Good (handle event p) jobs
          (handle-Good p jobs (Only-Offers (Open p.form) (view-Open to_fixed number p) o) h)
    Step-Good (happens {s = p} {jobs = jobs} what) h =
        started-Good (happen what p) jobs (quiet p jobs h (kept p (reload ∷ []) (tt, tt)))
    Step-Good (ends {s = p} {jobs = jobs} place job left answer found) h =
        started-Good (settle message job answer p) left
          (settle-Good message p place jobs job left answer found h)

    Reach-Good : {b : Running Servers} → Reach Servers (opened, []) b → Good b.0 b.1
    Reach-Good here = record { within = tt; last = tt; once = tt }
    Reach-Good (next r step) = Step-Good step (Reach-Good r)

    allowed : (n : ℕ) (jobs : List Job) → All (Within n) jobs → All AllowedCall jobs
    unfolding endpoint_of submit
    allowed n [] h = tt
    allowed n (reload ∷ jobs) (h, k) = (tt, allowed n jobs k)
    allowed n (cores opening ∷ jobs) (h, k) = (tt, allowed n jobs k)
    allowed n (versions opening effect core ∷ jobs) (h, k) = (tt, allowed n jobs k)
    allowed n (create opening sent ∷ jobs) ((h, eula), k) = ((_, eula, refl), allowed n jobs k)
    allowed n (power id action ∷ jobs) (h, k) = (tt, allowed n jobs k)

    -- From the opened page on, whatever is done with what it shows, however often its form is closed
    -- and opened again, and whatever the calls give and in which order: every creation under way
    -- asks for a server whose EULA is accepted, and the open form waits for exactly one creation
    -- while it is busy, for none while it is not.
    pub Reach-SendsOnce :
        {b : Running Servers}
        → Reach Servers (opened, []) b
        → All AllowedCall b.1 × SendsOnce b.0.form b.1
    Reach-SendsOnce {b = b} r =
        let good = Reach-Good r in (allowed b.0.openings b.1 good.within, good.once)
