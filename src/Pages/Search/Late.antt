-- ===== src/Pages/Search/Late.antt =====
-- The search boxes of web/src/pages/ServerCatalog.tsx and web/src/pages/ServerModpacks.tsx, with the
-- requests that are under way: what late answers do.
use mirocraft.Prelude.{
  ◌≡◌, refl, inl, inr, ℕ, zero, suc, ◌+◌, ◌≤◌, false, List, [], ◌∷◌, Option, none, some, All, ◌==◌,
  Bool-cases, get_elem?, arith,
}
use mirocraft.Api.Http.{Failure, Outcome, returned, threw}
use mirocraft.Api.Catalog.{CatalogProject, CatalogSearch}
use mirocraft.Pages.Search.{Request, SearchBox, search_changed, timer_fired, show_answer, answered}

-- The box, the requests that may still be answered, and the search that was begun last.
pub record Board : Type 0 where
  pub box : SearchBox
  pub requests : List Request
  pub begun : Option CatalogSearch

pub data Event : Type 0 where
  changed : Option CatalogSearch → Event
  fired : Event
  came : (request : ℕ) → Option Failure → Event

abbrev begin : Option CatalogSearch → Option CatalogSearch → Option CatalogSearch
begin none before = before
begin (some search) before = some search

abbrev add : Option Request → List Request → List Request
add none rs = rs
add (some r) rs = r ∷ rs

-- The server finds these projects for a search.
module _ (found : CatalogSearch → List CatalogProject) where
  abbrev reply_to : CatalogSearch → Option Failure → Outcome (Option (List CatalogProject))
  reply_to search none = returned (some (found search))
  reply_to search (some e) = threw e

  abbrev answer : Option Request → Option Failure → SearchBox → SearchBox
  answer none failure s = s
  answer (some (seq, search)) failure s = answered seq (reply_to search failure) s

  unfoldable pub board_step : Event → Board → Board
  unfolding search_changed timer_fired
  board_step (changed search) b = record b {
    box = search_changed search b.box;
    begun = begin search b.begun;
  }
  board_step fired b = record b {
    box = (timer_fired b.box).0;
    requests = add (timer_fired b.box).1 b.requests;
  }
  board_step (came i failure) b = record b { box = answer (get_elem? b.requests i) failure b.box }

  -- Only the last number is that of the search that was begun last.
  abbrev IsCurrent : SearchBox → Option CatalogSearch → Request → Type 0
  IsCurrent s begun (seq, search) = (seq ≤ s.seq) × (seq ≡ s.seq → begun ≡ some search)

  abbrev TimerIsCurrent : SearchBox → Option CatalogSearch → Option Request → Type 0
  TimerIsCurrent s begun none = Unit
  TimerIsCurrent s begun (some r) = IsCurrent s begun r

  -- Nothing is shown, or no hit, or the hits of the search that was begun last.
  pub data Fits (begun : Option CatalogSearch) : Option (List CatalogProject) → Type 0 where
    nothing : Fits begun none
    no_hit : Fits begun (some [])
    hits_of : {search : CatalogSearch} → begun ≡ some search → Fits begun (some (found search))

  pub record IsTimely (b : Board) : Type 0 where
    pub current : All (IsCurrent b.box b.begun) b.requests
    pub timer : TimerIsCurrent b.box b.begun b.box.timer
    pub fits : b.box.searching ≡ false → Fits b.begun b.box.hits

  outdated :
      (s t : SearchBox) (begun now : Option CatalogSearch) (rs : List Request)
      → t.seq ≡ s.seq + 1
      → All (IsCurrent s begun) rs
      → All (IsCurrent t now) rs
  outdated s t begun now [] e h = tt
  outdated s t begun now ((seq, search) ∷ rs) e ((le, fresh), h) =
      ((omega arith, λ same. absurd (omega arith)), outdated s t begun now rs e h)

  changed-IsTimely :
      (search : Option CatalogSearch) (b : Board)
      → IsTimely b
      → IsTimely (record b { box = search_changed search b.box; begun = begin search b.begun })
  unfolding search_changed
  changed-IsTimely none b h = record { current = h.current; timer = tt; fits = λ idle. nothing }
  changed-IsTimely (some search) b h = record {
    current =
        outdated b.box (search_changed (some search) b.box) b.begun (some search) b.requests refl
          h.current;
    timer = (omega arith, λ same. refl);
    fits = λ idle. absurd (cc idle);
  }

  fired-IsTimely :
      (timer : Option Request) (b : Board)
      → TimerIsCurrent b.box b.begun timer
      → IsTimely b
      → IsTimely (record b { box = record b.box { timer = none }; requests = add timer b.requests })
  fired-IsTimely none b t h = record { current = h.current; timer = tt; fits = h.fits }
  fired-IsTimely (some r) b t h = record { current = (t, h.current); timer = tt; fits = h.fits }

  show_answer-IsTimely :
      (search : CatalogSearch) (failure : Option Failure) (b : Board)
      → b.begun ≡ some search
      → IsTimely b
      → IsTimely (record b { box = show_answer (reply_to search failure) b.box })
  show_answer-IsTimely search none b e h = record {
    current = h.current;
    timer = h.timer;
    fits = λ idle. hits_of e;
  }
  show_answer-IsTimely search (some f) b e h = record {
    current = h.current;
    timer = h.timer;
    fits = λ idle. no_hit;
  }

  answer-IsTimely :
      (r : Option Request) (failure : Option Failure) (b : Board)
      → TimerIsCurrent b.box b.begun r
      → IsTimely b
      → IsTimely (record b { box = answer r failure b.box })
  unfolding answered
  answer-IsTimely none failure b known h = record {
    current = h.current;
    timer = h.timer;
    fits = h.fits;
  }
  answer-IsTimely (some (seq, search)) failure b known h = elim (Bool-cases (seq == b.box.seq)) [
    | inl same ↦ rw same (show_answer-IsTimely search failure b (known.1 (ground arith)) h)
    | inr old ↦ rw old (record { current = h.current; timer = h.timer; fits = h.fits })
  ]

  get_elem?-IsCurrent :
      (s : SearchBox) (begun : Option CatalogSearch) (rs : List Request) (i : ℕ)
      → All (IsCurrent s begun) rs
      → TimerIsCurrent s begun (get_elem? rs i)
  get_elem?-IsCurrent s begun [] i h = tt
  get_elem?-IsCurrent s begun (r ∷ rs) zero h = h.0
  get_elem?-IsCurrent s begun (r ∷ rs) (suc i) h = get_elem?-IsCurrent s begun rs i h.1

  -- Any event, such as a late answer to an old search, keeps this: a box that says that it does not
  -- search shows nothing, no hit, or the hits of the search that was begun last; and a timer or a
  -- request with the last number is for that search.
  pub board_step-IsTimely : (event : Event) (b : Board) → IsTimely b → IsTimely (board_step event b)
  unfolding board_step timer_fired
  board_step-IsTimely (changed search) b h = changed-IsTimely search b h
  board_step-IsTimely fired b h = fired-IsTimely b.box.timer b h.timer h
  board_step-IsTimely (came i failure) b h =
      answer-IsTimely (get_elem? b.requests i) failure b
        (get_elem?-IsCurrent b.box b.begun b.requests i h.current) h
