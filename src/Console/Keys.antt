-- ===== src/Console/Keys.antt =====
-- web/src/pages/ServerDetail.tsx: the keys of the console's frames.
use mirocraft.Prelude.{sym, subst, ℕ, zero, suc, ◌≤◌, List, [], ◌∷◌, ◌++◌, drop, arith}
use mirocraft.Console.{Line, Frame, Console, push}
use mirocraft.Console.Bound.{push-lines, pushed}

-- The keys rise from `lo` on and stay below `hi`, so no two frames share one.
abbrev pub Rising : ℕ → ℕ → List Frame → Type 0
Rising lo hi [] = lo ≤ hi
Rising lo hi (f ∷ fs) = (lo ≤ f.key) × Rising (suc f.key) hi fs

Rising-append :
    (lo hi : ℕ) (fs : List Frame) (l : Line)
    → Rising lo hi fs
    → Rising lo (suc hi) (fs ++ record { key = hi; line = l } ∷ [])
Rising-append lo hi [] l h = (h, omega arith)
Rising-append lo hi (f ∷ fs) l (h, k) = (h, Rising-append (suc f.key) hi fs l k)

Rising-lower : (lo lo' hi : ℕ) (fs : List Frame) → lo ≤ lo' → Rising lo' hi fs → Rising lo hi fs
Rising-lower lo lo' hi [] h k = omega arith
Rising-lower lo lo' hi (f ∷ fs) h (k, rest) = (omega arith, rest)

Rising-drop : (n lo hi : ℕ) (fs : List Frame) → Rising lo hi fs → Rising lo hi (drop n fs)
Rising-drop zero lo hi fs h = h
Rising-drop (suc n) lo hi [] h = h
Rising-drop (suc n) lo hi (f ∷ fs) (h, k) =
    Rising-drop n lo hi fs (Rising-lower lo (suc f.key) hi fs (omega arith) k)

pub push-keyed :
    (l : Line) (c : Console)
    → Rising 0 c.next_key c.lines
    → Rising 0 (suc c.next_key) (push l c).lines
push-keyed l c h =
    subst (Rising 0 (suc c.next_key)) (sym (push-lines l c))
      (Rising-drop _ 0 (suc c.next_key) (pushed l c) (Rising-append 0 c.next_key c.lines l h))
