-- ===== src/Pages/LinkedAccounts/Countdown.antt =====
-- web/src/components/LinkedAccounts.tsx: the seconds that are shown beside a code.
use mirocraft.Prelude.{
  some-injective, ◌≡◌, refl, sym, subst, ◌∙◌, inl, inr, ℕ, ◌+◌, ◌-◌, ◌*◌, ◌≤◌, ◌<◌, true, false,
  Option, none, some, ◌==◌, Bool-cases, arith,
}
use mirocraft.Pages.LinkedAccounts.{Issued, LinkedAccounts, seconds_left, tick_issued, tick}

-- A code that is shown can still be typed, and the seconds are within half a second of the time that
-- it has left.
pub record Counts (now : ℕ) (s : LinkedAccounts) (i : Issued) : Type 0 where
  pub valid : now < i.expires_at
  pub some_left : 1 ≤ s.remaining
  pub not_over : s.remaining * 1000 ≤ i.expires_at - now + 500
  pub not_under : i.expires_at - now < s.remaining * 1000 + 500

tick_issued-Counts :
    (now : ℕ) (o : Option Issued) (s : LinkedAccounts) (i : Issued)
    → s.issued ≡ o
    → (tick_issued now o s).issued ≡ some i
    → Counts now (tick_issued now o s) i
unfolding tick_issued seconds_left
tick_issued-Counts now none s i h e = absurd (cc (sym e ∙ h))
tick_issued-Counts now (some j) s i h e = elim (Bool-cases (seconds_left j.expires_at now == 0)) [
  | inl over ↦ absurd (cc (sym (gone over) ∙ e))
  | inr left ↦
      let same : j ≡ i = some-injective (sym h ∙ sym (kept left) ∙ e) in
      subst (Counts now (tick_issued now (some j) s)) same (record {
        valid = ground arith;
        some_left = ground arith;
        not_over = ground arith;
        not_under = ground arith;
      })
]
  where
    gone : (seconds_left j.expires_at now == 0) ≡ true → (tick_issued now (some j) s).issued ≡ none
    gone over = rw over refl

    kept :
        (seconds_left j.expires_at now == 0) ≡ false
        → (tick_issued now (some j) s).issued ≡ s.issued
    kept left = rw left refl

-- Whenever it ticks, a code that is still shown afterwards has not expired, and the seconds beside
-- it are at least one and within half a second of the time that it has left.
pub tick-Counts :
    (now : ℕ) (s : LinkedAccounts) (i : Issued)
    → (tick now s).issued ≡ some i
    → Counts now (tick now s) i
unfolding tick
tick-Counts now s i e = tick_issued-Counts now s.issued s i refl e
