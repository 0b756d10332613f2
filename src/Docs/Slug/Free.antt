-- ===== src/Docs/Slug/Free.antt =====
-- web/scripts/docs-site.mjs: the loop that numbers a heading, and the ids of a page.
use mirocraft.Prelude.{
  ℕ, zero, suc, ◌≤◌, ◌<◌, ◌≡◌, refl, sym, ◌∙◌, ap, inl, inr, true, false, List, [], ◌∷◌, some,
  length, ◌===◌, ===_iff, ===_ne, ◌⊎◌, if◌then◌else◌, Text, decimal, drop, drop-length-append,
  Bool-cases, arith,
}
use mirocraft.Docs.Slug.{contains, numbered, free_from, free_id, slug, slug_base, page_ids}
use mirocraft.Docs.Slug.Decimal.{decimal-injective}

tail_of : Text → Text
tail_of [] = []
tail_of (c ∷ s) = s

numbered-injective : (base : Text) (m n : ℕ) → numbered base m ≡ numbered base n → m ≡ n
unfolding tail_of
numbered-injective base m n e = decimal-injective m n (
    ap tail_of (
      sym (drop-length-append base (b'-' ∷ decimal m))
      ∙ ap (drop (length base)) e
      ∙ drop-length-append base (b'-' ∷ decimal n)))

without : Text → List Text → List Text
without id [] = []
without id (x ∷ xs) = let rest = without id xs in if x === id then rest else x ∷ rest

contains-without :
    (id x : Text) (xs : List Text)
    → contains (without id xs) x ≡ (if id === x then false else contains xs x)
unfolding without
contains-without id x [] = ground arith
contains-without id x (y ∷ ys) =
    ground (arith, ===_iff y id, ===_iff id x, ===_iff y x, contains-without id x ys)

length-without-le : (id : Text) (xs : List Text) → length (without id xs) ≤ length xs
unfolding without
length-without-le id [] = omega arith
length-without-le id (x ∷ xs) = ground (arith, length-without-le id xs)

length-without :
    (id : Text) (xs : List Text) → contains xs id ≡ true → length (without id xs) < length xs
unfolding without
length-without id [] h = cc
length-without id (x ∷ xs) h = ground (arith, length-without-le id xs, length-without id xs)

-- What the numbering finds: a free id that is the base with a number.
record IsFree (base : Text) (seen : List Text) (id : Text) : Type 0 where
  number : ℕ
  named : id ≡ numbered base number
  free : contains seen id ≡ false

-- `ids` is what is left of `seen` once the numbers below `n` are used up.
free_from-IsFree :
    (fuel : ℕ) (base : Text) (n : ℕ) (seen ids : List Text)
    → ((m : ℕ) → n ≤ m → contains seen (numbered base m) ≡ contains ids (numbered base m))
    → length ids < fuel
    → (id : Text) × (free_from fuel base n seen ≡ some id) × IsFree base seen id
unfolding free_from
free_from-IsFree zero base n seen ids same h = absurd (omega arith)
free_from-IsFree (suc fuel) base n seen ids same h =
    elim (Bool-cases (contains seen (numbered base n))) [
      | inl taken ↦ rw taken (
          free_from-IsFree fuel base (suc n) seen (without (numbered base n) ids)
            (λ m le.
              let other =
                ===_ne (numbered base n) (numbered base m)
                  (λ e. absurd (omega (arith, numbered-injective base n m e))) in
              same m (omega arith)
              ∙ sym (contains-without (numbered base n) (numbered base m) ids ∙ rw other))
            (omega
              (arith, length-without (numbered base n) ids (sym (same n (omega arith)) ∙ taken))))
      | inr free ↦ (numbered base n, rw free, record { number = n; named = refl; free = free })
    ]

-- The id of a heading: the base itself, or the base with a number, and no id that was given before.
pub record IsNewId (base : Text) (seen : List Text) (id : Text) : Type 0 where
  pub named : (id ≡ base) ⊎ ((n : ℕ) × (id ≡ numbered base n))
  pub free : contains seen id ≡ false

free_id-IsNewId :
    (base : Text) (seen : List Text)
    → (id : Text) × (free_id base seen ≡ some id) × IsNewId base seen id
unfolding free_id
free_id-IsNewId base seen = elim (Bool-cases (contains seen base)) [
  | inl taken ↦
      let (id, found, new) =
        free_from-IsFree (suc (length seen)) base 2 seen seen (λ m le. refl) (omega arith) in
      rw taken (id, found, record { named = inr (new.number, new.named); free = new.free })
  | inr free ↦ rw free (base, refl, record { named = inl refl; free = free })
]

-- For every heading and every set of ids `slug` ends, with the base of the heading or the base and
-- a number, which was not in the set, and adds it to the set.
pub slug-IsNewId :
    (text : Text) (seen : List Text)
    → (id : Text) × (slug text seen ≡ some (id, id ∷ seen)) × IsNewId (slug_base text) seen id
unfolding slug
slug-IsNewId text seen =
    let (id, found, new) = free_id-IsNewId (slug_base text) seen in (id, rw found, new)

-- No two of the ids are equal, and none is in the set.
abbrev pub AllNew : List Text → List Text → Type 0
AllNew seen [] = Unit
AllNew seen (id ∷ ids) = (contains seen id ≡ false) × AllNew (id ∷ seen) ids

-- Every page gets its ids, one for each heading; no two of them are equal, and none was in the set
-- before.
pub page_ids-AllNew :
    (texts seen : List Text)
    → (ids : List Text) × (after : List Text) × (page_ids texts seen ≡ some (ids, after))
      × (length ids ≡ length texts)
      × AllNew seen ids
unfolding page_ids
page_ids-AllNew [] seen = ([], seen, refl, refl, tt)
page_ids-AllNew (text ∷ texts) seen =
    let (id, found, new) = slug-IsNewId text seen in
    let (ids, after, rest, long, all_new) = page_ids-AllNew texts (id ∷ seen) in
    (id ∷ ids, after, rw (found, page_ids, rest), ap suc long, (new.free, all_new))
