-- ===== src/FileManager/Laws/Order.antt =====
-- web/src/pages/ServerFiles.tsx: the order of the entries.
use mirocraft.Prelude.{
  ◌≡◌, refl, inl, inr, ℕ, suc, Bool, true, false, List, [], ◌∷◌, Text, if◌then◌else◌, Bool-cases,
  All, arith,
}
use mirocraft.Api.Types.{FileEntry}
use mirocraft.FileManager.Paths.{is_directory}
use mirocraft.FileManager.{precedes, put_in, sort_entries}

abbrev IsFile : FileEntry → Type 0
IsFile e = is_directory e ≡ false

-- Behind an entry that is no directory there is none.
abbrev pub DirectoriesFirst : List FileEntry → Type 0
DirectoriesFirst [] = Unit
DirectoriesFirst (x ∷ xs) = (IsFile x → All IsFile xs) × DirectoriesFirst xs

-- How many entries pass a test.
unfoldable pub count : (FileEntry → Bool) → List FileEntry → ℕ
count p [] = 0
count p (x ∷ xs) = let rest = count p xs in if p x then suc rest else rest

module _ (collate : Text → Text → Bool) where
  precedes-IsFile : (x y : FileEntry) → precedes collate x y ≡ true → IsFile x → IsFile y
  precedes-IsFile x y before file = ground arith

  precedes-IsFile_back : (x y : FileEntry) → precedes collate x y ≡ false → IsFile y → IsFile x
  precedes-IsFile_back x y behind file = ground arith

  put_in-All :
      (x : FileEntry) (xs : List FileEntry)
      → IsFile x
      → All IsFile xs
      → All IsFile (put_in collate x xs)
  unfolding put_in
  put_in-All x [] file files = (file, tt)
  put_in-All x (y ∷ ys) file (first, files) = elim (Bool-cases (precedes collate x y)) [
    | inl before ↦ rw before (file, (first, files))
    | inr behind ↦ rw behind (first, put_in-All x ys file files)
  ]

  put_in-DirectoriesFirst :
      (x : FileEntry) (xs : List FileEntry)
      → DirectoriesFirst xs
      → DirectoriesFirst (put_in collate x xs)
  unfolding put_in
  put_in-DirectoriesFirst x [] sorted = (λ file. tt, tt)
  put_in-DirectoriesFirst x (y ∷ ys) (first, sorted) = elim (Bool-cases (precedes collate x y)) [
    | inl before ↦ rw before (
      λ file. (precedes-IsFile x y before file, first (precedes-IsFile x y before file)),
      (first, sorted),
    )
    | inr behind ↦ rw behind (
      λ file. put_in-All x ys (precedes-IsFile_back x y behind file) (first file),
      put_in-DirectoriesFirst x ys sorted,
    )
  ]

  put_in-count :
      (p : FileEntry → Bool) (x : FileEntry) (xs : List FileEntry)
      → count p (put_in collate x xs) ≡ count p (x ∷ xs)
  unfolding put_in count
  put_in-count p x [] = refl
  put_in-count p x (y ∷ ys) = ground (arith, put_in-count p x ys)

  sort_entries-count :
      (p : FileEntry → Bool) (xs : List FileEntry) → count p (sort_entries collate xs) ≡ count p xs
  unfolding sort_entries count
  sort_entries-count p [] = refl
  sort_entries-count p (x ∷ xs) =
      ground (arith, put_in-count p x (sort_entries collate xs), sort_entries-count p xs)

  sort_entries-DirectoriesFirst : (xs : List FileEntry) → DirectoriesFirst (sort_entries collate xs)
  unfolding sort_entries
  sort_entries-DirectoriesFirst [] = tt
  sort_entries-DirectoriesFirst (x ∷ xs) =
      put_in-DirectoriesFirst x (sort_entries collate xs) (sort_entries-DirectoriesFirst xs)

  -- Each entry precedes the next one.
  abbrev pub OrderedFrom : FileEntry → List FileEntry → Type 0
  OrderedFrom x [] = Unit
  OrderedFrom x (y ∷ ys) = (precedes collate x y ≡ true) × OrderedFrom y ys

  abbrev pub Ordered : List FileEntry → Type 0
  Ordered [] = Unit
  Ordered (x ∷ xs) = OrderedFrom x xs

  -- What sorting leaves: the same entries, each as often; the directories before the rest; and each
  -- entry in its place next to its neighbours.
  pub record IsSortOf (xs ys : List FileEntry) : Type 0 where
    pub same : (p : FileEntry → Bool) → count p ys ≡ count p xs
    pub directories_first : DirectoriesFirst ys
    pub ordered : Ordered ys

  module _ (total : (a b : Text) → collate a b ≡ false → collate b a ≡ true) where
    precedes-total : (x y : FileEntry) → precedes collate x y ≡ false → precedes collate y x ≡ true
    precedes-total x y h = ground (arith, total x.name y.name)

    put_in-OrderedFrom :
        (x y : FileEntry) (ys : List FileEntry)
        → precedes collate y x ≡ true
        → OrderedFrom y ys
        → OrderedFrom y (put_in collate x ys)
    unfolding put_in
    put_in-OrderedFrom x y [] first h = (first, tt)
    put_in-OrderedFrom x y (z ∷ zs) first (h, k) = elim (Bool-cases (precedes collate x z)) [
      | inl before ↦ rw before (first, (before, k))
      | inr behind ↦ rw behind (h, put_in-OrderedFrom x z zs (precedes-total x z behind) k)
    ]

    put_in-Ordered :
        (x : FileEntry) (xs : List FileEntry) → Ordered xs → Ordered (put_in collate x xs)
    unfolding put_in
    put_in-Ordered x [] h = tt
    put_in-Ordered x (y ∷ ys) h = elim (Bool-cases (precedes collate x y)) [
      | inl before ↦ rw before (before, h)
      | inr behind ↦ rw behind (put_in-OrderedFrom x y ys (precedes-total x y behind) h)
    ]

    sort_entries-Ordered : (xs : List FileEntry) → Ordered (sort_entries collate xs)
    unfolding sort_entries
    sort_entries-Ordered [] = tt
    sort_entries-Ordered (x ∷ xs) =
        put_in-Ordered x (sort_entries collate xs) (sort_entries-Ordered xs)

    -- If the collation compares any two names one way or the other, the page shows all entries of a
    -- listing and no others, directories first, each followed by one that it precedes.
    pub sort_entries-IsSortOf : (xs : List FileEntry) → IsSortOf xs (sort_entries collate xs)
    sort_entries-IsSortOf xs = record {
      same = λ p. sort_entries-count p xs;
      directories_first = sort_entries-DirectoriesFirst xs;
      ordered = sort_entries-Ordered xs;
    }
