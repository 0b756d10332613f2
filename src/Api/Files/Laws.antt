-- ===== src/Api/Files/Laws.antt =====
-- The name that `downloadFile` of web/src/lib/api.ts gives to what it saves.
use mirocraft.Prelude.{
  inl, inr, some, refl, split_of_Lacks, ℕ, ◌≡◌, ◌≢◌, refl, [], ◌∷◌, ◌++◌, List, Text, codes, split,
  last?, All, Lacks, arith, cons_head, Bool-cases, ◌==◌, get_or_else,
}
use mirocraft.Api.Files.{download_name}

cons_head-Lacks :
    (d c : ℕ) (parts : List Text) → c ≢ d → All (Lacks d) parts → All (Lacks d) (cons_head c parts)
cons_head-Lacks d c [] ne h = ((ne, tt), tt)
cons_head-Lacks d c (t ∷ ts) ne (h, k) = ((ne, h), k)

split-Lacks : (d : ℕ) (s : Text) → All (Lacks d) (split d s)
unfolding split
split-Lacks d [] = (tt, tt)
split-Lacks d (c ∷ s) = elim (Bool-cases (c == d)) [
  | inl same ↦ rw same (tt, split-Lacks d s)
  | inr other ↦ rw other (cons_head-Lacks d c (split d s) (ground arith) (split-Lacks d s))
]

last?-All {ℓ κ} :
    {A : Type ℓ} (P : A → Type κ) (xs : List A) (d : A)
    → All P xs
    → P d
    → P (get_or_else (last? xs) d)
unfolding last?
last?-All P [] d h p = p
last?-All P (x ∷ []) d h p = h.0
last?-All P (x ∷ y ∷ xs) d h p = last?-All P (y ∷ xs) d h.1 p

-- The name to save a download under holds no slash, whatever the path.
pub download_name-Lacks : (path : Text) → Lacks b'/' (download_name path)
unfolding download_name codes
download_name-Lacks path =
    last?-All (Lacks b'/') (split b'/' path) (codes "file") (split-Lacks b'/' path) (omega arith)

last?-append : (ps : List Text) (p name : Text) → last? (p ∷ ps ++ name ∷ []) ≡ some name
unfolding last?
last?-append [] p name = refl
last?-append (q ∷ ps) p name = last?-append ps q name

-- A part without the separator comes out last, behind at least one other.
split_last :
    (d : ℕ) (dir name : Text)
    → Lacks d name
    → (p : Text) × (ps : List Text) × (split d (dir ++ d ∷ name) ≡ p ∷ ps ++ name ∷ [])
unfolding split
split_last d [] name h = ([], [], ground (arith, split_of_Lacks d name h))
split_last d (c ∷ dir) name h =
    let (p, ps, e) = split_last d dir name h in
    elim (Bool-cases (c == d)) [
      | inl same ↦ ([], p ∷ ps, rw (same, e))
      | inr other ↦ (c ∷ p, ps, rw (other, e))
    ]

-- The name to save a download under is the file's own name, if that holds no slash, for a file in
-- any directory.
pub download_name-append :
    (dir name : Text) → Lacks b'/' name → download_name (dir ++ b'/' ∷ name) ≡ name
unfolding download_name
download_name-append dir name h =
    let (p, ps, e) = split_last b'/' dir name h in rw (e, last?-append ps p name)
