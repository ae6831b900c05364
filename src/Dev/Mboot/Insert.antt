-- ===== src/Dev/Mboot/Insert.antt =====
-- `pmmap_insert` against insertion into an ordered list, and what a list of regions covers.
use cs.Prelude.{
  ℕ, zero, suc, ◌+◌, ◌≤◌, ◌≡◌, refl, ◌∙◌, ap, inl, inr, Bool, false, ◌&&◌, ◌||◌, Option, none, some,
  List, [], ◌∷◌, ltb, leb, ◌==◌, if◌then◌else◌, arith, Bool-cases,
}
use native.Mathlib.Nat.{zero-add}
use cs.Dev.Mboot.{Pmmap, find_last_slot, insert_at_last}

-- Insertion before the first region that starts later.
unfoldable pub ordered_insert : Pmmap → List Pmmap → List Pmmap
ordered_insert new [] = new ∷ []
ordered_insert new (slot ∷ rest) =
    if ltb new.start slot.start then new ∷ slot ∷ rest else slot ∷ ordered_insert new rest

-- How many slots the loop passes.
passed : ℕ → List Pmmap → ℕ
passed start [] = 0
passed start (slot ∷ rest) = if ltb start slot.start then 0 else suc (passed start rest)

abbrev last_of : Option ℕ → ℕ → ℕ → Option ℕ
last_of last_slot i zero = last_slot
last_of last_slot i (suc k) = some (i + k)

find_last_slot-passed :
    (start i : ℕ) (last_slot : Option ℕ) (l : List Pmmap)
    → find_last_slot start i last_slot l ≡ last_of last_slot i (passed start l)
unfolding find_last_slot passed
find_last_slot-passed start i last_slot [] = refl
find_last_slot-passed start i last_slot (slot ∷ rest) = elim (Bool-cases (ltb start slot.start)) [
  | inl e ↦ rw e refl
  | inr e ↦ rw e (find_last_slot-passed start (i + 1) (some i) rest ∙ shift (passed start rest))
]
  where
    shift : (k : ℕ) → last_of (some i) (i + 1) k ≡ some (i + k)
    shift zero = ground arith
    shift (suc k) = ground arith

insert_after_passed :
    (new x : Pmmap) (l : List Pmmap)
    → insert_at_last (some (passed new.start l)) new (x ∷ l) ≡ x ∷ ordered_insert new l
unfolding passed insert_at_last ordered_insert
insert_after_passed new x [] = refl
insert_after_passed new x (y ∷ l) = elim (Bool-cases (ltb new.start y.start)) [
  | inl e ↦ rw e refl
  | inr e ↦ rw e (ap (λ t. x ∷ t) (insert_after_passed new y l))
]

-- The loop and the insertion of `pmmap_insert` together put the region before the first one that
-- starts later.
pub insert_at_last-ordered :
    (new : Pmmap) (l : List Pmmap)
    → insert_at_last (find_last_slot new.start 0 none l) new l ≡ ordered_insert new l
insert_at_last-ordered new l = rw (find_last_slot-passed new.start 0 none l) (go l)
  where
    go :
        (l : List Pmmap)
        → insert_at_last (last_of none 0 (passed new.start l)) new l ≡ ordered_insert new l
    go [] = unfold passed insert_at_last ordered_insert in refl
    go (x ∷ l) = elim (Bool-cases (ltb new.start x.start)) [
      | inl e ↦ unfold passed insert_at_last ordered_insert in rw e refl
      | inr e ↦ unfold passed ordered_insert in rw e (rw zero-add (insert_after_passed new x l))
    ]

-- The regions start in increasing order, the first at `lo` or later.
abbrev pub SortedFrom : ℕ → List Pmmap → Type 0
SortedFrom lo [] = Unit
SortedFrom lo (x ∷ l) = (lo ≤ x.start) × SortedFrom x.start l

pub ordered_insert-SortedFrom :
    (lo : ℕ) (new : Pmmap) (l : List Pmmap)
    → lo ≤ new.start
    → SortedFrom lo l
    → SortedFrom lo (ordered_insert new l)
unfolding ordered_insert
ordered_insert-SortedFrom lo new [] h s = (h, tt)
ordered_insert-SortedFrom lo new (x ∷ l) h s = elim (Bool-cases (ltb new.start x.start)) [
  | inl e ↦ rw e (h, (ground arith, s.1))
  | inr e ↦ rw e (s.0, ordered_insert-SortedFrom x.start new l (ground arith) s.1)
]

-- Whether address `a` lies in the region, and the region is of type `t`.
unfoldable pub in_region : ℕ → ℕ → Pmmap → Bool
in_region t a x = (x.type == t) && (leb x.start a && ltb a x.end)

-- Whether address `a` lies in a region of type `t`.
unfoldable pub covers : ℕ → ℕ → List Pmmap → Bool
covers t a [] = false
covers t a (x ∷ l) = in_region t a x || covers t a l

pub covers-ordered_insert :
    (t a : ℕ) (new : Pmmap) (l : List Pmmap)
    → covers t a (ordered_insert new l) ≡ (in_region t a new || covers t a l)
unfolding covers ordered_insert
covers-ordered_insert t a new [] = refl
covers-ordered_insert t a new (x ∷ l) = ground (arith, covers-ordered_insert t a new l)
