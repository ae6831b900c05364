-- ===== src/Dev/Mboot/Merge.antt =====
-- `pmmap_merge`: what merging keeps, and what the sublists hold.
use mathlib.Core.List.{append-nil, append_assoc}
use cs.Prelude.{
  ◌⊎◌, ℕ, ◌≤◌, ◌≡◌, refl, ◌∙◌, sym, ap, inl, inr, true, false, ◌||◌, Option, none, some, List, [],
  ◌∷◌, ◌++◌, ◌==◌, if◌then◌else◌, arith, Bool-cases, length, length-append,
}
use cs.Dev.Mboot.{
  Pmmap, overlapped, extended, merge_overlapped, Sublists, position_after, sublist_insert,
  fill_sublists, pmmap_sublist_nr, insert_at_last,
}
use cs.Dev.Mboot.Insert.{SortedFrom, in_region, covers}

in_region-extended :
    (t a : ℕ) (x y : Pmmap)
    → overlapped x y ≡ true
    → in_region t a (extended x y) ≡ (in_region t a x || in_region t a y)
unfolding in_region extended overlapped
in_region-extended t a x y e = ground arith

-- Merging neither loses nor adds an address of any memory type.
pub covers-merge_overlapped :
    (t a : ℕ) (l : List Pmmap) → covers t a (merge_overlapped l) ≡ covers t a l
unfolding covers merge_overlapped
covers-merge_overlapped t a [] = refl
covers-merge_overlapped t a (x ∷ []) = refl
covers-merge_overlapped t a (x ∷ y ∷ l) = elim (Bool-cases (overlapped x y)) [
  | inl e ↦ ground (arith, in_region-extended t a x y e, covers-merge_overlapped t a l)
  | inr e ↦ ground (arith, covers-merge_overlapped t a (y ∷ l))
]

pub merge_step :
    (x y : Pmmap) (l : List Pmmap)
    → overlapped x y ≡ true
    → merge_overlapped (x ∷ y ∷ l) ≡ extended x y ∷ merge_overlapped l
unfolding merge_overlapped
merge_step x y l e = rw (e, merge_overlapped)

pub keep_step :
    (x y : Pmmap) (l : List Pmmap)
    → overlapped x y ≡ false
    → merge_overlapped (x ∷ y ∷ l) ≡ x ∷ merge_overlapped (y ∷ l)
unfolding merge_overlapped
keep_step x y l e = rw (e, merge_overlapped)

SortedFrom-weaken : (lo lo' : ℕ) (l : List Pmmap) → lo' ≤ lo → SortedFrom lo l → SortedFrom lo' l
SortedFrom-weaken lo lo' [] h s = tt
SortedFrom-weaken lo lo' (x ∷ l) h s = (omega arith, s.1)

pub merge_overlapped-SortedFrom :
    (lo : ℕ) (l : List Pmmap) → SortedFrom lo l → SortedFrom lo (merge_overlapped l)
unfolding extended
merge_overlapped-SortedFrom lo [] s = unfold merge_overlapped in tt
merge_overlapped-SortedFrom lo (x ∷ []) s = unfold merge_overlapped in s
merge_overlapped-SortedFrom lo (x ∷ y ∷ l) s = elim (Bool-cases (overlapped x y)) [
  | inl e ↦
      rw (merge_step x y l e) (
        s.0,
        merge_overlapped-SortedFrom x.start l (SortedFrom-weaken y.start x.start l s.1.0 s.1.1),
      )
  | inr e ↦ rw (keep_step x y l e) (s.0, merge_overlapped-SortedFrom x.start (y ∷ l) s.1)
]

pub length-merge_overlapped : (l : List Pmmap) → length (merge_overlapped l) ≤ length l
unfolding merge_overlapped
length-merge_overlapped [] = omega arith
length-merge_overlapped (x ∷ []) = omega arith
length-merge_overlapped (x ∷ y ∷ l) =
    ground (arith, length-merge_overlapped l, length-merge_overlapped (y ∷ l))

-- Of three regions of one type that start in order and overlap one another, the third is left
-- beside the union of the first two, which it still overlaps.
pub merge_overlapped_misses_third :
    (x y z : Pmmap)
    → overlapped x y ≡ true
    → overlapped x z ≡ true
    → (merge_overlapped (x ∷ y ∷ z ∷ []) ≡ extended x y ∷ z ∷ [])
      × (overlapped (extended x y) z ≡ true)
unfolding merge_overlapped extended overlapped
merge_overlapped_misses_third x y z p q = ground arith

-- The regions of a type, in order.
unfoldable pub regions_of : ℕ → List Pmmap → List Pmmap
regions_of nr [] = []
regions_of nr (x ∷ l) =
    let rest = regions_of nr l in
    elim (pmmap_sublist_nr x.type) [ none ↦ rest | some k ↦ if k == nr then x ∷ rest else rest ]

abbrev pub last_position : List Pmmap → Option ℕ
last_position [] = none
last_position (x ∷ l) = some (length l)

-- Each `last_slot` is the position of the last element of its list.
abbrev pub Linked : Sublists → Type 0
Linked b = (nr : ℕ) → b.last_slot nr ≡ last_position (b.lists nr)

insert_after-last :
    (x : Pmmap) (l : List Pmmap) (e : Pmmap)
    → insert_at_last (some (length l)) e (x ∷ l) ≡ x ∷ (l ++ (e ∷ []))
unfolding insert_at_last
insert_after-last x [] e = refl
insert_after-last x (y ∷ l) e = ap (λ t. x ∷ t) (insert_after-last y l e)

insert_at-last_position :
    (l : List Pmmap) (e : Pmmap) → insert_at_last (last_position l) e l ≡ l ++ (e ∷ [])
insert_at-last_position [] e = unfold insert_at_last in refl
insert_at-last_position (x ∷ l) e = insert_after-last x l e

last_position-append :
    (l : List Pmmap) (e : Pmmap)
    → last_position (l ++ (e ∷ [])) ≡ some (position_after (last_position l))
last_position-append [] e = refl
last_position-append (x ∷ l) e = ap some (omega (arith, length-append l (e ∷ [])))

sublist_insert-lists :
    (k nr : ℕ) (x : Pmmap) (b : Sublists)
    → Linked b
    → (sublist_insert k x b).lists nr ≡ (if k == nr then b.lists nr ++ (x ∷ []) else b.lists nr)
unfolding sublist_insert
sublist_insert-lists k nr x b h = ground (arith, h k, insert_at-last_position (b.lists k) x)

sublist_insert-Linked :
    (k : ℕ) (x : Pmmap) (b : Sublists) → Linked b → Linked (sublist_insert k x b)
unfolding sublist_insert
sublist_insert-Linked k x b h nr =
    ground
      (arith, h k, h nr, insert_at-last_position (b.lists k) x, last_position-append (b.lists k) x)

-- Every region is of one of the four types.
abbrev pub AllKnown : List Pmmap → Type 0
AllKnown [] = Unit
AllKnown (x ∷ l) = ((k : ℕ) × (pmmap_sublist_nr x.type ≡ some k)) × AllKnown l

pub merge_overlapped-AllKnown : (l : List Pmmap) → AllKnown l → AllKnown (merge_overlapped l)
unfolding extended
merge_overlapped-AllKnown [] k = unfold merge_overlapped in tt
merge_overlapped-AllKnown (x ∷ []) k = unfold merge_overlapped in k
merge_overlapped-AllKnown (x ∷ y ∷ l) k = elim (Bool-cases (overlapped x y)) [
  | inl e ↦ rw (merge_step x y l e) (k.0, merge_overlapped-AllKnown l k.1.1)
  | inr e ↦ rw (keep_step x y l e) (k.0, merge_overlapped-AllKnown (y ∷ l) k.1)
]

-- The lists that step 2 leaves, from the lists before it.
pub record Filled (l : List Pmmap) (b b' : Sublists) : Type 0 where
  pub contents : (nr : ℕ) → b'.lists nr ≡ b.lists nr ++ regions_of nr l

pub fill_step :
    (x : Pmmap) (l : List Pmmap) (b : Sublists) (k : ℕ)
    → pmmap_sublist_nr x.type ≡ some k
    → fill_sublists (x ∷ l) b ≡ fill_sublists l (sublist_insert k x b)
unfolding fill_sublists
fill_step x l b k e = rw (e, fill_sublists)

regions_of_step :
    (x : Pmmap) (l : List Pmmap) (k nr : ℕ)
    → pmmap_sublist_nr x.type ≡ some k
    → regions_of nr (x ∷ l) ≡ (if k == nr then x ∷ regions_of nr l else regions_of nr l)
unfolding regions_of
regions_of_step x l k nr e = rw (e, regions_of)

Filled-cons :
    (x : Pmmap) (l : List Pmmap) (b b' : Sublists) (k : ℕ)
    → pmmap_sublist_nr x.type ≡ some k
    → Linked b
    → Filled l (sublist_insert k x b) b'
    → Filled (x ∷ l) b b'
Filled-cons x l b b' k e h f = record { contents = λ nr. go nr (Bool-cases (k == nr)) }
  where
    go :
        (nr : ℕ)
        → ((k == nr) ≡ true) ⊎ ((k == nr) ≡ false)
        → b'.lists nr ≡ b.lists nr ++ regions_of nr (x ∷ l)
    go nr (inl q) =
        f.contents nr
        ∙ rw (sublist_insert-lists k nr x b h, regions_of_step x l k nr e, q)
            (append_assoc (b.lists nr) (x ∷ []) (regions_of nr l))
    go nr (inr q) =
        f.contents nr ∙ rw (sublist_insert-lists k nr x b h, regions_of_step x l k nr e, q) refl

-- Step 2 succeeds on known types, and appends each region to the list of its type.
pub fill_sublists-Filled :
    (l : List Pmmap) (b : Sublists)
    → Linked b
    → AllKnown l
    → (b' : Sublists) × (fill_sublists l b ≡ some b') × Filled l b b'
fill_sublists-Filled [] b h k = (
  b,
  unfold fill_sublists in refl,
  record { contents = λ nr. unfold regions_of in sym (append-nil (b.lists nr)) },
)
fill_sublists-Filled (x ∷ l) b h ((nr, e), k) =
    let (b', runs, f) =
      fill_sublists-Filled l (sublist_insert nr x b) (sublist_insert-Linked nr x b h) k in
    (b', fill_step x l b nr e ∙ runs, Filled-cons x l b b' nr e h f)
