-- ===== src/Dev/Mboot/Finish.antt =====
-- `pmmap_finish`: merging, the sublists and the count.
use cs.Prelude.{
  ℕ, ◌+◌, ◌-◌, ◌/◌, ◌%◌, ◌≡◌, ◌∙◌, sym, inl, inr, none, some, List, [], ◌∷◌, arith, length,
  Option-cases, ◌≢◌,
}
use cs.Dev.Mboot.{
  Pmmap, PmmapState, merge_overlapped, pmmap_merge, pmmap_finish, Sublists, fill_sublists,
  pmmap_sublist_nr, pagesize, sublist_insert, usable_end,
}
use cs.Dev.Mboot.Insert.{SortedFrom, covers}
use cs.Dev.Mboot.Merge.{
  covers-merge_overlapped, merge_overlapped-SortedFrom, merge_overlapped-AllKnown, AllKnown,
  regions_of, Filled, fill_sublists-Filled, fill_step, Linked,
}

fill_unknown :
    (x : Pmmap) (l : List Pmmap) (b : Sublists)
    → pmmap_sublist_nr x.type ≡ none
    → fill_sublists (x ∷ l) b ≡ none
unfolding fill_sublists
fill_unknown x l b e = rw (e, fill_sublists)

-- Step 2 fails at the first unknown type.
fill_sublists-AllKnown :
    (l : List Pmmap) (b b' : Sublists) → fill_sublists l b ≡ some b' → AllKnown l
fill_sublists-AllKnown [] b b' e = tt
fill_sublists-AllKnown (x ∷ l) b b' e = elim (Option-cases (pmmap_sublist_nr x.type)) [
  | inl u ↦ absurd (cc (fill_unknown x l b u))
  | inr (k, u) ↦
      ((k, u), fill_sublists-AllKnown l (sublist_insert k x b) b' (sym (fill_step x l b k u) ∙ e))
]

-- The sublists before step 2.
abbrev before : PmmapState → Sublists
before s = record { lists = s.pmmap_sublist; last_slot = λ i. none; last_usable = none }

abbrev finished : PmmapState → Sublists → PmmapState
finished s b =
    let top = usable_end s.max_usable_memory b.last_usable in
    record s {
      pmmap_list = merge_overlapped s.pmmap_list;
      pmmap_sublist = b.lists;
      max_usable_memory = top;
      pmmap_nentries = s.pmmap_nentries + length (merge_overlapped s.pmmap_list);
      mem_npages = (top - top % pagesize) / pagesize;
    }

pub pmmap_finish-some :
    (s : PmmapState) (b : Sublists)
    → fill_sublists (merge_overlapped s.pmmap_list) (before s) ≡ some b
    → pmmap_finish s ≡ some (finished s b)
unfolding pmmap_finish pmmap_merge
pmmap_finish-some s b e = rw (e, pmmap_merge, pmmap_finish)

pmmap_finish-none :
    (s : PmmapState)
    → fill_sublists (merge_overlapped s.pmmap_list) (before s) ≡ none
    → pmmap_finish s ≡ none
unfolding pmmap_finish pmmap_merge
pmmap_finish-none s e = rw (e, pmmap_merge, pmmap_finish)

-- What holds of the state while the entries are copied.
pub record Copying (s : PmmapState) : Type 0 where
  pub sorted : SortedFrom 0 s.pmmap_list
  pub no_sublists : (nr : ℕ) → s.pmmap_sublist nr ≡ []
  pub no_entries : s.pmmap_nentries ≡ 0

-- What `pmmap_finish` makes of a copied map.
pub record IsMap (s' : PmmapState) : Type 0 where
  pub sorted : SortedFrom 0 s'.pmmap_list
  pub counted : s'.pmmap_nentries ≡ length s'.pmmap_list
  pub sublists : (nr : ℕ) → s'.pmmap_sublist nr ≡ regions_of nr s'.pmmap_list

before-Linked : (s : PmmapState) → Copying s → Linked (before s)
before-Linked s c nr = rw (c.no_sublists nr)

finished-IsMap :
    (s : PmmapState) (b : Sublists)
    → Copying s
    → Filled (merge_overlapped s.pmmap_list) (before s) b
    → IsMap (finished s b)
finished-IsMap s b c f = record {
  sorted = merge_overlapped-SortedFrom 0 s.pmmap_list c.sorted;
  counted = omega (arith, c.no_entries);
  sublists = λ nr. f.contents nr ∙ rw (c.no_sublists nr);
}

pub pmmap_finish-IsMap :
    (s s' : PmmapState)
    → Copying s
    → pmmap_finish s ≡ some s'
    → IsMap s' × ((t a : ℕ) → covers t a s'.pmmap_list ≡ covers t a s.pmmap_list)
pmmap_finish-IsMap s s' c e =
    elim (Option-cases (fill_sublists (merge_overlapped s.pmmap_list) (before s))) [
      | inl n ↦ absurd (cc (pmmap_finish-none s n))
      | inr (b, y) ↦
          let known = fill_sublists-AllKnown (merge_overlapped s.pmmap_list) (before s) b y in
          let (b', y', f) =
            fill_sublists-Filled (merge_overlapped s.pmmap_list) (before s) (before-Linked s c)
              known in
          let same : s' ≡ finished s b' = cc (pmmap_finish-some s b' y') in
          rw same (finished-IsMap s b' c f, λ t a. covers-merge_overlapped t a s.pmmap_list)
    ]

-- On known types the map is built.
pub pmmap_finish_succeeds :
    (s : PmmapState) → Copying s → AllKnown s.pmmap_list → pmmap_finish s ≢ none
pmmap_finish_succeeds s c k e =
    let (b, y, f) =
      fill_sublists-Filled (merge_overlapped s.pmmap_list) (before s) (before-Linked s c)
        (merge_overlapped-AllKnown s.pmmap_list k) in
    cc (pmmap_finish-some s b y)

-- The list after `pmmap_finish` is the merged one.
pub list-pmmap_finish :
    (s s' : PmmapState) → pmmap_finish s ≡ some s' → s'.pmmap_list ≡ merge_overlapped s.pmmap_list
list-pmmap_finish s s' e =
    elim (Option-cases (fill_sublists (merge_overlapped s.pmmap_list) (before s))) [
      | inl n ↦ absurd (cc (pmmap_finish-none s n))
      | inr (b, y) ↦ let same : s' ≡ finished s b = cc (pmmap_finish-some s b y) in rw same
    ]
