-- ===== src/Dev/Mboot/Map.antt =====
-- The physical memory map after `pmmap_init`.
use cs.Prelude.{
  ℕ, zero, suc, ◌+◌, ◌/◌, ◌≤◌, ◌≡◌, refl, ◌∙◌, sym, inl, inr, Bool, true, false, ◌||◌, Option, none,
  some, List, [], ◌∷◌, ltb, ◌==◌, arith, Bool-cases, Option-cases, ◌≢◌, ◌<◌,
}
use cs.Dev.Mboot.{
  Pmmap, MbootMmap, PmmapState, pmmap_zero, pmmap_insert, copy_entry, pmmap_finish, pmmap_init,
  pmmap_sublist_nr,
}
use cs.Dev.Mboot.Insert.{
  ordered_insert, insert_at_last-ordered, ordered_insert-SortedFrom, covers, covers-ordered_insert,
}
use cs.Dev.Mboot.Merge.{AllKnown}
use cs.Dev.Mboot.Finish.{Copying, IsMap, pmmap_finish-IsMap, pmmap_finish_succeeds}
use cs.Dev.Mboot.Init.{
  region, entry_covers, entries_cover, entry_count, copy_all, copy_entries-copy_all,
}

-- The state with one more region.
abbrev pub with_region : Pmmap → PmmapState → PmmapState
with_region x s = record s {
  pmmap_slots_next_free = s.pmmap_slots_next_free + 1;
  pmmap_list = ordered_insert x s.pmmap_list;
}

pmmap_insert-ordered :
    (x : Pmmap) (s : PmmapState)
    → s.pmmap_slots_next_free ≢ 128
    → pmmap_insert x.start x.end x.type s ≡ some (with_region x s)
unfolding pmmap_insert
pmmap_insert-ordered x s h = ground (arith, insert_at_last-ordered x s.pmmap_list)

-- What a round of the copying loop may do to the state.
pub data Copied (p : MbootMmap) (s : PmmapState) : Type 0 where
  skipped : (p.base_addr_high == 0) ≡ false → copy_entry p s ≡ some s → Copied p s
  inserted :
      (p.base_addr_high == 0) ≡ true → copy_entry p s ≡ some (with_region (region p) s) → Copied p s
  full : s.pmmap_slots_next_free ≡ 128 → copy_entry p s ≡ none → Copied p s

pub copy_entry-Copied : (p : MbootMmap) (s : PmmapState) → Copied p s
copy_entry-Copied p s = go (p.base_addr_high == 0) (s.pmmap_slots_next_free == 128) refl refl
  where
    go :
        (b c : Bool)
        → (p.base_addr_high == 0) ≡ b
        → (s.pmmap_slots_next_free == 128) ≡ c
        → Copied p s
    go false c e f = skipped e (unfold copy_entry in rw e)
    go true true e f = full (ground arith) (unfold copy_entry pmmap_insert in ground arith)
    go true false e f =
        inserted e (unfold copy_entry in rw e (pmmap_insert-ordered (region p) s (ground arith)))

-- What copying `n` entries from the `i`-th on gives.
record Copies (n : ℕ) (mmap : ℕ → MbootMmap) (i : ℕ) (s s' : PmmapState) : Type 0 where
  copying : Copying s'
  coverage :
      (t a : ℕ) → covers t a s'.pmmap_list ≡ (entries_cover t a mmap i n || covers t a s.pmmap_list)

with_region-Copying : (x : Pmmap) (s : PmmapState) → Copying s → Copying (with_region x s)
with_region-Copying x s c = record {
  sorted = ordered_insert-SortedFrom 0 x s.pmmap_list (omega arith) c.sorted;
  no_sublists = c.no_sublists;
  no_entries = c.no_entries;
}

pub copy_all_step :
    (n : ℕ) (mmap : ℕ → MbootMmap) (i : ℕ) (s s' : PmmapState)
    → copy_entry (mmap i) s ≡ some s'
    → copy_all (suc n) mmap i s ≡ copy_all n mmap (i + 1) s'
unfolding copy_all
copy_all_step n mmap i s s' c = rw (c, copy_all)

pub copy_all_full :
    (n : ℕ) (mmap : ℕ → MbootMmap) (i : ℕ) (s : PmmapState)
    → copy_entry (mmap i) s ≡ none
    → copy_all (suc n) mmap i s ≡ none
unfolding copy_all
copy_all_full n mmap i s c = rw (c, copy_all)

pub copy_all-zero :
    (mmap : ℕ → MbootMmap) (i : ℕ) (s : PmmapState) → copy_all zero mmap i s ≡ some s
unfolding copy_all
copy_all-zero mmap i s = refl

-- One round, and then the others.
Copies-suc :
    (n : ℕ) (mmap : ℕ → MbootMmap) (i : ℕ) (s s' : PmmapState)
    → Copying s
    → ((s₁ : PmmapState)
        → Copying s₁
        → copy_all n mmap (i + 1) s₁ ≡ some s'
        → Copies n mmap (i + 1) s₁ s')
    → copy_all (suc n) mmap i s ≡ some s'
    → Copied (mmap i) s
    → Copies (suc n) mmap i s s'
unfolding entries_cover entry_covers
Copies-suc n mmap i s s' c rest e (skipped h q) =
    let r = rest s c (sym (copy_all_step n mmap i s s q) ∙ e) in
    record { copying = r.copying; coverage = λ t a. ground (arith, r.coverage t a) }
Copies-suc n mmap i s s' c rest e (inserted h q) =
    let x = region (mmap i) in
    let r =
      rest (with_region x s) (with_region-Copying x s c)
        (sym (copy_all_step n mmap i s (with_region x s) q) ∙ e) in
    record {
      copying = r.copying;
      coverage = λ t a. ground (arith, r.coverage t a, covers-ordered_insert t a x s.pmmap_list);
    }
Copies-suc n mmap i s s' c rest e (full h q) = absurd (cc (copy_all_full n mmap i s q))

copy_all-Copies :
    (n : ℕ) (mmap : ℕ → MbootMmap) (i : ℕ) (s s' : PmmapState)
    → Copying s
    → copy_all n mmap i s ≡ some s'
    → Copies n mmap i s s'
copy_all-Copies zero mmap i s s' c e =
    let same : s ≡ s' = cc (copy_all-zero mmap i s) in
    rw (← same) (record { copying = c; coverage = λ t a. unfold entries_cover in refl })
copy_all-Copies (suc n) mmap i s s' c e =
    Copies-suc n mmap i s s' c (λ s₁ c₁ e₁. copy_all-Copies n mmap (i + 1) s₁ s' c₁ e₁) e
      (copy_entry-Copied (mmap i) s)

abbrev finish_copy : Option PmmapState → Option (Option PmmapState)
finish_copy none = some none
finish_copy (some s) = some (pmmap_finish s)

-- `pmmap_init` with the loop replaced by the copying of all entries.
pub pmmap_init_lem :
    (mmap : ℕ → MbootMmap) (len : ℕ)
    → len + 24 ≤ 0x1_0000_0000
    → pmmap_init mmap len pmmap_zero
      ≡ some (elim (copy_all (entry_count len) mmap 0 pmmap_zero) [
        | none ↦ none
        | some s ↦ pmmap_finish s
      ])
unfolding pmmap_init
pmmap_init_lem mmap len h =
    rw
      (
        copy_entries-copy_all (entry_count len) (len / 24 + 2) mmap len 0 pmmap_zero h (omega arith)
            (omega arith),
        pmmap_init,
      )
      (go (copy_all (entry_count len) mmap 0 pmmap_zero))
  where
    go :
        (o : Option PmmapState)
        → finish_copy o ≡ some (elim o [ none ↦ none | some s ↦ pmmap_finish s ])
    go none = refl
    go (some s) = refl

zero-Copying : Copying pmmap_zero
zero-Copying = record { sorted = tt; no_sublists = λ nr. refl; no_entries = refl }

-- With a memory map shorter than 4G less one entry, whatever map `pmmap_init` builds at boot is
-- sorted by start, is counted right, keeps in each sublist the regions of its type in order, and
-- covers an address with a memory type exactly when an entry of the boot loader below 4G does.
pub pmmap_init-IsMap :
    (mmap : ℕ → MbootMmap) (len : ℕ) (s : PmmapState)
    → len + 24 ≤ 0x1_0000_0000
    → pmmap_init mmap len pmmap_zero ≡ some (some s)
    → IsMap s × ((t a : ℕ) → covers t a s.pmmap_list ≡ entries_cover t a mmap 0 (entry_count len))
pmmap_init-IsMap mmap len s h e =
    elim (Option-cases (copy_all (entry_count len) mmap 0 pmmap_zero)) [
      | inl n ↦ absurd (cc (pmmap_init_lem mmap len h))
      | inr (s₁, y) ↦
          let c = copy_all-Copies (entry_count len) mmap 0 pmmap_zero s₁ zero-Copying y in
          let (m, cov) = pmmap_finish-IsMap s₁ s c.copying (cc (pmmap_init_lem mmap len h)) in
          (m, λ t a. cov t a ∙ c.coverage t a ∙ unfold covers in ground arith)
    ]

-- The first `last` entries are each of one of the four types.
abbrev pub EntriesKnown : ℕ → (ℕ → MbootMmap) → Type 0
EntriesKnown last mmap = (i : ℕ) → i < last → (k : ℕ) × (pmmap_sublist_nr (mmap i).type ≡ some k)

ordered_insert-AllKnown :
    (x : Pmmap) (l : List Pmmap)
    → (k : ℕ) × (pmmap_sublist_nr x.type ≡ some k)
    → AllKnown l
    → AllKnown (ordered_insert x l)
unfolding ordered_insert
ordered_insert-AllKnown x [] k h = (k, tt)
ordered_insert-AllKnown x (y ∷ l) k h = elim (Bool-cases (ltb x.start y.start)) [
  | inl e ↦ rw e (k, h)
  | inr e ↦ rw e (h.0, ordered_insert-AllKnown x l k h.1)
]

-- Up to the 128 slots copying goes through.
abbrev CopiedAll : (n : ℕ) (mmap : ℕ → MbootMmap) (i : ℕ) (s : PmmapState) → Type 0
CopiedAll n mmap i s = (s' : PmmapState) × (copy_all n mmap i s ≡ some s') × AllKnown s'.pmmap_list

copy_all_total :
    (last n : ℕ) (mmap : ℕ → MbootMmap) (i : ℕ) (s : PmmapState)
    → EntriesKnown last mmap
    → i + n ≤ last
    → s.pmmap_slots_next_free + n ≤ 128
    → AllKnown s.pmmap_list
    → CopiedAll n mmap i s
copy_all_total last zero mmap i s known below h k = (s, copy_all-zero mmap i s, k)
copy_all_total last (suc n) mmap i s known below h k = elim (copy_entry-Copied (mmap i) s) [
  | skipped p q ↦
      rw (copy_all_step n mmap i s s q)
        (copy_all_total last n mmap (i + 1) s known (omega arith) (omega arith) k)
  | inserted p q ↦
      let x = region (mmap i) in
      rw (copy_all_step n mmap i s (with_region x s) q) (
        copy_all_total last n mmap (i + 1) (with_region x s) known (omega arith) (omega arith)
          (ordered_insert-AllKnown x s.pmmap_list (known i (omega arith)) k))
  | full p q ↦ absurd (omega arith)
]

-- With at most 128 entries, all of known types, `pmmap_init` neither panics nor loops.
pub pmmap_init_succeeds :
    (mmap : ℕ → MbootMmap) (len : ℕ)
    → EntriesKnown (entry_count len) mmap
    → len ≤ 3072
    → (s : PmmapState) × (pmmap_init mmap len pmmap_zero ≡ some (some s))
pmmap_init_succeeds mmap len known h =
    let (s₁, y, k) =
      copy_all_total (entry_count len) (entry_count len) mmap 0 pmmap_zero known (omega arith)
        (omega arith) tt in
    let c = copy_all-Copies (entry_count len) mmap 0 pmmap_zero s₁ zero-Copying y in
    elim (Option-cases (pmmap_finish s₁)) [
      | inl n ↦ absurd (pmmap_finish_succeeds s₁ c.copying k n)
      | inr (s, f) ↦ (s, cc (pmmap_init_lem mmap len (omega arith), f))
    ]
