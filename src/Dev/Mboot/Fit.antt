-- ===== src/Dev/Mboot/Fit.antt =====
-- The regions of the map stay below 4G, and none ends before it starts.
use cs.Prelude.{
  ℕ, zero, suc, ◌+◌, ◌≤◌, ◌<◌, ◌≡◌, ◌∙◌, sym, inl, inr, some, List, [], ◌∷◌, ltb, arith, Bool-cases,
  Option-cases,
}
use cs.Dev.Mboot.{
  Pmmap, MbootMmap, PmmapState, pmmap_zero, region_end, overlapped, extended, merge_overlapped,
  pmmap_finish, pmmap_init, max,
}
use cs.Dev.Mboot.Insert.{ordered_insert}
use cs.Dev.Mboot.Init.{region, entry_count, copy_all}
use cs.Dev.Mboot.Merge.{merge_step, keep_step}
use cs.Dev.Mboot.Finish.{list-pmmap_finish}
use cs.Dev.Mboot.Map.{
  skipped, inserted, full, with_region, copy_entry-Copied, copy_all_step, copy_all_full,
  copy_all-zero, pmmap_init_lem,
}

abbrev pub Fits : Pmmap → Type 0
Fits x = (x.start ≤ x.end) × (x.end < 0x1_0000_0000)

-- Every region ends at or after its start, below 4G.
abbrev pub RegionsFit : List Pmmap → Type 0
RegionsFit [] = Unit
RegionsFit (x ∷ l) = Fits x × RegionsFit l

-- The entries' start addresses are 32-bit words.
abbrev pub EntriesFit : (ℕ → MbootMmap) → Type 0
EntriesFit mmap = (i : ℕ) → (mmap i).base_addr_low < 0x1_0000_0000

region-Fits : (p : MbootMmap) → p.base_addr_low < 0x1_0000_0000 → Fits (region p)
unfolding region_end
region-Fits p h = ground arith

ordered_insert-RegionsFit :
    (x : Pmmap) (l : List Pmmap) → Fits x → RegionsFit l → RegionsFit (ordered_insert x l)
unfolding ordered_insert
ordered_insert-RegionsFit x [] f h = (f, tt)
ordered_insert-RegionsFit x (y ∷ l) f h = elim (Bool-cases (ltb x.start y.start)) [
  | inl e ↦ rw e (f, h)
  | inr e ↦ rw e (h.0, ordered_insert-RegionsFit x l f h.1)
]

extended-Fits : (x y : Pmmap) → Fits x → Fits y → Fits (extended x y)
unfolding extended max
extended-Fits x y f g = ground arith

merge_overlapped-RegionsFit : (l : List Pmmap) → RegionsFit l → RegionsFit (merge_overlapped l)
merge_overlapped-RegionsFit [] h = unfold merge_overlapped in tt
merge_overlapped-RegionsFit (x ∷ []) h = unfold merge_overlapped in h
merge_overlapped-RegionsFit (x ∷ y ∷ l) h = elim (Bool-cases (overlapped x y)) [
  | inl e ↦
      rw (merge_step x y l e) (extended-Fits x y h.0 h.1.0, merge_overlapped-RegionsFit l h.1.1)
  | inr e ↦ rw (keep_step x y l e) (h.0, merge_overlapped-RegionsFit (y ∷ l) h.1)
]

copy_all-RegionsFit :
    (n : ℕ) (mmap : ℕ → MbootMmap) (i : ℕ) (s s' : PmmapState)
    → EntriesFit mmap
    → RegionsFit s.pmmap_list
    → copy_all n mmap i s ≡ some s'
    → RegionsFit s'.pmmap_list
copy_all-RegionsFit zero mmap i s s' f h e =
    let same : s' ≡ s = cc (copy_all-zero mmap i s) in rw same h
copy_all-RegionsFit (suc n) mmap i s s' f h e = elim (copy_entry-Copied (mmap i) s) [
  | skipped p q ↦
      copy_all-RegionsFit n mmap (i + 1) s s' f h (sym (copy_all_step n mmap i s s q) ∙ e)
  | inserted p q ↦
      let x = region (mmap i) in
      copy_all-RegionsFit n mmap (i + 1) (with_region x s) s' f
        (ordered_insert-RegionsFit x s.pmmap_list (region-Fits (mmap i) (f i)) h)
        (sym (copy_all_step n mmap i s (with_region x s) q) ∙ e)
  | full p q ↦ absurd (cc (copy_all_full n mmap i s q))
]

pub pmmap_init-RegionsFit :
    (mmap : ℕ → MbootMmap) (len : ℕ) (s : PmmapState)
    → EntriesFit mmap
    → len + 24 ≤ 0x1_0000_0000
    → pmmap_init mmap len pmmap_zero ≡ some (some s)
    → RegionsFit s.pmmap_list
pmmap_init-RegionsFit mmap len s f h e =
    elim (Option-cases (copy_all (entry_count len) mmap 0 pmmap_zero)) [
      | inl n ↦ absurd (cc (pmmap_init_lem mmap len h))
      | inr (s₁, y) ↦
          let finish : pmmap_finish s₁ ≡ some s = cc (pmmap_init_lem mmap len h) in
          rw (list-pmmap_finish s₁ s finish) (
            merge_overlapped-RegionsFit s₁.pmmap_list
              (copy_all-RegionsFit (entry_count len) mmap 0 pmmap_zero s₁ f tt y))
    ]
