-- ===== src/Dev/Tests.antt =====
-- Runs of the drivers, and the theorems about them at an input.
use cs.Prelude.{ℕ, ◌+◌, ◌≡◌, refl, some, arith, ◌==◌, if◌then◌else◌, true, [], ◌∷◌, update}
use cs.Dev.Mboot.{
  PmmapState, Pmmap, MbootMmap, pmmap_zero, pmmap_init, pmmap_finish, pmmap_merge, copy_entries,
  copy_entry, pmmap_insert, find_last_slot, insert_at_last, region_end, merge_overlapped,
  overlapped, extended, fill_sublists, sublist_insert, pmmap_sublist_nr,
}
use cs.Dev.Mboot.Insert.{covers}
use cs.Dev.Mboot.Init.{entries_cover}
use cs.Dev.Mboot.Finish.{IsMap}
use cs.Dev.Mboot.Map.{EntriesKnown, pmmap_init-IsMap, pmmap_init_succeeds}
use cs.Dev.Mboot.Merge.{merge_overlapped_misses_third}
use cs.Dev.Mboot.Fit.{EntriesFit}

-- Low memory as the boot loader reports it: 636 KB usable, and 2 KB reserved behind it.
abbrev pub two_entries : ℕ → MbootMmap
two_entries i =
    if i == 0
    then record {
      base_addr_low = 0;
      base_addr_high = 0;
      length_low = 0x9f000;
      length_high = 0;
      type = 1;
    }
    else record {
      base_addr_low = 0x9f000;
      base_addr_high = 0;
      length_low = 0x800;
      length_high = 0;
      type = 2;
    }

pub two_entries-EntriesFit : EntriesFit two_entries
two_entries-EntriesFit i = ground arith

two_entries-EntriesKnown : EntriesKnown 2 two_entries
unfolding pmmap_sublist_nr
two_entries-EntriesKnown i p = (if i == 0 then 0 else 1, ground arith)

abbrev pub low : Pmmap
low = record { start = 0; end = 0x9f000; type = 1 }

abbrev pub reserved : Pmmap
reserved = record { start = 0x9f000; end = 0x9f800; type = 2 }

abbrev pub two_regions : PmmapState
two_regions = record {
  pmmap_slots_next_free = 2;
  pmmap_list = low ∷ reserved ∷ [];
  pmmap_sublist = update (update (λ i. []) 0 (low ∷ [])) 1 (reserved ∷ []);
  max_usable_memory = 0x9f000;
  mem_npages = 159;
  pmmap_nentries = 2;
}

pub two_entries_map : pmmap_init two_entries 48 pmmap_zero ≡ some (some two_regions)
unfolding pmmap_init pmmap_finish pmmap_merge copy_entries copy_entry pmmap_insert find_last_slot
    insert_at_last region_end merge_overlapped overlapped fill_sublists sublist_insert
    pmmap_sublist_nr
two_entries_map = refl

pmmap_init-IsMap_example :
    IsMap two_regions
    × ((t a : ℕ) → covers t a two_regions.pmmap_list ≡ entries_cover t a two_entries 0 2)
pmmap_init-IsMap_example = pmmap_init-IsMap two_entries 48 two_regions (omega arith) two_entries_map

pmmap_init_succeeds_example :
    (s : PmmapState) × (pmmap_init two_entries 48 pmmap_zero ≡ some (some s))
pmmap_init_succeeds_example =
    pmmap_init_succeeds two_entries 48 two_entries-EntriesKnown (omega arith)

-- Three usable regions in a row, each overlapping the others.
abbrev region_at : ℕ → Pmmap
region_at i = record { start = i; end = 0x1000 + i; type = 1 }

merge_overlapped_misses_third_example :
    (merge_overlapped (region_at 0 ∷ region_at 1 ∷ region_at 2 ∷ [])
      ≡ extended (region_at 0) (region_at 1) ∷ region_at 2 ∷ [])
    × (overlapped (extended (region_at 0) (region_at 1)) (region_at 2) ≡ true)
unfolding overlapped
merge_overlapped_misses_third_example =
    merge_overlapped_misses_third (region_at 0) (region_at 1) (region_at 2) refl refl
