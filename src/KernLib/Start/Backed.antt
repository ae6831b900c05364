-- ===== src/KernLib/Start/Backed.antt =====
-- Pages that come from the containers. kern/vmm leaves `alloc_page` open; this is what its comment
-- asks for, over container_alloc of kern/pmm/MContainer/MContainer.c, with the mappings kept in a
-- table for each process.
use cs.Prelude.{
  ℕ, suc, ◌+◌, ◌*◌, ◌/◌, ◌%◌, ◌<◌, ◌≤◌, ◌≡◌, ◌≢◌, ◌⊎◌, ◌∙◌, inl, inr, refl, ap, sym, subst, false,
  none, some, ◌==◌, if◌then◌else◌, update, arith, Bool-cases,
}
use cs.KernLib.Str.{Memory}
use cs.KernLib.Pmap.{Paging, vm_userlo}
use cs.KernLib.Pmap.Pages.{phys}
use cs.KernLib.Elf.View.{IsAllocator}
use cs.Pmm.MatIntro.{Mat, at_set_allocated}
use cs.Pmm.MatOp.{vm_userlo_pi}
use cs.Pmm.MatOp.Palloc.{IsFree}
use cs.Pmm.Container.{Kern, num_ids, container_alloc}
use cs.Pmm.Container.Alloc.{granted, container_alloc-succeeds}
use cs.Pmm.Container.Inv.{IsSound}

-- The entry of a page of a process.
abbrev pub Mappings : Type 0
Mappings = ℕ → ℕ → ℕ

abbrev pub map_page : ℕ → ℕ → ℕ → ℕ → Mappings → Mappings
map_page pid va page perm maps =
    update maps pid (update (maps pid) (va / 4096) (page * 4096 + perm % 4096))

-- `container_alloc` answers 0 when it has no page.
unfoldable pub give_page : ℕ → ℕ → ℕ → (Kern × Mappings) × Memory → (Kern × Mappings) × Memory
give_page pid va perm s = elim (container_alloc pid s.0.0) [
  | none ↦ s
  | some (page, kern) ↦
      if page == 0 then ((kern, s.0.1), s.1) else ((kern, map_page pid va page perm s.0.1), s.1)
]

abbrev pub backed : Paging (Kern × Mappings)
backed = record {
  get_ptbl_entry_by_va = λ pid va t. t.1 pid (va / 4096);
  alloc_page = give_page;
  entry_page = λ pid va t. ap (t.1 pid) (omega arith);
}

-- The accounts are sound, the container may take `n` more pages, and the pages that its process has
-- are allocated user pages, each mapped once.
pub record IsBacked (pid n : ℕ) (t : Kern × Mappings) : Type 0 where
  pub sound : IsSound t.0
  pub funds : (t.0.container pid).usage + n ≤ (t.0.container pid).quota
  pub taken_pages :
      (v : ℕ)
      → t.1 pid v % 2 ≡ 1
      → ((t.0.pmm.mat.at_table (t.1 pid v / 4096)).allocated ≡ 1)
        × (vm_userlo_pi ≤ t.1 pid v / 4096)
  pub once :
      (u v : ℕ)
      → t.1 pid u % 2 ≡ 1
      → t.1 pid v % 2 ≡ 1
      → t.1 pid u / 4096 ≡ t.1 pid v / 4096
      → u ≡ v

-- What a container that may take a page gives.
abbrev Given : ℕ → ℕ → ℕ → ℕ → (Kern × Mappings) × Memory → Type 0
Given pid n va perm s =
    (r : ℕ) × (give_page pid va perm s ≡ ((granted s.0.0 pid r, map_page pid va r perm s.0.1), s.1))
    × IsBacked pid n (granted s.0.0 pid r, map_page pid va r perm s.0.1)

module _ (pid : ℕ) (known : pid < num_ids) where
  map_page-here :
      (va page perm : ℕ) (maps : Mappings)
      → map_page pid va page perm maps pid (va / 4096) ≡ page * 4096 + perm % 4096
  map_page-here va page perm maps = ground arith

  map_page-other :
      (va page perm v : ℕ) (maps : Mappings)
      → v ≢ va / 4096
      → map_page pid va page perm maps pid v ≡ maps pid v
  map_page-other va page perm v maps h = ground arith

  -- The page of an entry is the new one, or the one that it had.
  entry-page_of :
      (va r perm v : ℕ) (maps : Mappings)
      → ((v ≡ va / 4096) × (map_page pid va r perm maps pid v / 4096 ≡ r))
        ⊎ ((v ≢ va / 4096) × (map_page pid va r perm maps pid v ≡ maps pid v))
  entry-page_of va r perm v maps = elim (Bool-cases (v == va / 4096)) [
    | inl here ↦
        let at : v ≡ va / 4096 = ground arith in
        let new = ap (map_page pid va r perm maps pid) at ∙ map_page-here va r perm maps in
        inl (at, omega (arith, new))
    | inr there ↦
        let away : v ≢ va / 4096 = ground arith in inr (away, map_page-other va r perm v maps away)
  ]

  marked-here :
      (r : ℕ) (m : Mat) (page : ℕ)
      → page ≡ r
      → ((at_set_allocated r 1 m).at_table page).allocated ≡ 1
  unfolding at_set_allocated
  marked-here r m page h = ground arith

  marked-still :
      (r : ℕ) (m : Mat) (page : ℕ)
      → (m.at_table page).allocated ≡ 1
      → ((at_set_allocated r 1 m).at_table page).allocated ≡ 1
  unfolding at_set_allocated
  marked-still r m page h = ground arith

  -- A page that was free is of no entry.
  new_page :
      (n r v : ℕ) (k : Kern) (maps : Mappings)
      → IsBacked pid (suc n) (k, maps)
      → IsFree k.pmm.mat r
      → maps pid v % 2 ≡ 1
      → maps pid v / 4096 ≢ r
  new_page n r v k maps b free here same =
      let flag = (b.taken_pages v here).0 in
      let clash = sym flag ∙ ap (λ p. (k.pmm.mat.at_table p).allocated) same ∙ free.1 in
      omega (arith, clash)

  granted-taken :
      (n va perm r : ℕ) (k : Kern) (maps : Mappings)
      → IsBacked pid (suc n) (k, maps)
      → vm_userlo_pi ≤ r
      → (v : ℕ) → map_page pid va r perm maps pid v % 2 ≡ 1
      → (((at_set_allocated r 1 k.pmm.mat).at_table
            (map_page pid va r perm maps pid v / 4096)).allocated
          ≡ 1)
        × (vm_userlo_pi ≤ map_page pid va r perm maps pid v / 4096)
  granted-taken n va perm r k maps b user v here = elim (entry-page_of va r perm v maps) [
    | inl (at, new) ↦
        (marked-here r k.pmm.mat (map_page pid va r perm maps pid v / 4096) new, omega (arith, new))
    | inr (away, old) ↦
        let (flag, low) = b.taken_pages v (omega (arith, old)) in
        (
          marked-still r k.pmm.mat (map_page pid va r perm maps pid v / 4096)
              (ap (λ e. (k.pmm.mat.at_table (e / 4096)).allocated) old ∙ flag),
          omega (arith, old),
        )
  ]

  granted-once :
      (n va perm r : ℕ) (k : Kern) (maps : Mappings)
      → IsBacked pid (suc n) (k, maps)
      → IsFree k.pmm.mat r
      → (u v : ℕ) → map_page pid va r perm maps pid u % 2 ≡ 1
      → map_page pid va r perm maps pid v % 2 ≡ 1
      → map_page pid va r perm maps pid u / 4096 ≡ map_page pid va r perm maps pid v / 4096
      → u ≡ v
  granted-once n va perm r k maps b free u v h h' same = elim (entry-page_of va r perm u maps) [
    | inl (at, new) ↦ elim (entry-page_of va r perm v maps) [
      | inl (at', new') ↦ at ∙ sym at'
      | inr (away', old') ↦
          absurd
            (new_page n r v k maps b free (omega (arith, old')) (omega (arith, same, new, old')))
    ]
    | inr (away, old) ↦ elim (entry-page_of va r perm v maps) [
      | inl (at', new') ↦
          absurd
            (new_page n r u k maps b free (omega (arith, old)) (omega (arith, same, new', old)))
      | inr (away', old') ↦
          b.once u v (omega (arith, old)) (omega (arith, old')) (omega (arith, same, old, old'))
    ]
  ]

  granted-IsBacked :
      (n va perm r : ℕ) (k : Kern) (maps : Mappings)
      → IsBacked pid (suc n) (k, maps)
      → IsFree k.pmm.mat r
      → IsSound (granted k pid r)
      → IsBacked pid n (granted k pid r, map_page pid va r perm maps)
  granted-IsBacked n va perm r k maps b free sound = record {
    sound = sound;
    funds = let f = b.funds in ground arith;
    taken_pages = granted-taken n va perm r k maps b sound.pages.lo;
    once = granted-once n va perm r k maps b free;
  }

  give_page-Given :
      (n va perm : ℕ) (s : (Kern × Mappings) × Memory)
      → IsBacked pid (suc n) s.0
      → Given pid n va perm s
  unfolding give_page
  give_page-Given n va perm s b =
      let f = b.funds in
      let (r, run, nz, free, sound) =
        container_alloc-succeeds {s = s.0.0} pid b.sound known (omega arith) in
      let found : (r == 0) ≡ false = ground arith in
      (r, rw (give_page, run, found) refl, granted-IsBacked n va perm r s.0.0 s.0.1 b free sound)

  -- For a process below 64, with sound accounts and a container that may take the pages, the laws of
  -- `alloc_page` hold of pages that container_alloc gives, beside an image of the kernel below the
  -- user's memory.
  pub backed-IsAllocator :
      (lo hi : ℕ) → hi ≤ vm_userlo → IsAllocator backed pid lo hi (IsBacked pid)
  backed-IsAllocator lo hi range = record {
    ready = λ n va perm s b absent.
        let (r, run, after) = give_page-Given n va perm s b in
        subst (λ s'. IsBacked pid n s'.0) (sym run) after;
    maps = λ n va perm s b absent small.
        let (r, run, after) = give_page-Given n va perm s b in
        let new = map_page-here va r perm s.0.1 in
        ap (λ s'. s'.0.1 pid (va / 4096) % 4096) run ∙ omega (arith, new);
    others = λ n va perm s b absent u away.
        let (r, run, after) = give_page-Given n va perm s b in
        ap (λ s'. s'.0.1 pid (u / 4096)) run ∙ map_page-other va r perm (u / 4096) s.0.1 away;
    image = λ n va perm s b absent a l h.
        let (r, run, after) = give_page-Given n va perm s b in ap (λ s'. s'.1 a) run;
    bytes = λ n va perm s b absent u here.
        let (r, run, after) = give_page-Given n va perm s b in
        ap (λ s'. s'.1 (phys backed pid s.0 u)) run;
    distinct = λ n t b u v here there e. b.once (u / 4096) (v / 4096) here there (omega (arith, e));
    apart =
        λ n t b u here. let (flag, low) = b.taken_pages (u / 4096) here in inr (omega (arith, low));
  }
