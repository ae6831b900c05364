-- ===== src/Pmm/Container/Split.antt =====
-- `container_split`: a new child in the tree of containers.
use cs.Prelude.{
  ℕ, ◌+◌, ◌*◌, ◌≤◌, ◌<◌, ◌≡◌, ◌≢◌, ◌⊎◌, ◌∙◌, refl, inl, inr, true, false, arith, ◌==◌,
  if◌then◌else◌, add32, ap, update, leb, Bool-cases, sum_below-change,
}
use cs.Pmm.Container.{SContainer, Kern, num_ids, container_split, split_tables, child_index}
use cs.Pmm.Container.Sums.{total_usage, delegated}
use cs.Pmm.Container.Inv.{IsTree, IsSound}

-- The slot of child number `nc` of `id`.
abbrev pub slot : ℕ → ℕ → ℕ
slot id nc = 3 * id + 1 + nc

-- The table after `id` passed `quota` pages on to the new child at `child`.
abbrev pub with_child : ℕ → ℕ → ℕ → (ℕ → SContainer) → ℕ → SContainer
with_child id quota child c =
    update
      (update c child (record { quota = quota; usage = 0; parent = id; nchildren = 0; used = 1 }))
      id (record (c id) { usage = (c id).usage + quota; nchildren = (c id).nchildren + 1 })

module _ (id quota : ℕ) (c : ℕ → SContainer) where
  split_tables-with_child :
      (child : ℕ)
      → child ≢ id
      → (c id).usage + quota < 0x1_0000_0000
      → (c id).nchildren < 0xffff_ffff
      → split_tables id quota child c ≡ with_child id quota child c
  unfolding split_tables
  split_tables-with_child child ne h k =
      let miss : (child == id) ≡ false = ground arith in
      let sum : add32 (c id).usage quota ≡ (c id).usage + quota = omega arith in
      let count : add32 (c id).nchildren 1 ≡ (c id).nchildren + 1 = omega arith in
      rw (miss, sum, count)

  module _ (t : IsTree c) (used : (c id).used ≢ 0) (room : (c id).nchildren < 3)
      (funds : (c id).usage + quota ≤ (c id).quota) where
    abbrev child : ℕ
    child = slot id (c id).nchildren

    -- The slot of the next child is empty.
    pub child-unused : (c child).used ≡ 0
    child-unused = elim (Bool-cases ((c child).used == 0)) [
      | inl e ↦ ground arith
      | inr e ↦
          let h = t.slots child (omega arith) (ground arith) in
          let same : (c child).parent ≡ id = omega (arith, t.few (c child).parent) in
          absurd (omega (arith, h, ap (λ p. (c p).nchildren) same))
    ]

    with_child-IsTree : IsTree (with_child id quota child c)
    with_child-IsTree =
        let empty = t.unused child child-unused in
        record {
          root = ground (arith, t.root);
          few = λ i. ground (arith, t.few i);
          unused = λ i h. ground (arith, t.unused i);
          within = λ i. ground (arith, t.within i);
          small = λ i. ground (arith, t.small i, t.small id);
          slots = λ i p q. ground (arith, t.slots i, empty);
        }

    total_usage-with_child :
        id < num_ids → total_usage (with_child id quota child c) ≡ total_usage c + quota
    unfolding total_usage
    total_usage-with_child h =
        let empty = t.unused child child-unused in
        let e =
          sum_below-change num_ids id (λ i. (with_child id quota child c i).usage)
            (λ i. (c i).usage) h (λ i ne. ground (arith, empty)) in
        ground (arith, e)

    delegated-with_child :
        child < num_ids → delegated (with_child id quota child c) ≡ delegated c + quota
    unfolding delegated
    delegated-with_child h =
        let empty = t.unused child child-unused in
        let e =
          sum_below-change num_ids child
            (λ i. if i == 0 then 0 else (with_child id quota child c i).quota)
            (λ i. if i == 0 then 0 else (c i).quota) h (λ i ne. ground arith) in
        ground (arith, e, empty)

child_index-slot :
    (id : ℕ) (s : Kern)
    → id < num_ids
    → (s.container id).nchildren ≤ 3
    → child_index id s ≡ slot id (s.container id).nchildren
unfolding child_index
child_index-slot id s h k = omega arith

split_full :
    (id quota : ℕ) (s : Kern)
    → num_ids ≤ child_index id s
    → container_split id quota s ≡ (num_ids, s)
unfolding container_split
split_full id quota s h = let full : leb num_ids (child_index id s) ≡ true = ground arith in rw full

split_room :
    (id quota : ℕ) (s : Kern)
    → child_index id s < num_ids
    → container_split id quota s ≡ (
      child_index id s,
      record s { container = split_tables id quota (child_index id s) s.container },
    )
unfolding container_split
split_room id quota s h =
    let room : leb num_ids (child_index id s) ≡ false = ground arith in rw room

-- Splitting `quota` pages off for a new child of a container in use that has fewer than three
-- children and the pages to spare: if the child's index 3 * id + 1 + nchildren is 64 or more, the
-- answer is 64 and nothing changes; otherwise the answer is that index, its slot was not in use, the
-- child starts there with the quota and no usage, the parent's usage grows by the quota and its
-- count of children by one, no other container changes, and the accounts stay sound.
pub container_split-IsSound :
    {s : Kern} (id quota : ℕ)
    → IsSound s
    → id < num_ids
    → (s.container id).used ≢ 0
    → (s.container id).nchildren < 3
    → (s.container id).usage + quota ≤ (s.container id).quota
    → let child = slot id (s.container id).nchildren in
      let after = record s { container = with_child id quota child s.container } in
      ((num_ids ≤ child) × (container_split id quota s ≡ (num_ids, s)))
      ⊎ ((child < num_ids)
          × (container_split id quota s ≡ (child, after))
          × ((s.container child).used ≡ 0)
          × IsSound after)
container_split-IsSound {s} id quota v h used room funds =
    let c = s.container in
    let nr = slot id (c id).nchildren in
    let e = child_index-slot id s h (v.tree.few id) in
    elim (Bool-cases (leb num_ids nr)) [
      | inl full ↦ inl (ground arith, split_full id quota s (rw e (ground arith)))
      | inr fits ↦
          let below : nr < num_ids = ground arith in
          let table =
            split_tables-with_child id quota c nr (omega arith) (omega (arith, v.tree.small id))
              (omega arith) in
          inr (
            below,
            split_room id quota s (rw e below) ∙ rw (e, table),
            child-unused id quota c v.tree used room funds,
            record {
              pages = v.pages;
              marked = v.marked;
              tree = with_child-IsTree id quota c v.tree used room funds;
              balance = omega (
                arith,
                v.balance,
                total_usage-with_child id quota c v.tree used room funds h,
                delegated-with_child id quota c v.tree used room funds below,
              );
              budget = ground (arith, v.budget);
            },
          )
    ]

-- A container with three children already: the fourth takes the slot of the first child of the next
-- container, whatever stands there.
pub container_split_overwrites :
    (s : Kern) (id quota : ℕ)
    → id < 20
    → (s.container id).nchildren ≡ 3
    → let (child, s') = container_split id quota s in
      (child ≡ slot (id + 1) 0)
      × (s'.container child
          ≡ record { quota = quota; usage = 0; parent = id; nchildren = 0; used = 1 })
unfolding split_tables
container_split_overwrites s id quota h three =
    let e : child_index id s ≡ slot (id + 1) 0 =
      child_index-slot id s (omega arith) (omega arith) ∙ omega arith in
    let apart : (id == slot (id + 1) 0) ≡ false = ground arith in
    rw (split_room id quota s (rw e (omega arith)), e) (refl, rw apart (ground arith))
