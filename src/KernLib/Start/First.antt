-- ===== src/KernLib/Start/First.antt =====
-- The first start of a process.
use cs.Prelude.{◌≡◌, inl, inr, subst, arith}
use cs.KernLib.Start.{alloc_mem_quota}
use cs.Pmm.Container.{Kern, container_split, container_get_quota}
use cs.Pmm.Container.Inv.{IsSound}
use cs.Pmm.Container.Split.{slot, with_child, container_split-IsSound}

-- The kernel after the root has passed its whole quota on to container 1.
abbrev pub after_split : Kern → Kern
after_split s = record s { container = with_child 0 (s.container 0).quota 1 s.container }

-- A root container that has not used or passed on any page.
abbrev pub IsFresh : Kern → Type 0
IsFresh s = IsSound s × (((s.container 0).usage ≡ 0) × ((s.container 0).nchildren ≡ 0))

pub split-root :
    (s : Kern)
    → IsFresh s
    → (alloc_mem_quota 0 (container_get_quota 0 s) s ≡ (1, after_split s)) × IsSound (after_split s)
unfolding alloc_mem_quota container_get_quota
split-root s (v, (unused, childless)) =
    let root = v.tree.root in
    let at : slot 0 (s.container 0).nchildren ≡ 1 = omega arith in
    elim (container_split-IsSound {s = s} 0 (s.container 0).quota v (omega arith) (omega arith)
      (omega arith) (omega arith)) [
        | inl full ↦ absurd (omega (arith, full.0))
        | inr (below, run, unused_child, sound) ↦
            subst
              (λ child.
                (container_split 0 (s.container 0).quota s ≡ (
                  child,
                  record s { container = with_child 0 (s.container 0).quota child s.container },
                ))
                × IsSound
                    (record s { container = with_child 0 (s.container 0).quota child s.container }))
              at (run, sound)
      ]
