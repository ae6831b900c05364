-- ===== src/Dev/Intr/Gates.antt =====
-- What each interrupt leads to, and who may ask for it.
use cs.Prelude.{ℕ, ◌≡◌, Bool, ◌||◌, List, [], ◌∷◌, ◌==◌, if◌then◌else◌}
use cs.KernLib.Seg.{Gatedesc, cpu_gdt_kcode}
use cs.KernLib.Seg.Fields.{gate_offset}
use cs.Dev.Intr.{Entry, xdefault, idt_gates, Intr}

-- The last gate of a number in a list, or the one that was there.
abbrev pub target : List (ℕ × (Entry × ℕ)) → ℕ → Entry × ℕ → Entry × ℕ
target [] v d = d
target (g ∷ gates) v d = target gates v (if v == g.0 then g.1 else d)

-- The breakpoint, the overflow and the system call.
abbrev pub is_user_gate : ℕ → Bool
is_user_gate v = (v == 3) || ((v == 4) || (v == 48))

abbrev pub dpl_of : ℕ → ℕ
dpl_of v = (target idt_gates v (xdefault, 0)).1

-- A gate that the processor reads as an interrupt gate to the address, in the kernel's code.
abbrev pub LeadsTo : ℕ → ℕ → Gatedesc → Type 0
LeadsTo address dpl g =
    (gate_offset g ≡ address)
    × ((g.gd_dpl ≡ dpl) × ((g.gd_p ≡ 1) × ((g.gd_ss ≡ cpu_gdt_kcode) × (g.gd_type ≡ 14))))
