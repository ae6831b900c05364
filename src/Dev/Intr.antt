-- ===== src/Dev/Intr.antt =====
-- kern/dev/intr.c: the table of interrupt gates. The entry points are those of kern/dev/idt.S, which
-- is assembly; their addresses are an argument.
pub mod Entries
pub mod Gates
mod Tests
use cs.Prelude.{
  ℕ, zero, suc, ◌+◌, ◌%◌, Bool, true, false, Option, none, some, List, [], ◌∷◌, ◌==◌, not,
  if◌then◌else◌, update,
}
use cs.KernLib.Seg.{Gatedesc, setgate, cpu_gdt_kcode}

-- The entry points that are declared.
pub data Entry : Type 0 where
  xdivide : Entry
  xdebug : Entry
  xnmi : Entry
  xbrkpt : Entry
  xoflow : Entry
  xbound : Entry
  xillop : Entry
  xdevice : Entry
  xdblflt : Entry
  xtss : Entry
  xsegnp : Entry
  xstack : Entry
  xgpflt : Entry
  xpgflt : Entry
  xfperr : Entry
  xalign : Entry
  xmchk : Entry
  xirq_timer : Entry
  xirq_kbd : Entry
  xirq_slave : Entry
  xirq_serial2 : Entry
  xirq_serial1 : Entry
  xirq_lpt : Entry
  xirq_floppy : Entry
  xirq_spurious : Entry
  xirq_rtc : Entry
  xirq9 : Entry
  xirq10 : Entry
  xirq11 : Entry
  xirq_mouse : Entry
  xirq_coproc : Entry
  xirq_ide1 : Entry
  xirq_ide2 : Entry
  xsyscall : Entry
  xdefault : Entry

abbrev pub t_irq0 : ℕ
t_irq0 = 32

abbrev pub t_syscall : ℕ
t_syscall = 48

abbrev pub t_default : ℕ
t_default = 254

-- The gates that `intr_init_idt` sets behind the loop, in its order: the number, the entry point and
-- the privilege.
abbrev pub idt_gates : List (ℕ × (Entry × ℕ))
idt_gates =
    (0, (xdivide, 0))
    ∷ (1, (xdebug, 0))
    ∷ (2, (xnmi, 0))
    ∷ (3, (xbrkpt, 3))
    ∷ (4, (xoflow, 3))
    ∷ (5, (xbound, 0))
    ∷ (6, (xillop, 0))
    ∷ (7, (xdevice, 0))
    ∷ (8, (xdblflt, 0))
    ∷ (10, (xtss, 0))
    ∷ (11, (xsegnp, 0))
    ∷ (12, (xstack, 0))
    ∷ (13, (xgpflt, 0))
    ∷ (14, (xpgflt, 0))
    ∷ (16, (xfperr, 0))
    ∷ (17, (xalign, 0))
    ∷ (18, (xmchk, 0))
    ∷ (t_irq0 + 0, (xirq_timer, 0))
    ∷ (t_irq0 + 1, (xirq_kbd, 0))
    ∷ (t_irq0 + 2, (xirq_slave, 0))
    ∷ (t_irq0 + 3, (xirq_serial2, 0))
    ∷ (t_irq0 + 4, (xirq_serial1, 0))
    ∷ (t_irq0 + 5, (xirq_lpt, 0))
    ∷ (t_irq0 + 6, (xirq_floppy, 0))
    ∷ (t_irq0 + 7, (xirq_spurious, 0))
    ∷ (t_irq0 + 8, (xirq_rtc, 0))
    ∷ (t_irq0 + 9, (xirq9, 0))
    ∷ (t_irq0 + 10, (xirq10, 0))
    ∷ (t_irq0 + 11, (xirq11, 0))
    ∷ (t_irq0 + 12, (xirq_mouse, 0))
    ∷ (t_irq0 + 13, (xirq_coproc, 0))
    ∷ (t_irq0 + 14, (xirq_ide1, 0))
    ∷ (t_irq0 + 15, (xirq_ide2, 0))
    ∷ (t_syscall, (xsyscall, 3))
    ∷ (t_default, (xdefault, 0))
    ∷ []

-- The gates of a list, one after the other.
unfoldable pub set_gates : (Entry → ℕ) → List (ℕ × (Entry × ℕ)) → (ℕ → Gatedesc) → ℕ → Gatedesc
set_gates entry [] idt = idt
set_gates entry (g ∷ gates) idt =
    set_gates entry gates (update idt g.0 (setgate 0 cpu_gdt_kcode (entry g.1.0) g.1.1))

-- The loop that installs the default handler, with the rounds left.
unfoldable pub default_loop : ℕ → (Entry → ℕ) → ℕ → (ℕ → Gatedesc) → ℕ → Gatedesc
default_loop zero entry i idt = idt
default_loop (suc left) entry i idt =
    default_loop left entry (i + 1) (update idt i (setgate 0 cpu_gdt_kcode (entry xdefault) 0))

-- `none` is the failed assertion.
unfoldable pub intr_init_idt : (Entry → ℕ) → (ℕ → Gatedesc) → Option (ℕ → Gatedesc)
intr_init_idt entry idt =
    if not (t_irq0 % 8 == 0)
    then none
    else some (set_gates entry idt_gates (default_loop 256 entry 0 idt))

pub record Intr : Type 0 where
  pub intr_inited : Bool
  pub idt : ℕ → Gatedesc

unfoldable pub intr_init : (Entry → ℕ) → Intr → Option Intr
intr_init entry s = if s.intr_inited then some s else elim (intr_init_idt entry s.idt) [
  | none ↦ none
  | some idt ↦ some (record { intr_inited = true; idt = idt })
]
