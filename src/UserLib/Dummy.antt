-- ===== src/UserLib/Dummy.antt =====
-- user/proc/dummy/dummy.c: a program that reads and writes the addresses that are typed. Each key is
-- a step of the loop that waits for it; the process's memory is a function from addresses.
pub mod Session
mod Tests
use cs.Prelude.{
  ℕ, ◌+◌, ◌-◌, ◌*◌, ◌/◌, ◌%◌, Bool, true, false, ◌&&◌, ◌||◌, not, List, [], ◌∷◌, ltb, leb, ◌==◌,
  if◌then◌else◌, add32,
}
use cs.KernLib.Str.{Memory, load32, store32}

-- What is printed, a constructor for each text.
pub data Said : Type 0 where
  exiting : Said
  specify : Said
  enter_address : Said
  typed : ℕ → Said
  address_entered : ℕ → Said
  specify_action : Said
  value_at : ℕ → ℕ → Said
  enter_value : Said
  wrote : Said
  invalid_action : Said
  out_of_range : Said

-- The loop that waits for a key: that of the address, of the action, of the value; or the end.
pub data Waiting : Type 0 where
  address : Waiting
  action : Waiting
  value : Waiting
  nothing : Waiting

-- What is printed stands with the latest first.
pub record Dummy : Type 0 where
  pub waiting : Waiting
  pub addr : ℕ
  pub memory : Memory
  pub said : List Said

-- `getc` returns a char as an int.
abbrev pub getc_int : ℕ → ℕ
getc_int c = if ltb c 128 then c else c + 0xffff_ff00

-- The address is done with.
abbrev pub next_address : Dummy → Dummy
next_address s = record s { waiting = address; addr = 0; said = enter_address ∷ specify ∷ s.said }

unfoldable pub key_address : ℕ → Dummy → Dummy
key_address c s =
    let i = getc_int c in
    if i == 0
    then s
    else if i == 0x1a
    then record s { waiting = nothing; said = exiting ∷ s.said }
    else if (i == 10) || (i == 13)
    then record s { waiting = action; said = specify_action ∷ address_entered s.addr ∷ s.said }
    else if ltb i 48 || ltb 57 i
    then s
    else if leb (0xffff_ffff / 10) s.addr
    then record s { addr = 0; said = enter_address ∷ out_of_range ∷ s.said }
    else record s { addr = (s.addr * 10 + i - 48) % 0x1_0000_0000; said = typed i ∷ s.said }

unfoldable pub key_action : ℕ → Dummy → Dummy
key_action c s =
    if c == 0
    then s
    else if c == 114
    then next_address
        (record s { said = value_at s.addr (load32 s.memory s.addr) ∷ typed c ∷ s.said })
    else if c == 119
    then record s { waiting = value; said = enter_value ∷ typed c ∷ s.said }
    else record s { said = specify_action ∷ invalid_action ∷ typed c ∷ s.said }

unfoldable pub key_value : ℕ → Dummy → Dummy
key_value c s =
    let val = getc_int c in
    if (val == 0) || (ltb val 48 || ltb 57 val)
    then s
    else next_address (record s {
      memory = store32 s.addr (val - 48) s.memory;
      said = wrote ∷ typed val ∷ s.said;
    })

unfoldable pub key : ℕ → Dummy → Dummy
key c s = elim s.waiting [
  | address ↦ key_address c s
  | action ↦ key_action c s
  | value ↦ key_value c s
  | nothing ↦ s
]

unfoldable pub keys : List ℕ → Dummy → Dummy
keys [] s = s
keys (c ∷ rest) s = keys rest (key c s)

-- The program at its first loop.
abbrev pub main : Memory → Dummy
main memory = record {
  waiting = address;
  addr = 0;
  memory = memory;
  said = enter_address ∷ specify ∷ [];
}
