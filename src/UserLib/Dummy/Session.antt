-- ===== src/UserLib/Dummy/Session.antt =====
-- Sessions of typed addresses, reads and writes.
use cs.Prelude.{
  ℕ, ◌+◌, ◌-◌, ◌*◌, ◌/◌, ◌%◌, ◌<◌, ◌≤◌, ◌≡◌, ◌∙◌, refl, ap, false, ◌||◌, List, [], ◌∷◌, ◌++◌, map,
  ltb, leb, ◌==◌, arith,
}
use cs.KernLib.Str.{Memory, load32, store32}
use cs.UserLib.Dummy.{
  Said, specify, enter_address, typed, address_entered, specify_action, value_at, enter_value,
  wrote, Waiting, address, action, value, nothing, Dummy, getc_int, key_address, key_action,
  key_value, key, keys, main,
}

-- The number that digits make behind another one.
abbrev pub digits_value : ℕ → List ℕ → ℕ
digits_value acc [] = acc
digits_value acc (d ∷ ds) = digits_value (acc * 10 + d) ds

abbrev pub AreDigits : List ℕ → Type 0
AreDigits [] = Unit
AreDigits (d ∷ ds) = (d < 10) × AreDigits ds

-- The keys of digits.
abbrev pub digit_keys : List ℕ → List ℕ
digit_keys ds = map (λ d. d + 48) ds

digits_value-least : (ds : List ℕ) (acc : ℕ) → acc ≤ digits_value acc ds
digits_value-least [] acc = omega arith
digits_value-least (d ∷ ds) acc = let rest = digits_value-least ds (acc * 10 + d) in omega arith

keys-append : (a b : List ℕ) (s : Dummy) → keys (a ++ b) s ≡ keys b (keys a s)
unfolding keys
keys-append [] b s = refl
keys-append (c ∷ a) b s = keys-append a b (key c s)

key-digit :
    (d addr : ℕ) (mem : Memory) (said : List Said)
    → d < 10
    → addr * 10 + d ≤ 4294967289
    → key (d + 48) (record { waiting = address; addr = addr; memory = mem; said = said }) ≡ record {
      waiting = address;
      addr = addr * 10 + d;
      memory = mem;
      said = typed (d + 48) ∷ said;
    }
unfolding key key_address
key-digit d addr mem said small fits =
    let char : getc_int (d + 48) ≡ d + 48 = ground arith in
    let a : (d + 48 == 0) ≡ false = ground arith in
    let b : (d + 48 == 0x1a) ≡ false = ground arith in
    let c : (d + 48 == 10) || (d + 48 == 13) ≡ false = ground arith in
    let e : ltb (d + 48) 48 || ltb 57 (d + 48) ≡ false = ground arith in
    let f : leb (0xffff_ffff / 10) addr ≡ false = ground arith in
    let g : (addr * 10 + (d + 48) - 48) % 0x1_0000_0000 ≡ addr * 10 + d = omega arith in
    rw (key_address, char, a, b, c, e, f, g) refl

-- A number of at most 4294967289 becomes the address.
type_address :
    (ds : List ℕ) (addr : ℕ) (mem : Memory) (said : List Said)
    → AreDigits ds
    → digits_value addr ds ≤ 4294967289
    → (said' : List Said) × (keys
          (digit_keys ds)
          (record { waiting = address; addr = addr; memory = mem; said = said })
        ≡ record { waiting = address; addr = digits_value addr ds; memory = mem; said = said' })
unfolding keys
type_address [] addr mem said h fits = (said, refl)
type_address (d ∷ ds) addr mem said (small, h) fits =
    let least = digits_value-least ds (addr * 10 + d) in
    let (said', run) = type_address ds (addr * 10 + d) mem (typed (d + 48) ∷ said) h fits in
    (said', ap (keys (digit_keys ds)) (key-digit d addr mem said small (omega arith)) ∙ run)

load32-store32 : (a w : ℕ) (mem : Memory) → w < 0x1_0000_0000 → load32 (store32 a w mem) a ≡ w
unfolding store32
load32-store32 a w mem h = ground arith

-- The keys that write a digit to an address, and those that read there.
abbrev pub write_keys : List ℕ → ℕ → List ℕ
write_keys ds v = digit_keys ds ++ (10 ∷ 119 ∷ (v + 48) ∷ [])

abbrev pub read_keys : List ℕ → List ℕ
read_keys ds = digit_keys ds ++ (10 ∷ 114 ∷ [])

key-value :
    (a v : ℕ) (mem : Memory) (said : List Said)
    → v < 10
    → key (v + 48) (record { waiting = value; addr = a; memory = mem; said = said }) ≡ record {
      waiting = address;
      addr = 0;
      memory = store32 a v mem;
      said = enter_address ∷ specify ∷ wrote ∷ typed (v + 48) ∷ said;
    }
unfolding key key_value
key-value a v mem said small =
    let char : getc_int (v + 48) ≡ v + 48 = ground arith in
    let e : (v + 48 == 0) || (ltb (v + 48) 48 || ltb 57 (v + 48)) ≡ false = ground arith in
    let back : v + 48 - 48 ≡ v = omega arith in rw (key_value, char, e, back) refl

write-runs :
    (a v : ℕ) (mem : Memory) (said : List Said)
    → v < 10
    → (said' : List Said) × (keys
          (10 ∷ 119 ∷ (v + 48) ∷ [])
          (record { waiting = address; addr = a; memory = mem; said = said })
        ≡ record { waiting = address; addr = 0; memory = store32 a v mem; said = said' })
unfolding keys key key_address key_action
write-runs a v mem said small = (
  _,
  key-value a v mem (enter_value ∷ typed 119 ∷ specify_action ∷ address_entered a ∷ said) small,
)

write_session :
    (ds : List ℕ) (v : ℕ) (mem : Memory) (said : List Said)
    → AreDigits ds
    → digits_value 0 ds ≤ 4294967289
    → v < 10
    → (said' : List Said) × (keys
          (write_keys ds v)
          (record { waiting = address; addr = 0; memory = mem; said = said })
        ≡ record {
          waiting = address;
          addr = 0;
          memory = store32 (digits_value 0 ds) v mem;
          said = said';
        })
write_session ds v mem said h fits small =
    let (said1, typing) = type_address ds 0 mem said h fits in
    let (said2, writing) = write-runs (digits_value 0 ds) v mem said1 small in
    (
      said2,
      keys-append (digit_keys ds) (10 ∷ 119 ∷ (v + 48) ∷ [])
            (record { waiting = address; addr = 0; memory = mem; said = said })
          ∙ ap (keys (10 ∷ 119 ∷ (v + 48) ∷ [])) typing
          ∙ writing,
    )

read_session :
    (ds : List ℕ) (mem : Memory) (said : List Said)
    → AreDigits ds
    → digits_value 0 ds ≤ 4294967289
    → (said' : List Said) × (keys
          (read_keys ds)
          (record { waiting = address; addr = 0; memory = mem; said = said })
        ≡ record {
          waiting = address;
          addr = 0;
          memory = mem;
          said =
              enter_address
              ∷ specify
              ∷ value_at (digits_value 0 ds) (load32 mem (digits_value 0 ds))
              ∷ said';
        })
unfolding keys key key_address key_action
read_session ds mem said h fits =
    let (said1, typing) = type_address ds 0 mem said h fits in
    (
      _,
      keys-append (digit_keys ds) (10 ∷ 114 ∷ [])
            (record { waiting = address; addr = 0; memory = mem; said = said })
          ∙ ap (keys (10 ∷ 114 ∷ [])) typing
          ∙ refl,
    )

-- A user who types the digits of an address of at most 4294967289, a new line, w and a digit, and
-- then the address again, a new line and r: the digit is stored at the address as a word, it is
-- printed as the value there, and the program waits for the next address.
pub session_roundtrip :
    (ds : List ℕ) (v : ℕ) (mem : Memory)
    → AreDigits ds
    → digits_value 0 ds ≤ 4294967289
    → v < 10
    → (said : List Said) × (keys (write_keys ds v ++ read_keys ds) (main mem) ≡ record {
      waiting = address;
      addr = 0;
      memory = store32 (digits_value 0 ds) v mem;
      said = enter_address ∷ specify ∷ value_at (digits_value 0 ds) v ∷ said;
    })
session_roundtrip ds v mem h fits small =
    let a = digits_value 0 ds in
    let (said1, written) = write_session ds v mem (enter_address ∷ specify ∷ []) h fits small in
    let (said2, read) = read_session ds (store32 a v mem) said1 h fits in
    (
      said2,
      keys-append (write_keys ds v) (read_keys ds) (main mem)
          ∙ ap (keys (read_keys ds)) written
          ∙ read
          ∙ ap
              (λ w. record {
                waiting = address;
                addr = 0;
                memory = store32 a v mem;
                said = enter_address ∷ specify ∷ value_at a w ∷ said2;
              })
              (load32-store32 a v mem (omega arith)),
    )

key_address-bounded :
    (c : ℕ) (s : Dummy) → s.addr ≤ 4294967289 → (key_address c s).addr ≤ 4294967289
unfolding key_address
key_address-bounded c s h = ground arith

key-bounded :
    (w : Waiting) (c addr : ℕ) (mem : Memory) (said : List Said)
    → addr ≤ 4294967289
    → (key c (record { waiting = w; addr = addr; memory = mem; said = said })).addr ≤ 4294967289
unfolding key key_action key_value
key-bounded address c addr mem said h =
    key_address-bounded c (record { waiting = address; addr = addr; memory = mem; said = said }) h
key-bounded action c addr mem said h = ground arith
key-bounded value c addr mem said h = ground arith
key-bounded nothing c addr mem said h = h

keys-bounded :
    (typed_keys : List ℕ) (s : Dummy) → s.addr ≤ 4294967289 → (keys typed_keys s).addr ≤ 4294967289
unfolding keys
keys-bounded [] s h = h
keys-bounded (c ∷ rest) s h =
    keys-bounded rest (key c s) (key-bounded s.waiting c s.addr s.memory s.said h)
