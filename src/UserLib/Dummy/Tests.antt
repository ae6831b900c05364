-- ===== src/UserLib/Dummy/Tests.antt =====
-- A session at the address 1073741830.
use cs.Prelude.{ℕ, ◌≡◌, List, [], ◌∷◌, ◌++◌, arith}
use cs.KernLib.Str.{store32}
use cs.UserLib.Dummy.{Said, specify, enter_address, value_at, address, keys, main}
use cs.UserLib.Dummy.Session.{write_keys, read_keys, session_roundtrip}

abbrev typed_address : List ℕ
typed_address = 1 ∷ 0 ∷ 7 ∷ 3 ∷ 7 ∷ 4 ∷ 1 ∷ 8 ∷ 3 ∷ 0 ∷ []

session_roundtrip_example :
    (said : List Said) × (keys
        (write_keys typed_address 7 ++ read_keys typed_address)
        (main (λ a. 0))
      ≡ record {
        waiting = address;
        addr = 0;
        memory = store32 1073741830 7 (λ a. 0);
        said = enter_address ∷ specify ∷ value_at 1073741830 7 ∷ said;
      })
session_roundtrip_example =
    session_roundtrip typed_address 7 (λ a. 0)
      (
        (omega arith),
        (
          (omega arith),
          (
            (omega arith),
            (
              (omega arith),
              (
                (omega arith),
                (
                  (omega arith),
                  ((omega arith), ((omega arith), ((omega arith), ((omega arith), tt)))),
                ),
              ),
            ),
          ),
        ),
      )
      (omega arith) (omega arith)
