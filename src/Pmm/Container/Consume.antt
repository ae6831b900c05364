-- ===== src/Pmm/Container/Consume.antt =====
-- `container_can_consume`.
use cs.Prelude.{ℕ, ◌+◌, ◌≤◌, ◌<◌, ◌≡◌, ◌↔◌, arith}
use cs.Pmm.Container.{Kern, container_can_consume}

-- Where usage and request add up to less than 4G, the answer is 1 exactly when the sum is within the
-- quota, and otherwise 0.
pub container_can_consume_iff :
    (id n : ℕ) (s : Kern)
    → (s.container id).usage + n < 0x1_0000_0000
    → ((container_can_consume id n s ≡ 1) ↔ ((s.container id).usage + n ≤ (s.container id).quota))
      × ((container_can_consume id n s ≡ 0) ↔ ((s.container id).quota < (s.container id).usage + n))
unfolding container_can_consume
container_can_consume_iff id n s h = ground arith

-- A request that makes the unsigned sum wrap to 0 is granted, whatever the quota is.
pub container_can_consume_wraps :
    (id n : ℕ) (s : Kern)
    → (s.container id).usage + n ≡ 0x1_0000_0000
    → (container_can_consume id n s ≡ 1)
unfolding container_can_consume
container_can_consume_wraps id n s h = ground arith
