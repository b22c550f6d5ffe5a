-- ===== src/Core/Ports/Choice.antt =====
-- What a chosen dynamic port satisfies, and when there is none.
use native.Mathlib.Decide.{dec_lt}
use devion.Prelude.{
  ℕ, zero, suc, ◌+◌, ◌-◌, ◌%◌, ◌≤◌, ◌<◌, ◌≡◌, refl, ◌↔◌, inl, inr, true, false, ◌||◌, none, some,
  List, arith, has, Bool-cases, Option-cases,
}
use devion.Core.Ports.{
  nat, host_port_policy_error, reserved_host_ports, dynamic_host_port_min, dynamic_host_port_max,
  size, seed_offset, port_at, probe, choose_dynamic_host_port,
}

-- What the search may return.
abbrev pub IsFree : List ℕ → ℕ → Type 0
IsFree occupied p =
    (dynamic_host_port_min ≤ p) × (p ≤ dynamic_host_port_max) × (has occupied p ≡ false)

probe_sound :
    (occupied : List ℕ) (offset left attempt p : ℕ)
    → probe occupied offset left attempt ≡ some p
    → IsFree occupied p
unfolding probe
probe_sound occupied offset zero attempt p h = ground arith
probe_sound occupied offset (suc left) attempt p h =
    ground (arith, probe_sound occupied offset left (suc attempt) p)

-- A free first attempt is taken.
pub probe_free :
    (occupied : List ℕ) (offset left attempt : ℕ)
    → (has occupied (port_at offset attempt) || has reserved_host_ports (port_at offset attempt))
      ≡ false
    → probe occupied offset (suc left) attempt ≡ some (port_at offset attempt)
unfolding probe
probe_free occupied offset left attempt h = rw h refl

-- No dynamic port is a reserved one.
not_reserved : (p : ℕ) → dynamic_host_port_min ≤ p → has reserved_host_ports p ≡ false
not_reserved p h = ground arith

occupied_of_blocked :
    (occupied : List ℕ) (p : ℕ)
    → dynamic_host_port_min ≤ p
    → (has occupied p || has reserved_host_ports p) ≡ true
    → has occupied p ≡ true
occupied_of_blocked occupied p h e = elim (Bool-cases (has occupied p)) [
  | inl t ↦ t
  | inr f ↦ cc (not_reserved p h)
]

-- A search that finds nothing has met an occupied port at each of its attempts.
probe_none :
    (occupied : List ℕ) (offset left attempt i : ℕ)
    → probe occupied offset left attempt ≡ none
    → attempt ≤ i
    → i < attempt + left
    → has occupied (port_at offset i) ≡ true
unfolding probe
probe_none occupied offset zero attempt i h lo hi = absurd (omega arith)
probe_none occupied offset (suc left) attempt i h lo hi =
    elim (Bool-cases
      (has occupied (port_at offset attempt) || has reserved_host_ports (port_at offset attempt))) [
        | inl blocked ↦ elim (dec_lt attempt i) [
          | yes later ↦
              probe_none occupied offset left (suc attempt) i (rw blocked at h) later (omega arith)
          | no same ↦
              let e : i ≡ attempt = omega arith in
              rw e (occupied_of_blocked occupied (port_at offset attempt) (omega arith) blocked)
        ]
        | inr free ↦ cc (rw free at h)
      ]

-- Every port of the range is tried: the attempt at which it is.
attempt_of :
    (offset p : ℕ)
    → dynamic_host_port_min ≤ p
    → p ≤ dynamic_host_port_max
    → (i : ℕ) × (i < size) × (port_at offset i ≡ p)
attempt_of offset p lo hi =
    ((p - dynamic_host_port_min + size - offset % size) % size, omega arith, omega arith)

policy_allows :
    (p : ℕ)
    → dynamic_host_port_min ≤ p
    → p ≤ dynamic_host_port_max
    → host_port_policy_error (nat p) ≡ none
unfolding host_port_policy_error
policy_allows p lo hi = ground arith

-- A chosen port lies in the dynamic range and is not occupied, and the host-port policy allows it.
pub choose_dynamic_host_port-IsFree :
    (occupied seed : List ℕ) (p : ℕ)
    → choose_dynamic_host_port occupied seed ≡ some p
    → IsFree occupied p × (host_port_policy_error (nat p) ≡ none)
unfolding choose_dynamic_host_port
choose_dynamic_host_port-IsFree occupied seed p h =
    let (lo, hi, free) = probe_sound occupied (seed_offset 0 seed) size 0 p h in
    ((lo, hi, free), policy_allows p lo hi)

-- The choice fails exactly when every port of the dynamic range is occupied, whatever the seed is.
pub choose_dynamic_host_port-none :
    (occupied seed : List ℕ)
    → (choose_dynamic_host_port occupied seed ≡ none)
      ↔ ((p : ℕ) → dynamic_host_port_min ≤ p → p ≤ dynamic_host_port_max → has occupied p ≡ true)
unfolding choose_dynamic_host_port
choose_dynamic_host_port-none occupied seed = (full, absent)
  where
    full :
        probe occupied (seed_offset 0 seed) size 0 ≡ none
        → (p : ℕ) → dynamic_host_port_min ≤ p
        → p ≤ dynamic_host_port_max
        → has occupied p ≡ true
    full h p lo hi =
        let (i, below, at_p) = attempt_of (seed_offset 0 seed) p lo hi in
        rw at_p at (probe_none occupied (seed_offset 0 seed) size 0 i h (omega arith) below)

    absent :
        ((p : ℕ) → dynamic_host_port_min ≤ p → p ≤ dynamic_host_port_max → has occupied p ≡ true)
        → probe occupied (seed_offset 0 seed) size 0 ≡ none
    absent all = elim (Option-cases (probe occupied (seed_offset 0 seed) size 0)) [
      | inl e ↦ e
      | inr (p, e) ↦
          let (lo, hi, free) = probe_sound occupied (seed_offset 0 seed) size 0 p e in
          cc (all p lo hi)
    ]
