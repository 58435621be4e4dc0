-- ===== src/Stages/Allocate/Pool.antt =====
-- `allocateIP`: the lowest free address of the reserved band.
use easyshift.Base.{
  ℕ, zero, suc, String, ◌+◌, ◌≤◌, ◌<◌, ◌≡◌, refl, Bool, true, false, none, some, arith, ◌==◌, ◌||◌,
  Bool-cases, inl, inr, if◌then◌else◌, ◌⊎◌,
}
use native.Mathlib.Decide.{dec_lt}
use easyshift.Base.Dict.{Dict, insert, flag, flag-insert}
use easyshift.Base.Action.{ok, err}
use easyshift.Config.Types.{GlobalState}
use easyshift.Config.Constants.{network_start, network_end}
use easyshift.Stages.Allocate.{address, first_free, pool_size, allocate_ip, pool_exhausted}

first_free_cons :
    (used : Dict Bool) (left i : ℕ)
    → first_free used (suc left) i
      ≡ (if flag (address i) used then first_free used left (suc i) else some (address i))
unfolding first_free
first_free_cons used left i = refl

AllUsed_step :
    (used : Dict Bool) (i n : ℕ)
    → flag (address i) used ≡ true
    → ((j : ℕ) → suc i ≤ j → j < n → flag (address j) used ≡ true)
    → (j : ℕ) → i ≤ j
    → j < n
    → flag (address j) used ≡ true
AllUsed_step used i n h rest j p q = elim (dec_lt i j) [
  | yes l ↦ rest j l q
  | no l ↦ let e : j ≡ i = omega arith in rw e h
]

pub allocate_ip-some :
    (g : GlobalState) {ip : String}
    → first_free g.used_ips pool_size network_start ≡ some ip
    → allocate_ip g ≡ (record g { used_ips = insert ip true g.used_ips }, ok ip)
unfolding allocate_ip
allocate_ip-some g h = rw h

pub allocate_ip-none :
    (g : GlobalState)
    → first_free g.used_ips pool_size network_start ≡ none
    → allocate_ip g ≡ (g, err pool_exhausted)
unfolding allocate_ip
allocate_ip-none g h = rw h

-- The loop finds the lowest free address, or all are in use.
first_free_cases :
    (used : Dict Bool) (left i : ℕ)
    → ((k : ℕ) × (i ≤ k)
        × (k < i + left)
        × (first_free used left i ≡ some (address k))
        × (flag (address k) used ≡ false)
        × ((j : ℕ) → i ≤ j → j < k → flag (address j) used ≡ true))
      ⊎ ((first_free used left i ≡ none)
          × ((j : ℕ) → i ≤ j → j < i + left → flag (address j) used ≡ true))
first_free_cases used zero i = inr (unfold first_free in refl, λ j p q. absurd (omega arith))
first_free_cases used (suc left) i = elim (Bool-cases (flag (address i) used)) [
  | inr free ↦
      inl (
        i,
        omega arith,
        omega arith,
        rw (first_free_cons, free),
        free,
        λ j p q. absurd (omega arith),
      )
  | inl busy ↦ elim (first_free_cases used left (suc i)) [
    | inl (k, a, b, c, d, e) ↦
        inl (
          k,
          omega arith,
          omega arith,
          rw (first_free_cons, busy) c,
          d,
          AllUsed_step used i k busy e,
        )
    | inr (a, e) ↦ inr (
      rw (first_free_cons, busy) a,
      AllUsed_step used i (i + suc left) busy (λ j p q. e j p (omega arith)),
    )
  ]
]

-- `allocateIP` gives the lowest address of the band that is not in use and marks exactly it as
-- used; if it fails then every address of the band is in use, and nothing has changed.
pub allocate_ip_lem :
    (g : GlobalState)
    → ((k : ℕ) × (network_start ≤ k)
        × (k ≤ network_end)
        × ((allocate_ip g).1 ≡ ok (address k))
        × (flag (address k) g.used_ips ≡ false)
        × ((j : ℕ) → network_start ≤ j → j < k → flag (address j) g.used_ips ≡ true)
        × ((a : String) → flag a (allocate_ip g).0.used_ips ≡ (address k == a || flag a g.used_ips))
        × ((allocate_ip g).0.used_macs ≡ g.used_macs))
      ⊎ ((allocate_ip g ≡ (g, err pool_exhausted))
          × ((j : ℕ) → network_start ≤ j → j ≤ network_end → flag (address j) g.used_ips ≡ true))
allocate_ip_lem g = elim (first_free_cases g.used_ips pool_size network_start) [
  | inr (a, e) ↦ inr (allocate_ip-none g a, λ j p q. e j p (omega arith))
  | inl (k, a, b, c, d, e) ↦
      let r = allocate_ip-some g c in
      inl (k, a, omega arith, rw r, d, e, λ s. rw r (flag-insert s (address k) g.used_ips), rw r)
]
