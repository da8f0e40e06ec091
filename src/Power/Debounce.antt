-- ===== src/Power/Debounce.antt =====
-- src/mks_gpio.cpp: when the monitor switches off.
use qidi_plus.Base.{
  ℕ, ◌+◌, ◌%◌, ◌≡◌, refl, ap, Bool, true, false, leb, ltb, lt→ltb, ◌==◌, ◌&&◌, if◌then◌else◌,
  Bool-cases, inl, inr, List, [], ◌∷◌, arith,
}
use qidi_plus.Power.{Round, timeout, other, reads, Effect, switch_off, debounce, monitor_gpio1_c3}

-- The number of reads without a low one among them, up to this round, from the number before it.
abbrev pub streak : Round → ℕ → ℕ
streak timeout n = n
streak other n = n
streak (reads val) n = if val == b'1' then n + 1 else 0

abbrev pub is_read : Round → Bool
is_read (reads val) = true
is_read _ = false

-- What each round is to do: switch off where the read completes another six high ones.
pub expected : List Round → ℕ → List (List Effect)
expected [] n = []
expected (r ∷ rs) n =
    let m = streak r n in
    (if is_read r && (m % 6 == 0 && ltb 0 m) then switch_off else []) ∷ expected rs m

-- From a counter that stands at the reads since the last low one, modulo 6, the monitor switches
-- off exactly at every sixth of consecutive high reads; rounds without a read do not count.
pub monitor_gpio1_c3-expected :
    (rs : List Round) (n : ℕ) → monitor_gpio1_c3 rs (n % 6) ≡ expected rs n
unfolding monitor_gpio1_c3 debounce expected
monitor_gpio1_c3-expected [] n = refl
monitor_gpio1_c3-expected (timeout ∷ rs) n = ap (◌∷◌ []) (monitor_gpio1_c3-expected rs n)
monitor_gpio1_c3-expected (other ∷ rs) n = ap (◌∷◌ []) (monitor_gpio1_c3-expected rs n)
monitor_gpio1_c3-expected (reads val ∷ rs) n =
    let later = monitor_gpio1_c3-expected rs (n + 1) in
    elim (Bool-cases (val == b'1')) [
      | inl high ↦ rw high (elim (Bool-cases (leb 5 (n % 6))) [
        | inl sixth ↦
            (let wrapped : (n + 1) % 6 ≡ 0 = ground arith in
              rw (sixth, wrapped, lt→ltb 0 (n + 1) (omega arith))
                (ap (◌∷◌ switch_off) (rw wrapped at later)))
        | inr fewer ↦
            (let counted : (n + 1) % 6 ≡ n % 6 + 1 = ground arith in
              let short : (n % 6 + 1 == 0) ≡ false = ground arith in
              rw (fewer, counted, short) (ap (◌∷◌ []) (rw counted at later)))
      ])
      | inr low ↦ rw low (ap (◌∷◌ []) (monitor_gpio1_c3-expected rs 0))
    ]
