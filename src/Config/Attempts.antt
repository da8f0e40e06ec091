-- ===== src/Config/Attempts.antt =====
-- src/MakerbaseParseIni.cpp: when the attempts of `mksini_save` end.
use qidi_plus.Base.{
  ℕ, zero, suc, ◌+◌, ◌<◌, ◌≡◌, refl, ◌⊎◌, inl, inr, Bool, true, false, Bool-cases, arith,
}
use qidi_plus.Config.{Saved, after_sleep, attempts, mksini_save}

-- From attempt `k` on, with `n` left: the first one that finds the file free writes it, or none does.
abbrev Ends : (ℕ → Bool) → Bool → ℕ → ℕ → Saved → Type 0
Ends locked opens n k s =
    ((i : ℕ) × (i < n)
      × ((j : ℕ) → j < i → locked (k + j) ≡ true)
      × (locked (k + i) ≡ false)
      × (s.written ≡ opens)
      × (s.slept ≡ i))
    ⊎ (((j : ℕ) → j < n → locked (k + j) ≡ true) × (s.written ≡ false) × (s.slept ≡ n))

before :
    (locked : ℕ → Bool) (k i : ℕ)
    → locked k ≡ true
    → ((j : ℕ) → j < i → locked (k + 1 + j) ≡ true)
    → (j : ℕ) → j < suc i
    → locked (k + j) ≡ true
before locked k i now later zero lt = ground arith
before locked k i now later (suc j) lt = let h = later j in ground arith

attempts-Ends :
    (locked : ℕ → Bool) (opens : Bool) (n k : ℕ) → Ends locked opens n k (attempts locked opens n k)
unfolding attempts after_sleep
attempts-Ends locked opens zero k = inr (λ j lt. ground arith, refl, refl)
attempts-Ends locked opens (suc n) k =
    let rest = attempts-Ends locked opens n (k + 1) in
    elim (Bool-cases (locked k)) [
      | inl busy ↦ elim rest [
        | inl (i, lt, earlier, free, w, s) ↦ inl (
          suc i,
          ground arith,
          before locked k i busy earlier,
          ground arith,
          ground arith,
          ground arith,
        )
        | inr (all, w, s) ↦ inr (before locked k n busy all, ground arith, ground arith)
      ]
      | inr free ↦
          inl (0, ground arith, λ j lt. ground arith, ground arith, ground arith, ground arith)
    ]

-- Saving the configuration ends: either one of five attempts is the first to find the file unlocked,
-- it writes the file when the file can be opened, and as many seconds were waited as there were
-- attempts before it; or all five find it locked, nothing is written and five seconds were waited.
pub mksini_save_lem :
    (locked : ℕ → Bool) (opens : Bool)
    → ((i : ℕ) × (i < 5)
        × ((j : ℕ) → j < i → locked j ≡ true)
        × (locked i ≡ false)
        × ((mksini_save locked opens).written ≡ opens)
        × ((mksini_save locked opens).slept ≡ i))
      ⊎ (((j : ℕ) → j < 5 → locked j ≡ true)
          × ((mksini_save locked opens).written ≡ false)
          × ((mksini_save locked opens).slept ≡ 5))
unfolding mksini_save
mksini_save_lem locked opens = elim (attempts-Ends locked opens 5 0) [
  | inl (i, lt, earlier, free, w, s) ↦
      inl (i, lt, λ j k. let h = earlier j k in ground arith, ground arith, w, s)
  | inr (all, w, s) ↦ inr (λ j k. let h = all j k in ground arith, w, s)
]
