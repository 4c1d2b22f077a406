-- ===== src/Ir/PreflightLimit.antt =====
-- `preflight_script_encoding_with_limit` of rules/ir.rs under two limits.
use bash_lume.Base.{
  ℕ, ◌≤◌, ◌≡◌, ◌⊎◌, refl, Bool, not, Bytes, Result, ok, err, arith, ltb, ltb→le, le→ltb, Bool-cases,
  inl, inr, min, saturating_add,
}
use bash_lume.Base.Outcome.{ok-injective}
use bash_lume.Base.Utf8.{valid_utf8}
use bash_lume.Ir.Types.{IrError}
use bash_lume.Ir.Limits.{Sizes, max_script_aggregate_bytes}
use bash_lume.Ir.JsonScan.{Preflight}
use bash_lume.Ir.Preflight.{
  modules, preflight_start, preflight_used, preflight_total, preflight_script_encoding_with_limit,
}
use bash_lume.Ir.ScanGrows.{IsBudgeted}
use bash_lume.Ir.PreflightGrows.{Grows-modules}

Result-cases :
    {A : Type 0} (r : Result IrError A) → ((e : IrError) × (r ≡ err e)) ⊎ ((a : A) × (r ≡ ok a))
Result-cases (err e) = inl (e, refl)
Result-cases (ok a) = inr (a, refl)

preflight_start-IsBudgeted :
    (bytes : Bytes) (used limit : ℕ) → used ≤ limit → IsBudgeted (preflight_start bytes used limit)
unfolding saturating_add
preflight_start-IsBudgeted bytes used limit h = omega (arith, h)

total-le : (s : Preflight) → IsBudgeted s → saturating_add s.used s.scratch_total ≤ s.limit_bytes
unfolding saturating_add
total-le s h = omega (arith, h)

module _ (Z : Sizes) where
  modules-grows :
      (bytes : Bytes) (used limit limit' n : ℕ)
      → used ≤ limit
      → limit ≤ limit'
      → preflight_total (modules Z (preflight_start bytes used limit)) ≡ ok n
      → (n ≤ limit) × (preflight_total (modules Z (preflight_start bytes used limit')) ≡ ok n)
  modules-grows bytes used limit limit' n fits le h =
      elim (Result-cases (modules Z (preflight_start bytes used limit))) [
        | inl (e, failed) ↦ cc (rw failed at h)
        | inr ((done, s), passed) ↦
            let (same, budget, again) =
              (Grows-modules Z).run (preflight_start bytes used limit) done s limit'
                (preflight_start-IsBudgeted bytes used limit fits) le passed in
            let charged : saturating_add s.used s.scratch_total ≡ n =
              ok-injective (rw passed at h) in
            (omega (arith, total-le s budget, same, charged), rw again (rw charged refl))
      ]

  -- Where the preflight passes a text under an allocation limit, what it charges is within that limit and within
  -- 64 MiB, and under any larger limit it passes the text with the same charge.
  pub preflight_script_encoding_with_limit-grows :
      (bytes : Bytes) (allocation_limit larger_limit : ℕ) (charge_encoded_bytes : Bool)
      (charged : ℕ)
      → allocation_limit ≤ larger_limit
      → preflight_script_encoding_with_limit Z bytes allocation_limit charge_encoded_bytes
        ≡ ok charged
      → (charged ≤ allocation_limit)
        × (charged ≤ max_script_aggregate_bytes)
        × (preflight_script_encoding_with_limit Z bytes larger_limit charge_encoded_bytes
            ≡ ok charged)
  unfolding preflight_script_encoding_with_limit
  preflight_script_encoding_with_limit-grows bytes allocation_limit larger_limit
        charge_encoded_bytes charged le h =
      let used = preflight_used Z bytes charge_encoded_bytes in
      let limit = min allocation_limit max_script_aggregate_bytes in
      let limit' = min larger_limit max_script_aggregate_bytes in
      elim (Bool-cases (not (valid_utf8 bytes))) [
        | inl bad ↦ cc (rw bad at h)
        | inr good ↦ elim (Bool-cases (ltb limit used)) [
          | inl over ↦ cc (rw (good, over) at h)
          | inr within ↦
              let fits = ltb→le used limit within in
              let (small, again) =
                modules-grows bytes used limit limit' charged fits (omega (arith, le))
                  (rw (good, within) at h) in
              (
                omega (arith, small),
                omega (arith, small),
                rw good (rw (le→ltb used limit' (omega (arith, fits, le))) again),
              )
        ]
      ]
