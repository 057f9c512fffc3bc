-- ===== src/Senses/Score/Verdicts.antt =====
-- What the two verdicts say that are not about one threshold.
use wird.Prelude.{◌≡◌, ◌↔◌, ◌⊎◌, true, false, not, length, ◌<◌, ◌≤◌, arith}
use wird.Senses.Score.{Floats, Result, Bar, verified_sense, leads_with_minority, verified, verdict}

module _ {F : Type 0} (fl : Floats F) (r : Result F) (bar : Bar F) where
  abbrev pub Passes : Type 0
  Passes =
      (fl.at_most bar.score r.score ≡ true)
      × (fl.less bar.coverage r.coverage ≡ true)
      × (bar.dispersion ≤ r.dispersion)
      × (fl.at_most r.branch bar.branch ≡ true)

  -- Where no number is a NaN: a sense is called verified exactly if it has two slots and passes the
  -- ship gate, and is said to lead with a minority branch exactly if it has two slots, passes all four
  -- thresholds, and either does hit fewer than two slots or does not lead.
  pub verdict_exact :
      (no_nan : (a b : F) → fl.less a b ≡ not (fl.at_most b a))
      → ((verdict fl r bar ≡ verified_sense) ↔ ((2 ≤ length r.slots) × (verified fl r bar ≡ true)))
        × ((verdict fl r bar ≡ leads_with_minority)
            ↔ ((2 ≤ length r.slots) × Passes × ((r.slots_hit < 2) ⊎ (r.leads ≡ false))))
  unfolding verdict verified
  verdict_exact no_nan = (
    ((λ h. ground (arith, h)), (λ h. ground (arith, h))),
    (
      (λ h. ground (
        arith,
        h,
        no_nan r.score bar.score,
        no_nan bar.coverage r.coverage,
        no_nan bar.branch r.branch,
      )),
      (λ h. ground (
        arith,
        h,
        no_nan r.score bar.score,
        no_nan bar.coverage r.coverage,
        no_nan bar.branch r.branch,
      )),
    ),
  )
