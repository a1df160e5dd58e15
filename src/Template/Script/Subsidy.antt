-- ===== src/Template/Script/Subsidy.antt =====
-- Theorems on `block_subsidy_sat` of src/template.rs.
use native.Mathlib.Nat.{pow-suc, div-div-eq-div-mul}
use native.Mathlib.Numerals.{towards_suc}
use native.Mathlib.Decide.{dec_lt}
use stratum_bee.Base.{
  leb, if◌then◌else◌, le→leb, lt→leb_false, ℕ, ◌+◌, ◌/◌, ◌^◌, ◌≡◌, sym, ap, ◌∙◌, arith,
}
use stratum_bee.Template.Script.{block_subsidy_sat}

halving :
    (k : ℕ)
    → (if leb 64 (k + 1) then 0 else 5_000_000_000 / 2 ^ (k + 1))
      ≡ (if leb 64 k then 0 else 5_000_000_000 / 2 ^ k) / 2
halving k = elim (dec_lt k 63) [
  | yes small ↦
      rw (lt→leb_false 64 (k + 1) (omega arith), lt→leb_false 64 k (omega arith))
        (sym (
          div-div-eq-div-mul 5_000_000_000 (2 ^ k) 2
          ∙ ap (λ (n : ℕ). 5_000_000_000 / n) (simp towards_suc (sym (pow-suc 2 k)))))
  | no large ↦ elim (dec_lt k 64) [
    | yes last ↦ let e : k ≡ 63 = omega arith in rw e
    | no none_left ↦ rw (le→leb 64 (k + 1) (omega arith), le→leb 64 k (omega arith))
  ]
]

-- 210 000 blocks later the subsidy is half of what it was, rounded down.
pub block_subsidy_sat-halves :
    (height : ℕ) → block_subsidy_sat (height + 210_000) ≡ block_subsidy_sat height / 2
unfolding block_subsidy_sat
block_subsidy_sat-halves height =
    let e : (height + 210_000) / 210_000 ≡ height / 210_000 + 1 = omega arith in
    rw e (halving (height / 210_000))
