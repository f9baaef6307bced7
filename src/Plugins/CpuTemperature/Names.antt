-- ===== src/Plugins/CpuTemperature/Names.antt =====
-- The name that CPU_temperature makes of the label of a core.
use phantom_monitoring_clien.Base.{
  ℕ, zero, suc, ◌-◌, ◌++◌, none, drop, length, ltb, sym, append-nil, ◌≡◌, ◌⊎◌, refl, ap, ◌∙◌, [],
  some, Bool, true, false, Bytes, codes, if◌then◌else◌, inl, inr, >>=-eq-some,
}
use phantom_monitoring_clien.Plugins.CpuTemperature.{copy_rest, my_label, core_name}

pub if-cases :
    {A : Type 0} (b : Bool) (x y z : A)
    → (if b then x else y) ≡ z
    → ((b ≡ true) × (x ≡ z)) ⊎ ((b ≡ false) × (y ≡ z))
if-cases true x y z e = inl (refl, e)
if-cases false x y z e = inr (refl, e)

drop_nil : (n : ℕ) → drop {A = ℕ} n [] ≡ []
drop_nil zero = refl
drop_nil (suc n) = refl

copied_rest :
    (label corenum : Bytes) → copy_rest 5 3 label [] ≡ some corenum → corenum ≡ drop 5 label
unfolding copy_rest
copied_rest label corenum e =
    elim (if-cases (ltb (length label) 5) none
      (if ltb 3 (length label - 5) then none else some (drop 5 label ++ drop (length label - 5) []))
      (some corenum) e) [
        | inl (short, none_) ↦ absurd cc
        | inr (enough, inner) ↦
            elim (if-cases (ltb 3 (length label - 5)) none
              (some (drop 5 label ++ drop (length label - 5) [])) (some corenum) inner) [
                | inl (long, none_) ↦ absurd cc
                | inr (fits, done) ↦
                    let same : drop 5 label ++ drop (length label - 5) [] ≡ corenum = cc in
                    sym same
                    ∙ ap (λ x. drop 5 label ++ x) (drop_nil (length label - 5))
                    ∙ append-nil (drop 5 label)
              ]
      ]

labelled :
    (chipnum corenum name : Bytes)
    → my_label chipnum corenum ≡ some name
    → name ≡ codes "CPU" ++ (chipnum ++ (codes ":core" ++ corenum))
unfolding my_label
labelled chipnum corenum name e =
    let text = codes "CPU" ++ (chipnum ++ (codes ":core" ++ corenum)) in
    elim (if-cases (ltb (length chipnum) 2) (if ltb (length corenum) 3 then some text else none)
      none (some name) e) [
        | inr (long, none_) ↦ absurd cc
        | inl (fits, inner) ↦
            elim (if-cases (ltb (length corenum) 3) (some text) none (some name) inner) [
              | inr (long, none_) ↦ absurd cc
              | inl (fits', done) ↦ let same : text ≡ name = cc in sym same
            ]
      ]

-- The name of a core is made of the two numbers.
pub core_name_lem :
    (chipnum label name : Bytes)
    → core_name chipnum label ≡ some name
    → name ≡ codes "CPU" ++ (chipnum ++ (codes ":core" ++ drop 5 label))
unfolding core_name
core_name_lem chipnum label name e =
    let (corenum, e1, l1) = >>=-eq-some (copy_rest 5 3 label []) (my_label chipnum) e in
    labelled chipnum corenum name l1
    ∙ ap (λ x. codes "CPU" ++ (chipnum ++ (codes ":core" ++ x))) (copied_rest label corenum e1)
