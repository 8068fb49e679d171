-- ===== src/Switch/Ageing.antt =====
-- What a sweep leaves.
use ucas_computer_network.Common.{
  ℕ, zero, suc, ◌-◌, ◌<◌, ◌≤◌, ◌≡◌, refl, false, arith, ◌==◌, keep, Bool-cases, inl, inr, ◌∙◌,
}
use ucas_computer_network.Switch.{MacPortMap, is_young, sweep_from, sweep_aged_mac_port_entry}

sweep_from-before :
    (now n : ℕ) (t : MacPortMap) (h : ℕ) → n ≤ 256 → h < 256 - n → sweep_from now n t h ≡ t h
unfolding sweep_from
sweep_from-before now zero t h l k = refl
sweep_from-before now (suc n) t h l k =
    let other : (h == (256 - suc n)) ≡ false = ground arith in
    sweep_from-before now n _ h (omega arith) (omega arith) ∙ rw other refl

sweep_from-keep :
    (now n : ℕ) (t : MacPortMap) (h : ℕ)
    → n ≤ 256
    → 256 - n ≤ h
    → h < 256
    → sweep_from now n t h ≡ keep (is_young now) (t h)
unfolding sweep_from
sweep_from-keep now zero t h l a b = absurd (omega arith)
sweep_from-keep now (suc n) t h l a b = elim (Bool-cases (h == (256 - suc n))) [
  | inl here ↦
      let at : 256 - suc n ≡ h = ground arith in
      sweep_from-before now n _ h (omega arith) (ground arith) ∙ rw (here, at) refl
  | inr later ↦ sweep_from-keep now n _ h (omega arith) (ground arith) b ∙ rw later refl
]

-- A sweep leaves in each of the 256 buckets exactly the entries visited in the last 30 seconds, in
-- their order.
pub sweep-keep :
    (now : ℕ) (t : MacPortMap) (h : ℕ)
    → h < 256
    → sweep_aged_mac_port_entry now t h ≡ keep (is_young now) (t h)
unfolding sweep_aged_mac_port_entry
sweep-keep now t h l = sweep_from-keep now 256 t h (omega arith) (omega arith) l
