-- ===== src/Cache/Slots.antt =====
-- Writes to one slot of one device, and the slots that they leave alone.
use mathlib.Core.Path.{fun_ext}
use mathlib.Core.Option
use cl_kmeans.Prelude.{
  ℕ, List, some, ◌≡◌, ◌≢◌, sym, ap, ◌∙◌, ◌⊎◌, inl, inr, get_elem?, modify, modify-const,
  modify_self, modify-modify, get_elem?-modify_self, get_elem?-modify_ne, Option-cases, arith,
  ℕ_discrete, subst,
}
use cl_kmeans.Cache.State.{Slot, DeviceInfo, slot_in, slot_of, modify_slots}

abbrev pub put : List DeviceInfo → ℕ → ℕ → Slot → List DeviceInfo
put devs did i s = modify devs did (modify_slots i (λ _. s))

pub slot_of-some :
    (devs : List DeviceInfo) (did i : ℕ) {s : Slot}
    → slot_of devs did i ≡ some s
    → (dev : DeviceInfo) × (get_elem? devs did ≡ some dev) × (get_elem? dev.slots i ≡ some s)
slot_of-some devs did i h = elim (Option-cases (get_elem? devs did)) [
  | inl e ↦ absurd (ground arith)
  | inr (dev, e) ↦ (dev, e, ground arith)
]

module _ (devs : List DeviceInfo) (did i : ℕ) where
  pub modify-put :
      (f : Slot → Slot) {s : Slot}
      → slot_of devs did i ≡ some s
      → modify devs did (modify_slots i f) ≡ put devs did i (f s)
  modify-put f {s} h =
      let (dev, e, e') = slot_of-some devs did i h in
      modify-const devs did (modify_slots i f) e
      ∙ ap (λ slots. modify devs did (λ _. record dev { slots = slots }))
          (modify-const dev.slots i f e')
      ∙ sym (modify-const devs did (modify_slots i (λ _. f s)) e)

  pub put_self : {s : Slot} → slot_of devs did i ≡ some s → put devs did i s ≡ devs
  put_self {s} h =
      let (dev, e, e') = slot_of-some devs did i h in
      modify-const devs did (modify_slots i (λ _. s)) e
      ∙ ap (λ slots. modify devs did (λ _. record dev { slots = slots }))
          (modify_self dev.slots i e')
      ∙ modify_self devs did e

  -- The device itself after the write.
  pub get_elem?-put :
      (s' : Slot) {dev : DeviceInfo}
      → get_elem? devs did ≡ some dev
      → get_elem? (put devs did i s') did ≡ some (modify_slots i (λ _. s') dev)
  get_elem?-put s' e =
      get_elem?-modify_self devs did (modify_slots i (λ _. s'))
      ∙ ap (Option.map (modify_slots i (λ _. s'))) e

  pub slot_of-put_self :
      (s' : Slot) {s : Slot}
      → slot_of devs did i ≡ some s
      → slot_of (put devs did i s') did i ≡ some s'
  slot_of-put_self s' h =
      let (dev, e, e') = slot_of-some devs did i h in
      ap (λ o. slot_in o i) (get_elem?-put s' e)
      ∙ get_elem?-modify_self dev.slots i (λ _. s')
      ∙ ap (Option.map (λ _. s')) e'

  slot_of-put_other :
      (s' : Slot) (j : ℕ) → i ≢ j → slot_of (put devs did i s') did j ≡ slot_of devs did j
  slot_of-put_other s' j h = elim (Option-cases (get_elem? devs did)) [
    | inl e ↦
        ap (λ o. slot_in o j)
          (get_elem?-modify_self devs did (modify_slots i (λ _. s'))
            ∙ ap (Option.map (modify_slots i (λ _. s'))) e
            ∙ sym e)
    | inr (dev, e) ↦
        ap (λ o. slot_in o j) (get_elem?-put s' e)
        ∙ get_elem?-modify_ne dev.slots i j (λ _. s') h
        ∙ sym (ap (λ o. slot_in o j) e)
  ]

  pub slot_of-put_ne :
      (s' : Slot) (did' j : ℕ)
      → (did ≢ did') ⊎ (i ≢ j)
      → slot_of (put devs did i s') did' j ≡ slot_of devs did' j
  slot_of-put_ne s' did' j (inl h) =
      ap (λ o. slot_in o j) (get_elem?-modify_ne devs did did' (modify_slots i (λ _. s')) h)
  slot_of-put_ne s' did' j (inr h) = elim (ℕ_discrete did did') [
    | yes e ↦
        subst (λ k. slot_of (put devs did i s') k j ≡ slot_of devs k j) e (slot_of-put_other s' j h)
    | no n ↦ ap (λ o. slot_in o j) (get_elem?-modify_ne devs did did' (modify_slots i (λ _. s')) n)
  ]

  pub put-put : (s s' : Slot) → put (put devs did i s) did i s' ≡ put devs did i s'
  put-put s s' =
      modify-modify devs did (modify_slots i (λ _. s)) (modify_slots i (λ _. s'))
      ∙ ap (modify devs did) (
          fun_ext
            (λ dev. ap (λ slots. record dev { slots = slots }) (modify-modify dev.slots i _ _)))
