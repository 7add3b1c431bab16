-- ===== src/Collect/Collected.antt =====
-- What a loop that ends without an error has made.
use group_sync_operator.Prelude.{
  ◌≡◌, ◌↔◌, refl, Bool, true, none, some, List, [], ◌∷◌, ◌++◌, map, All, ok, err, panic, Bool-cases,
  inl, inr, if◌then◌else◌,
}
use group_sync_operator.Collect.{Fuelled, next, put_first, collect}

pub next-eq_ok {ℓ κ} :
    {A : Type ℓ} {B : Type κ} (r : Fuelled A) (f : A → Fuelled B) (b : B)
    → next r f ≡ some (ok b)
    → (a : A) × (r ≡ some (ok a)) × (f a ≡ some (ok b))
next-eq_ok none f b h = absurd (cc)
next-eq_ok (some (ok a)) f b h = (a, refl, h)
next-eq_ok (some (err e)) f b h = absurd (cc)
next-eq_ok (some panic) f b h = absurd (cc)

-- The groups that are kept.
abbrev pub kept {ℓ} : {G : Type ℓ} → (G → Bool) → List G → List G
kept keep [] = []
kept keep (g ∷ gs) = if keep g then g ∷ kept keep gs else kept keep gs

module _ {G O : Type 0} (keep : G → Bool) (make : G → Fuelled O) where
  -- Each of the groups was made, in order.
  abbrev pub Made : List G → List O → Type 0
  Made [] [] = Unit
  Made [] (o ∷ os) = ⊥
  Made (g ∷ gs) [] = ⊥
  Made (g ∷ gs) (o ∷ os) = (make g ≡ some (ok o)) × Made gs os

  Made-first :
      (g : G) (gs : List G) (rest : Fuelled (List O)) (os : List O)
      → ((os : List O) → rest ≡ some (ok os) → Made gs os)
      → next (make g) (λ o. put_first o rest) ≡ some (ok os)
      → Made (g ∷ gs) os
  Made-first g gs rest os ih h =
      let first : _ = next-eq_ok (make g) (λ o. put_first o rest) os h in
      let others : _ = next-eq_ok rest (λ os. some (ok (first.0 ∷ os))) os first.2 in
      let e : (first.0 ∷ others.0) ≡ os = cc in rw (← e) (first.1, ih others.0 others.1)

  pub collect-Made :
      (gs : List G) (os : List O) → collect keep make gs ≡ some (ok os) → Made (kept keep gs) os
  unfolding collect
  collect-Made [] [] h = tt
  collect-Made [] (o ∷ os) h = absurd (cc)
  collect-Made (g ∷ gs) os h = elim (Bool-cases (keep g)) [
    | inl e ↦
        rw e (Made-first g (kept keep gs) (collect keep make gs) os (collect-Made gs) (rw e at h))
    | inr e ↦ rw e (collect-Made gs os (rw e at h))
  ]

  first-Made :
      (g : G) (gs : List G) (rest : Fuelled (List O)) (os : List O)
      → ((os : List O) → Made gs os → rest ≡ some (ok os))
      → Made (g ∷ gs) os
      → next (make g) (λ o. put_first o rest) ≡ some (ok os)
  first-Made g gs rest [] ih h = absurd h
  first-Made g gs rest (o ∷ os) ih h = rw (h.0, ih os h.1) refl

  pub Made-collect :
      (gs : List G) (os : List O) → Made (kept keep gs) os → collect keep make gs ≡ some (ok os)
  unfolding collect
  Made-collect [] [] h = refl
  Made-collect [] (o ∷ os) h = absurd h
  Made-collect (g ∷ gs) os h = elim (Bool-cases (keep g)) [
    | inl e ↦
        rw e (first-Made g (kept keep gs) (collect keep make gs) os (Made-collect gs) (rw e at h))
    | inr e ↦ rw e (Made-collect gs os (rw e at h))
  ]

  collect_iff :
      (gs : List G) (os : List O) → (collect keep make gs ≡ some (ok os)) ↔ Made (kept keep gs) os
  collect_iff gs os = (collect-Made gs os, Made-collect gs os)

  -- If each kept group is made as `f` says, the loop answers these.
  pub collect-map :
      (f : G → O) (gs : List G)
      → All (λ g. keep g ≡ true → make g ≡ some (ok (f g))) gs
      → collect keep make gs ≡ some (ok (map f (kept keep gs)))
  unfolding collect
  collect-map f [] h = refl
  collect-map f (g ∷ gs) h = elim (Bool-cases (keep g)) [
    | inl e ↦ rw (e, h.0 e, collect-map f gs h.1) refl
    | inr e ↦ rw (e, collect-map f gs h.1) refl
  ]

  -- A kept group that is not made within the fuel ends the loop without a result, if the groups
  -- before it are made.
  pub collect-none :
      (before after : List G) (g : G)
      → All (λ b. (o : O) × (make b ≡ some (ok o))) before
      → keep g ≡ true
      → make g ≡ none
      → collect keep make (before ++ g ∷ after) ≡ none
  unfolding collect
  collect-none [] after g h k m = rw (k, m) refl
  collect-none (b ∷ before) after g h k m = elim (Bool-cases (keep b)) [
    | inl e ↦ rw (e, h.0.1, collect-none before after g h.1 k m) refl
    | inr e ↦ rw (e, collect-none before after g h.1 k m) refl
  ]
