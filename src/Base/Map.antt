-- ===== src/Base/Map.antt =====
-- `std::map` as a list of entries in the order of their keys.
use Prim.Native.Nat.{ℕ, ◌+◌, Ordering}
use mathlib.Core.Path.{◌≡◌, refl, subst, sym}
use mathlib.Core.Logic.{◌⊎◌, inl, inr}
use mathlib.Core.List.{List, [], ◌∷◌}
use mathlib.Core.Option.{Option, none, some, some-injective}
use native.Mathlib.Omega.{arith}
use extremes.Base.Tests.{if◌then◌else◌}
use extremes.Base.Ordered.{Key, ◌=k◌}

abbrev pub Map {ℓ κ} : Type ℓ → Type κ → Type (ℓ ⊔ κ)
Map K V = List (K × V)

module _ {ℓ κ} {K : Type ℓ} {V : Type κ} ⦃e : Key K⦄ where
  unfoldable pub find : K → Map K V → Option V
  find k [] = none
  find k ((j, v) ∷ m) = if k =k j then some v else find k m

  -- `f(m[k])`: the entry is made where it is missing, and replaced by what `f` gives.
  unfoldable pub upsert : K → (Option V → V) → Map K V → Map K V
  upsert k f [] = (k, f none) ∷ []
  upsert k f ((j, v) ∷ m) = elim (e.cmp k j) [
    | Ordering.lt ↦ (k, f none) ∷ (j, v) ∷ m
    | Ordering.eq ↦ (j, f (some v)) ∷ m
    | Ordering.gt ↦ (j, v) ∷ upsert k f m
  ]

  unfoldable pub erase : K → Map K V → Map K V
  erase k [] = []
  erase k ((j, v) ∷ m) = if k =k j then m else (j, v) ∷ erase k m

  -- `m[k] = v`
  abbrev pub insert : K → V → Map K V → Map K V
  insert k v = upsert k (λ _. v)

  -- The keys stand in strictly rising order, above `k`.
  abbrev pub Above : K → Map K V → Type ℓ
  Above k [] = Unit
  Above k ((j, _) ∷ m) = (e.cmp k j ≡ Ordering.lt) × Above k m

  abbrev pub IsSorted : Map K V → Type ℓ
  IsSorted [] = Unit
  IsSorted ((k, _) ∷ m) = Above k m × IsSorted m

module _ {ℓ κ} {K : Type ℓ} {V : Type κ} ⦃e : Key K⦄ where
  pub find-insert :
      (j k : K) (v : V) (m : Map K V)
      → find j (insert k v m) ≡ (if j =k k then some v else find j m)
  unfolding find upsert
  find-insert j k v [] = refl
  find-insert j k v ((i, w) ∷ m) =
      ground (arith, e.cmp_eq k i, e.cmp_eq j i, e.cmp_eq j k, e.cmp_refl k, find-insert j k v m)

  Above-trans : (j k : K) (m : Map K V) → e.cmp j k ≡ Ordering.lt → Above k m → Above j m
  Above-trans j k [] h a = tt
  Above-trans j k ((i, v) ∷ m) h a = (e.cmp_trans j k i h a.0, Above-trans j k m h a.1)

  pub find-Above : (k : K) (m : Map K V) → Above k m → find k m ≡ none
  unfolding find
  find-Above k [] a = refl
  find-Above k ((j, v) ∷ m) a = ground (arith, find-Above k m a.1)

  pub find-upsert_self :
      (k : K) (f : Option V → V) (m : Map K V)
      → IsSorted m
      → find k (upsert k f m) ≡ some (f (find k m))
  unfolding find upsert
  find-upsert_self k f [] s = ground (arith, e.cmp_refl k)
  find-upsert_self k f ((i, v) ∷ m) s =
      ground (
        arith,
        e.cmp_eq k i,
        e.cmp_refl k,
        find-upsert_self k f m,
        find-Above k m,
        Above-trans k i m,
      )

  -- An entry changed, made or left alone.
  pub find-upsert :
      (j k : K) (f : Option V → V) (m : Map K V)
      → IsSorted m
      → find j (upsert k f m) ≡ (if j =k k then some (f (find k m)) else find j m)
  unfolding find upsert
  find-upsert j k f [] s = refl
  find-upsert j k f ((i, v) ∷ m) s = ground (
    arith,
    e.cmp_eq k i,
    e.cmp_eq j i,
    e.cmp_eq j k,
    e.cmp_refl k,
    find-upsert j k f m,
    find-Above k m,
    Above-trans k i m,
  )

  Above-upsert :
      (j k : K) (f : Option V → V) (m : Map K V)
      → e.cmp j k ≡ Ordering.lt
      → Above j m
      → Above j (upsert k f m)
  unfolding upsert
  Above-upsert j k f [] h a = (h, tt)
  Above-upsert j k f ((i, v) ∷ m) h a = ground (arith, Above-upsert j k f m h)

  pub upsert-IsSorted :
      (k : K) (f : Option V → V) (m : Map K V) → IsSorted m → IsSorted (upsert k f m)
  unfolding upsert
  upsert-IsSorted k f [] s = (tt, tt)
  upsert-IsSorted k f ((i, v) ∷ m) s =
      ground (arith, upsert-IsSorted k f m, Above-upsert i k f m, e.cmp_flip k i, Above-trans k i m)

  Above-erase : (j k : K) (m : Map K V) → Above j m → Above j (erase k m)
  unfolding erase
  Above-erase j k [] a = tt
  Above-erase j k ((i, v) ∷ m) a = ground (arith, Above-erase j k m)

  pub erase-IsSorted : (k : K) (m : Map K V) → IsSorted m → IsSorted (erase k m)
  unfolding erase
  erase-IsSorted k [] s = tt
  erase-IsSorted k ((i, v) ∷ m) s = ground (arith, erase-IsSorted k m, Above-erase i k m)

abbrev pub weight_at {κ} : {V : Type κ} → (V → ℕ) → Option V → ℕ
weight_at w none = 0
weight_at w (some v) = w v

Ordering-cases : (o : Ordering) → (o ≡ Ordering.lt) ⊎ (o ≡ Ordering.eq) ⊎ (o ≡ Ordering.gt)
Ordering-cases Ordering.lt = inl refl
Ordering-cases Ordering.eq = inr (inl refl)
Ordering-cases Ordering.gt = inr (inr refl)

-- Sums over the entries, and predicates of every entry.
module _ {ℓ κ} {K : Type ℓ} {V : Type κ} where
  abbrev pub weight : (V → ℕ) → Map K V → ℕ
  weight w [] = 0
  weight w ((k, v) ∷ m) = w v + weight w m

  abbrev pub Every {μ} : (K → V → Type μ) → Map K V → Type μ
  Every P [] = Unit
  Every P ((k, v) ∷ m) = P k v × Every P m

pub Every-mono {ℓ κ μ ν} :
    {K : Type ℓ} {V : Type κ} (P : K → V → Type μ) (Q : K → V → Type ν) (m : Map K V)
    → ((k : K) (v : V) → P k v → Q k v)
    → Every P m
    → Every Q m
Every-mono P Q [] h p = tt
Every-mono P Q ((k, v) ∷ m) h p = (h k v p.0, Every-mono P Q m h p.1)

module _ {ℓ κ} {K : Type ℓ} {V : Type κ} ⦃e : Key K⦄ where
  pub weight-upsert :
      (w : V → ℕ) (k : K) (f : Option V → V) (m : Map K V)
      → IsSorted m
      → weight w (upsert k f m) + weight_at w (find k m) ≡ weight w m + w (f (find k m))
  unfolding upsert find
  weight-upsert w k f [] s = omega arith
  weight-upsert w k f ((j, v) ∷ m) s =
      ground (arith, weight-upsert w k f m s.1, find-Above k m, Above-trans k j m)

  pub weight-erase :
      (w : V → ℕ) (k : K) (m : Map K V) → weight w (erase k m) + weight_at w (find k m) ≡ weight w m
  unfolding erase find
  weight-erase w k [] = refl
  weight-erase w k ((j, v) ∷ m) = ground (arith, weight-erase w k m)

  pub find-Every {μ} :
      (P : K → V → Type μ) (k : K) (m : Map K V) {v : V} → find k m ≡ some v → Every P m → P k v
  unfolding find
  find-Every P k [] h p = cc
  find-Every P k ((j, w) ∷ m) {v} h p = elim (Ordering-cases (e.cmp k j)) [
    | inl o ↦ find-Every P k m (ground arith) p.1
    | inr (inl o) ↦
        let same : w ≡ v = some-injective w v (ground arith) in
        subst (λ i. P i v) (sym (e.cmp_eq k j o)) (subst (P j) same p.0)
    | inr (inr o) ↦ find-Every P k m (ground arith) p.1
  ]

  pub upsert-Every {μ} :
      (P : K → V → Type μ) (k : K) (f : Option V → V) (m : Map K V)
      → P k (f none)
      → ((v : V) → P k v → P k (f (some v)))
      → Every P m
      → Every P (upsert k f m)
  unfolding upsert
  upsert-Every P k f [] new old p = (new, tt)
  upsert-Every P k f ((j, w) ∷ m) new old p = elim (Ordering-cases (e.cmp k j)) [
    | inl o ↦ rw (o, upsert) (new, p)
    | inr (inl o) ↦
        let same : k ≡ j = e.cmp_eq k j o in
        rw (o, upsert)
          (subst (λ i. P i (f (some w))) same (old w (subst (λ i. P i w) (sym same) p.0)), p.1)
    | inr (inr o) ↦ rw (o, upsert) (p.0, upsert-Every P k f m new old p.1)
  ]

  pub erase-Every {μ} : (P : K → V → Type μ) (k : K) (m : Map K V) → Every P m → Every P (erase k m)
  unfolding erase
  erase-Every P k [] p = tt
  erase-Every P k ((j, w) ∷ m) p = ground (arith, erase-Every P k m p.1)

  -- An entry that stands further down is found there.
  pub find-cons-Above :
      (j k : K) (v w : V) (m : Map K V)
      → Above k m
      → find j m ≡ some v
      → find j ((k, w) ∷ m) ≡ some v
  unfolding find
  find-cons-Above j k v w m a h = ground (arith, e.cmp_eq j k, find-Above k m a)
