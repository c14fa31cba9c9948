-- ===== src/Base/Ordered.antt =====
-- Keys of `std::map`: a comparison with its laws, for numbers and for strings.
use Prim.Native.Nat.{ℕ, compare, Ordering}
use mathlib.Core.Path.{◌≡◌, refl}
use mathlib.Core.Bool.{Bool, true, false}
use mathlib.Core.List.{List, [], ◌∷◌}
use native.Mathlib.Omega.{arith}

pub record Key {ℓ} (K : Type ℓ) : Type ℓ where
  pub cmp : K → K → Ordering
  pub cmp_eq : (a b : K) → cmp a b ≡ Ordering.eq → a ≡ b
  pub cmp_refl : (a : K) → cmp a a ≡ Ordering.eq
  pub cmp_flip : (a b : K) → cmp a b ≡ Ordering.gt → cmp b a ≡ Ordering.lt
  pub cmp_trans :
      (a b c : K) → cmp a b ≡ Ordering.lt → cmp b c ≡ Ordering.lt → cmp a c ≡ Ordering.lt

module _ {ℓ} {K : Type ℓ} ⦃e : Key K⦄ where
  infix 50 ◌=k◌
  abbrev pub ◌=k◌ : K → K → Bool
  a =k b = elim (e.cmp a b) [ Ordering.eq ↦ true | _ ↦ false ]

pub nat_eq : (a b : ℕ) → compare a b ≡ Ordering.eq → a ≡ b
nat_eq a b h = ground arith

pub nat_refl : (a : ℕ) → compare a a ≡ Ordering.eq
nat_refl a = ground arith

pub nat_flip : (a b : ℕ) → compare a b ≡ Ordering.gt → compare b a ≡ Ordering.lt
nat_flip a b h = ground arith

pub nat_trans :
    (a b c : ℕ) → compare a b ≡ Ordering.lt → compare b c ≡ Ordering.lt → compare a c ≡ Ordering.lt
nat_trans a b c h k = ground arith

instance abbrev pub nat_key : Key ℕ
nat_key = record {
  cmp = compare;
  cmp_eq = nat_eq;
  cmp_refl = nat_refl;
  cmp_flip = nat_flip;
  cmp_trans = nat_trans;
}

-- `std::string::compare`: lexicographic, by unsigned bytes.
unfoldable pub bytes_cmp : List ℕ → List ℕ → Ordering
bytes_cmp [] [] = Ordering.eq
bytes_cmp [] (y ∷ ys) = Ordering.lt
bytes_cmp (x ∷ xs) [] = Ordering.gt
bytes_cmp (x ∷ xs) (y ∷ ys) = elim (compare x y) [
  | Ordering.lt ↦ Ordering.lt
  | Ordering.gt ↦ Ordering.gt
  | Ordering.eq ↦ bytes_cmp xs ys
]

pub bytes_eq : (a b : List ℕ) → bytes_cmp a b ≡ Ordering.eq → a ≡ b
unfolding bytes_cmp
bytes_eq [] [] h = refl
bytes_eq [] (y ∷ ys) h = cc
bytes_eq (x ∷ xs) [] h = cc
bytes_eq (x ∷ xs) (y ∷ ys) h = ground (arith, bytes_eq xs ys)

pub bytes_refl : (a : List ℕ) → bytes_cmp a a ≡ Ordering.eq
unfolding bytes_cmp
bytes_refl [] = refl
bytes_refl (x ∷ xs) = ground (arith, bytes_refl xs)

pub bytes_flip : (a b : List ℕ) → bytes_cmp a b ≡ Ordering.gt → bytes_cmp b a ≡ Ordering.lt
unfolding bytes_cmp
bytes_flip [] [] h = cc
bytes_flip [] (y ∷ ys) h = cc
bytes_flip (x ∷ xs) [] h = refl
bytes_flip (x ∷ xs) (y ∷ ys) h = ground (arith, bytes_flip xs ys)

pub bytes_trans :
    (a b c : List ℕ)
    → bytes_cmp a b ≡ Ordering.lt
    → bytes_cmp b c ≡ Ordering.lt
    → bytes_cmp a c ≡ Ordering.lt
unfolding bytes_cmp
bytes_trans [] [] c h k = cc
bytes_trans [] (y ∷ ys) [] h k = cc
bytes_trans [] (y ∷ ys) (z ∷ zs) h k = refl
bytes_trans (x ∷ xs) [] c h k = cc
bytes_trans (x ∷ xs) (y ∷ ys) [] h k = cc
bytes_trans (x ∷ xs) (y ∷ ys) (z ∷ zs) h k = ground (arith, bytes_trans xs ys zs)

instance abbrev pub bytes_key : Key (List ℕ)
bytes_key = record {
  cmp = bytes_cmp;
  cmp_eq = bytes_eq;
  cmp_refl = bytes_refl;
  cmp_flip = bytes_flip;
  cmp_trans = bytes_trans;
}
