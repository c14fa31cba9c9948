-- ===== src/Connection/Listing/Members.antt =====
-- es3/connection.cpp, `list_files_shallow`: which names stand on a page of a listing.
use extremes.Base.{
  ◌≡◌, ◌≢◌, refl, sym, ap, ◌∙◌, ◌⊎◌, inl, inr, Bool, true, false, not, List, [], ◌∷◌, ◌++◌, Bytes,
  bytes_key, Bool-cases,
}
use extremes.Connection.Listing.Pages.{Item, keep_if, files_in, prefixes_in, as_listed, last_key}

abbrev pub In : Item → List Item → Type 0
In i [] = ⊥
In i (j ∷ js) = (i ≡ j) ⊎ In i js

-- The order on a page does not matter for what is on it.
pub In-append : (i : Item) (xs ys : List Item) → In i xs ⊎ In i ys → In i (xs ++ ys)
In-append i [] ys (inl h) = elim h [ ]
In-append i [] ys (inr h) = h
In-append i (x ∷ xs) ys (inl (inl e)) = inl e
In-append i (x ∷ xs) ys (inl (inr h)) = inr (In-append i xs ys (inl h))
In-append i (x ∷ xs) ys (inr h) = inr (In-append i xs ys (inr h))

pub In-append-inv : (i : Item) (xs ys : List Item) → In i (xs ++ ys) → In i xs ⊎ In i ys
In-append-inv i [] ys h = inr h
In-append-inv i (x ∷ xs) ys (inl e) = inl (inl e)
In-append-inv i (x ∷ xs) ys (inr h) = elim (In-append-inv i xs ys h) [
  | inl k ↦ inl (inr k)
  | inr k ↦ inr k
]

In-keep_first : (b : Bool) (i j : Item) (is : List Item) → b ≡ true → i ≡ j → In i (keep_if b j is)
In-keep_first true i j is p e = inl e
In-keep_first false i j is p e = cc

In-keep_later : (b : Bool) (i j : Item) (is : List Item) → In i is → In i (keep_if b j is)
In-keep_later true i j is h = inr h
In-keep_later false i j is h = h

In-keep_inv : (b : Bool) (i j : Item) (is : List Item) → In i (keep_if b j is) → (i ≡ j) ⊎ In i is
In-keep_inv true i j is h = h
In-keep_inv false i j is h = inr h

In-prefixes : (i : Item) (is : List Item) → i.is_prefix ≡ true → In i is → In i (prefixes_in is)
In-prefixes i [] p h = elim h [ ]
In-prefixes i (j ∷ js) p (inl e) =
    In-keep_first j.is_prefix i j (prefixes_in js) (sym (ap (λ k. k.is_prefix) e) ∙ p) e
In-prefixes i (j ∷ js) p (inr h) =
    In-keep_later j.is_prefix i j (prefixes_in js) (In-prefixes i js p h)

In-files : (i : Item) (is : List Item) → i.is_prefix ≡ false → In i is → In i (files_in is)
In-files i [] p h = elim h [ ]
In-files i (j ∷ js) p (inl e) =
    In-keep_first (not j.is_prefix) i j (files_in js) (ap not (sym (ap (λ k. k.is_prefix) e) ∙ p)) e
In-files i (j ∷ js) p (inr h) =
    In-keep_later (not j.is_prefix) i j (files_in js) (In-files i js p h)

pub In-as_listed : (i : Item) (is : List Item) → In i is → In i (as_listed is)
In-as_listed i is h = elim (Bool-cases i.is_prefix) [
  | inl p ↦ In-append i (files_in is) (prefixes_in is) (inr (In-prefixes i is p h))
  | inr p ↦ In-append i (files_in is) (prefixes_in is) (inl (In-files i is p h))
]

files-In : (i : Item) (is : List Item) → In i (files_in is) → In i is
files-In i [] h = h
files-In i (j ∷ js) h = elim (In-keep_inv (not j.is_prefix) i j (files_in js) h) [
  | inl e ↦ inl e
  | inr k ↦ inr (files-In i js k)
]

prefixes-In : (i : Item) (is : List Item) → In i (prefixes_in is) → In i is
prefixes-In i [] h = h
prefixes-In i (j ∷ js) h = elim (In-keep_inv j.is_prefix i j (prefixes_in js) h) [
  | inl e ↦ inl e
  | inr k ↦ inr (prefixes-In i js k)
]

pub as_listed-In : (i : Item) (is : List Item) → In i (as_listed is) → In i is
as_listed-In i is h = elim (In-append-inv i (files_in is) (prefixes_in is) h) [
  | inl k ↦ files-In i is k
  | inr k ↦ prefixes-In i is k
]

pub In-split :
    (i : Item) (is : List Item)
    → In i is
    → (before : List Item) × (after : List Item) × (is ≡ before ++ i ∷ after)
In-split i [] h = elim h [ ]
In-split i (j ∷ js) (inl e) = ([], js, ap (λ k. k ∷ js) (sym e))
In-split i (j ∷ js) (inr h) =
    let (before, after, same) = In-split i js h in (j ∷ before, after, ap (◌∷◌ j) same)

-- The last name of a page is on it.
pub last_key-In :
    (is : List Item) (name : Bytes) → is ≢ [] → (i : Item) × In i is × (last_key name is ≡ i.key)
last_key-In [] name h = absurd (h refl)
last_key-In (i ∷ []) name h = (i, inl refl, refl)
last_key-In (i ∷ j ∷ is) name h =
    let (k, within, same) = last_key-In (j ∷ is) i.key (λ e. cc) in (k, inr within, same)
