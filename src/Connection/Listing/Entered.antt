-- ===== src/Connection/Listing/Entered.antt =====
-- es3/connection.cpp, `list_files_shallow`: the names of a page are entered into the directory.
use extremes.Base.{
  ◌≡◌, refl, sym, subst, ◌∙◌, ◌⊎◌, inl, inr, Bool, true, false, ◌||◌, List, [], ◌∷◌, Option, none,
  some, Bytes, arith, if◌then◌else◌, bytes_eq, bytes_refl, bytes_key, ◌=k◌, Bool-cases,
}
use extremes.Common.{atoll}
use extremes.Base.Map.{find, find-insert}
use extremes.Connection.Listing.{Listed, FileInfo, add_file, add_subdir, extract_leaf, all_but_last}
use extremes.Connection.Listing.Pages.{Item, add_item, add_items}
use extremes.Sync.Tree.{
  S3Path, ends_in_slash, files_of, subdirs_of, find_dir, insert_dir, Dirs, dir, no_dirs, subdir,
}
use extremes.Connection.Listing.Members.{In}

abbrev is_some {ℓ} : {A : Type ℓ} → Option A → Bool
is_some none = false
is_some (some a) = true

abbrev has_subdir : Bytes → Listed → Bool
has_subdir k target = is_some (find_dir k (subdirs_of target))

abbrev has_file : Bytes → Listed → Bool
has_file k target = is_some (find k (files_of target))

-- The name stands in the directory: a common prefix as a subdirectory, a file under its last part,
-- unless the name ends in a slash.
abbrev pub is_listed : Item → Listed → Bool
is_listed i target =
    if i.is_prefix
    then has_subdir (extract_leaf (all_but_last i.key)) target
    else ends_in_slash i.key || has_file (extract_leaf i.key) target

find_dir-insert_dir :
    (j k : Bytes) (new : Listed) (ds : Dirs S3Path FileInfo)
    → find_dir j (insert_dir k new ds) ≡ (if j =k k then some new else find_dir j ds)
unfolding find_dir insert_dir
find_dir-insert_dir j k new no_dirs = refl
find_dir-insert_dir j k new (subdir i d ds) =
    ground (
      arith,
      bytes_eq k i,
      bytes_eq j i,
      bytes_eq j k,
      bytes_refl k,
      find_dir-insert_dir j k new ds,
    )

has_subdir-add_subdir :
    (j prefix : Bytes) (target : Listed)
    → has_subdir j (add_subdir prefix target)
      ≡ (j =k extract_leaf (all_but_last prefix) || has_subdir j target)
has_subdir-add_subdir j prefix (dir abs name files dirs) =
    elim (Bool-cases (j =k extract_leaf (all_but_last prefix))) [
      | inl same ↦ rw (find_dir-insert_dir j (extract_leaf (all_but_last prefix)) _ dirs, same) refl
      | inr other ↦
          rw (find_dir-insert_dir j (extract_leaf (all_but_last prefix)) _ dirs, other) refl
    ]

has_file-add_file :
    (j key : Bytes) (info : FileInfo) (target : Listed)
    → has_file j (add_file key info target) ≡ (j =k extract_leaf key || has_file j target)
has_file-add_file j key info (dir abs name files dirs) = elim (Bool-cases (j =k extract_leaf key)) [
  | inl same ↦ rw (find-insert j (extract_leaf key) _ files, same) refl
  | inr other ↦ rw (find-insert j (extract_leaf key) _ files, other) refl
]

has_file-add_subdir :
    (j prefix : Bytes) (target : Listed) → has_file j (add_subdir prefix target) ≡ has_file j target
has_file-add_subdir j prefix (dir abs name files dirs) = refl

has_subdir-add_file :
    (j key : Bytes) (info : FileInfo) (target : Listed)
    → has_subdir j (add_file key info target) ≡ has_subdir j target
has_subdir-add_file j key info (dir abs name files dirs) = refl

key_self : (k : Bytes) → (k =k k) ≡ true
key_self k = let same = bytes_refl k in ground arith

info_of : Item → FileInfo
info_of i = record { size = atoll i.size; mtime_str = i.mtime }

or-true : (a b : Bool) → b ≡ true → (a || b) ≡ true
or-true true b h = refl
or-true false b h = h

add_item-is_listed : (i : Item) (target : Listed) → is_listed i (add_item i target) ≡ true
add_item-is_listed i target = go i.is_prefix refl (ends_in_slash i.key) refl
  where
    go :
        (p : Bool)
        → i.is_prefix ≡ p
        → (s : Bool) → ends_in_slash i.key ≡ s
        → is_listed i (add_item i target) ≡ true
    go true e s f = rw e (
        has_subdir-add_subdir (extract_leaf (all_but_last i.key)) i.key target
        ∙ rw (key_self (extract_leaf (all_but_last i.key))) refl)
    go false e true f = rw (e, f) refl
    go false e false f =
        rw (e, f)
          (has_file-add_file (extract_leaf i.key) i.key _ target
            ∙ rw (key_self (extract_leaf i.key)) refl)

has_file-keeps :
    (k : Bytes) (i : Item) (target : Listed)
    → has_file k target ≡ true
    → has_file k (add_item i target) ≡ true
has_file-keeps k i target h = go i.is_prefix refl (ends_in_slash i.key) refl
  where
    go :
        (p : Bool)
        → i.is_prefix ≡ p
        → (s : Bool) → ends_in_slash i.key ≡ s
        → has_file k (add_item i target) ≡ true
    go true e s f = rw e (has_file-add_subdir k i.key target ∙ h)
    go false e true f = rw (e, f) h
    go false e false f =
        rw (e, f)
          (has_file-add_file k i.key _ target
            ∙ or-true (k =k extract_leaf i.key) (has_file k target) h)

has_subdir-keeps :
    (k : Bytes) (i : Item) (target : Listed)
    → has_subdir k target ≡ true
    → has_subdir k (add_item i target) ≡ true
has_subdir-keeps k i target h = go i.is_prefix refl (ends_in_slash i.key) refl
  where
    go :
        (p : Bool)
        → i.is_prefix ≡ p
        → (s : Bool) → ends_in_slash i.key ≡ s
        → has_subdir k (add_item i target) ≡ true
    go true e s f = rw e (
        has_subdir-add_subdir k i.key target
        ∙ or-true (k =k extract_leaf (all_but_last i.key)) (has_subdir k target) h)
    go false e true f = rw (e, f) h
    go false e false f = rw (e, f) (has_subdir-add_file k i.key _ target ∙ h)

add_item-keeps :
    (i j : Item) (target : Listed)
    → is_listed i target ≡ true
    → is_listed i (add_item j target) ≡ true
add_item-keeps i j target h = go i.is_prefix refl (ends_in_slash i.key) refl
  where
    go :
        (p : Bool)
        → i.is_prefix ≡ p
        → (s : Bool) → ends_in_slash i.key ≡ s
        → is_listed i (add_item j target) ≡ true
    go true e s f =
        let same : is_listed i target ≡ has_subdir (extract_leaf (all_but_last i.key)) target =
          rw e refl in
        rw e (has_subdir-keeps (extract_leaf (all_but_last i.key)) j target (sym same ∙ h))
    go false e true f = rw (e, f) refl
    go false e false f =
        let same : is_listed i target ≡ has_file (extract_leaf i.key) target = rw (e, f) refl in
        rw (e, f) (has_file-keeps (extract_leaf i.key) j target (sym same ∙ h))

-- Adding names keeps what is listed, and lists them.
pub add_items-is_listed :
    (i : Item) (is : List Item) (target : Listed)
    → In i is ⊎ (is_listed i target ≡ true)
    → is_listed i (add_items is target) ≡ true
add_items-is_listed i [] target (inl h) = elim h [ ]
add_items-is_listed i [] target (inr h) = h
add_items-is_listed i (j ∷ js) target (inl (inl same)) =
    add_items-is_listed i js (add_item j target)
      (inr (subst (λ k. is_listed i (add_item k target) ≡ true) same (add_item-is_listed i target)))
add_items-is_listed i (j ∷ js) target (inl (inr later)) =
    add_items-is_listed i js (add_item j target) (inl later)
add_items-is_listed i (j ∷ js) target (inr h) =
    add_items-is_listed i js (add_item j target) (inr (add_item-keeps i j target h))
