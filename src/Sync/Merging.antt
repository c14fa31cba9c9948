-- ===== src/Sync/Merging.antt =====
-- What a merge of es3/sync.cpp keeps.
use extremes.Base.{
  ◌≡◌, ◌≢◌, refl, sym, ◌∙◌, subst, [], ◌∷◌, none, some, Bytes, bytes_key, bytes_eq, bytes_refl,
  ◌=k◌, All, arith, Bool-cases, Option-cases, inl, inr,
}
use extremes.Base.Map.{Map, find, insert, find-insert}
use extremes.Sync.Tree.{Entry, Dirs, find_dir}
use extremes.Sync.Merge.{
  MergeError, merged, refused, file_collision, shadows_directory, merge_files,
}

refused≢merged : {A : Type 0} {why : MergeError} {a : A} → refused why ≢ merged a
refused≢merged e = cc

module _ {P X : Type 0} where
  found-insert :
      (j k : Bytes) (f file : Entry P X) (left : Map Bytes (Entry P X))
      → find k left ≡ none
      → find j left ≡ some f
      → find j (insert k file left) ≡ some f
  found-insert j k f file left free there = elim (Bool-cases (j =k k)) [
    | inl same ↦ ground (arith, bytes_eq j k)
    | inr other ↦ find-insert j k file left ∙ rw other there
  ]

  self-insert :
      (k : Bytes) (file : Entry P X) (left : Map Bytes (Entry P X))
      → find k (insert k file left) ≡ some file
  self-insert k file left = ground (arith, find-insert k k file left, bytes_refl k)

  -- What a merge of a first file that succeeds comes to.
  IsStep :
      Map Bytes (Entry P X)
      → Dirs P X
      → Bytes
      → Entry P X
      → Map Bytes (Entry P X)
      → Map Bytes (Entry P X)
      → Type 0
  IsStep left dirs j file right m =
      (find file.name left ≡ none)
      × (merge_files (insert file.name file left) dirs right ≡ merged m)

  merge_files-IsStep :
      (left right m : Map Bytes (Entry P X)) (dirs : Dirs P X) (j : Bytes) (file : Entry P X)
      → merge_files left dirs ((j, file) ∷ right) ≡ merged m
      → IsStep left dirs j file right m
  unfolding merge_files IsStep
  merge_files-IsStep left right m dirs j file done = elim (Option-cases (find file.name left)) [
    | inr (old, there) ↦
        let off : merge_files left dirs ((j, file) ∷ right) ≡ refused file_collision =
          rw (there, merge_files) refl in
        absurd (refused≢merged (sym off ∙ done))
    | inl free ↦ elim (Option-cases (find_dir file.name dirs)) [
      | inr (d, there) ↦
          let off : merge_files left dirs ((j, file) ∷ right) ≡ refused shadows_directory =
            rw (free, there, merge_files) refl in
          absurd (refused≢merged (sym off ∙ done))
      | inl clear ↦
          let on : merge_files left dirs ((j, file) ∷ right)
              ≡ merge_files (insert file.name file left) dirs right =
            rw (free, clear, merge_files) refl in
          (free, sym on ∙ done)
    ]
  ]

  merge_files-keeps :
      (left right m : Map Bytes (Entry P X)) (dirs : Dirs P X) (k : Bytes) (f : Entry P X)
      → merge_files left dirs right ≡ merged m
      → find k left ≡ some f
      → find k m ≡ some f
  unfolding merge_files IsStep
  merge_files-keeps left [] m dirs k f done there =
      let same : left ≡ m = cc in subst (λ l. find k l ≡ some f) same there
  merge_files-keeps left ((j, file) ∷ right) m dirs k f done there =
      let (free, rest) = merge_files-IsStep left right m dirs j file done in
      merge_files-keeps (insert file.name file left) right m dirs k f rest
        (found-insert k file.name f file left free there)

  merge_files-gains :
      (left right m : Map Bytes (Entry P X)) (dirs : Dirs P X)
      → merge_files left dirs right ≡ merged m
      → All (λ e. find e.1.name m ≡ some e.1) right
  unfolding merge_files IsStep
  merge_files-gains left [] m dirs done = tt
  merge_files-gains left ((j, file) ∷ right) m dirs done =
      let (free, rest) = merge_files-IsStep left right m dirs j file done in
      (
        merge_files-keeps (insert file.name file left) right m dirs file.name file rest
            (self-insert file.name file left),
        merge_files-gains (insert file.name file left) right m dirs rest,
      )

-- Where the files of two directories are merged, none is lost or replaced: each file of the left side
-- is found under its key as before, and each file of the right side under its name.
pub merge_files-find :
    (P X : Type 0) (left right m : Map Bytes (Entry P X)) (dirs : Dirs P X)
    → merge_files left dirs right ≡ merged m
    → ((k : Bytes) (f : Entry P X) → find k left ≡ some f → find k m ≡ some f)
      × All (λ e. find e.1.name m ≡ some e.1) right
merge_files-find P X left right m dirs done =
    (λ k f. merge_files-keeps left right m dirs k f done, merge_files-gains left right m dirs done)
