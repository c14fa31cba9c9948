-- ===== src/Commands/Objects/Descriptions.antt =====
-- es3/commands.cpp, `do_ls`: the descriptions that the tasks gather.
use extremes.Base.{
  ℕ, ◌+◌, ◌≡◌, ◌⊎◌, refl, sym, ap, subst, ◌∙◌, inl, inr, true, false, List, [], ◌∷◌, Option, some,
  Bytes, arith, All, ltb, length, ◌%◌, ◌^◌, bytes_cmp, bytes_eq, bytes_refl, bytes_flip, Bool-cases,
  Option-cases,
}
use Prim.Native.Nat.{Ordering}
use extremes.Base.Map.{Map}
use extremes.Commands.Objects.{
  path_lt, is_same, put_desc, at_desc, ls_files, ls_dirs, get_file_infos, do_ls, below,
}
use extremes.Connection.Listing.{FileInfo, Listed}
use extremes.Download.{FileDesc}
use extremes.Sync.Tree.{S3Path, Entry, files_of, subdirs_of}

below-cases : (a b : Bytes) → (below a b ≡ true) ⊎ (below b a ≡ true) ⊎ (a ≡ b)
below-cases a b = go (bytes_cmp a b) refl
  where
    go : (o : Ordering) → bytes_cmp a b ≡ o → (below a b ≡ true) ⊎ (below b a ≡ true) ⊎ (a ≡ b)
    go Ordering.lt e = inl (rw (below, e) refl)
    go Ordering.eq e = inr (inr (bytes_eq a b e))
    go Ordering.gt e = let f = bytes_flip a b e in inr (inl (rw (below, f) refl))

below_self : (a : Bytes) → below a a ≡ false
below_self a = let e = bytes_refl a in rw (below, e) refl

is_same_self : (p : S3Path) → is_same p p ≡ true
unfolding path_lt
is_same_self p =
    let z = below_self p.zone in
    let b = below_self p.bucket in let c = below_self p.path in ground arith

abbrev pub IsIn : S3Path → List S3Path → Type 0
IsIn p [] = ⊥
IsIn p (q ∷ qs) = (p ≡ q) ⊎ IsIn p qs

-- All in one bucket, and described by `info`.
module _ (info : S3Path → Option FileDesc) (zone bucket : Bytes) where
  abbrev pub IsAt : S3Path → Type 0
  IsAt p = (p.zone ≡ zone) × (p.bucket ≡ bucket)

  same_path : (p q : S3Path) → IsAt p → IsAt q → is_same p q ≡ true → p ≡ q
  unfolding path_lt
  same_path p q h k e = elim (below-cases p.path q.path) [
    | inl less ↦ absurd (ground arith)
    | inr (inl more) ↦ absurd (ground arith)
    | inr (inr same) ↦ ground arith
  ]

  abbrev IsRight : S3Path × FileDesc → Type 0
  IsRight e = IsAt (e.0) × (info (e.0) ≡ some (e.1))

  abbrev IsPresent : S3Path → List (S3Path × FileDesc) → Type 0
  IsPresent p m = (d : FileDesc) × (at_desc p m ≡ some d)

  put_desc-All :
      (k : S3Path) (v : FileDesc) (m : List (S3Path × FileDesc))
      → IsAt k
      → info k ≡ some v
      → All IsRight m
      → All IsRight (put_desc k v m)
  unfolding put_desc
  put_desc-All k v [] at e h = ((at, e), tt)
  put_desc-All k v ((j, w) ∷ m) at e h = elim (Bool-cases (is_same k j)) [
    | inl same ↦
        let one = same_path k j at (h.0.0) same in
        rw same ((h.0.0, subst (λ p. info p ≡ some v) one e), h.1)
    | inr other ↦ rw other (h.0, put_desc-All k v m at e h.1)
  ]

  put_desc_self :
      (k : S3Path) (v : FileDesc) (m : List (S3Path × FileDesc))
      → at_desc k (put_desc k v m) ≡ some v
  unfolding put_desc at_desc
  put_desc_self k v [] = let self = is_same_self k in rw self refl
  put_desc_self k v ((j, w) ∷ m) = elim (Bool-cases (is_same k j)) [
    | inl same ↦ rw (same, at_desc, same) refl
    | inr other ↦ rw (other, at_desc, other) (put_desc_self k v m)
  ]

  put_desc-IsPresent :
      (p k : S3Path) (v : FileDesc) (m : List (S3Path × FileDesc))
      → IsPresent p m
      → IsPresent p (put_desc k v m)
  unfolding put_desc at_desc
  put_desc-IsPresent p k v [] (d, e) = cc e
  put_desc-IsPresent p k v ((j, w) ∷ m) (d, e) = elim (Bool-cases (is_same k j)) [
    | inl same ↦ elim (Bool-cases (is_same p j)) [
      | inl here ↦ (v, rw (same, at_desc, here) refl)
      | inr on ↦ (d, rw (same, at_desc, on) (rw on at e))
    ]
    | inr other ↦ elim (Bool-cases (is_same p j)) [
      | inl here ↦ (w, rw (other, at_desc, here) refl)
      | inr on ↦
          let (d', f) = put_desc-IsPresent p k v m (d, rw on at e) in
          (d', rw (other, at_desc, on) f)
    ]
  ]

  -- What the tasks have gathered: right descriptions only, one for each path of the order and those
  -- that were there before, and no failure.
  record Gathered (order : List S3Path) (m : List (S3Path × FileDesc))
      (r : List (S3Path × FileDesc) × ℕ) : Type 0 where
    right : All IsRight (r.0)
    listed : (p : S3Path) → IsIn p order ⊎ IsPresent p m → IsPresent p (r.0)
    fine : r.1 ≡ 0

  abbrev pub IsKnown : S3Path → Type 0
  IsKnown p = IsAt p × ((d : FileDesc) × (info p ≡ some d))

  get_file_infos-next :
      (p : S3Path) (ps : List S3Path) (m : List (S3Path × FileDesc)) (d : FileDesc)
      → info p ≡ some d
      → get_file_infos info (p ∷ ps) m ≡ get_file_infos info ps (put_desc p d m)
  unfolding get_file_infos
  get_file_infos-next p ps m d e = rw (get_file_infos, e) refl

  get_file_infos-Gathered :
      (order : List S3Path) (m : List (S3Path × FileDesc))
      → All IsKnown order
      → All IsRight m
      → Gathered order m (get_file_infos info order m)
  unfolding get_file_infos
  get_file_infos-Gathered [] m known right = record {
    right = right;
    listed = λ p h. elim h [ inl nowhere ↦ absurd nowhere | inr there ↦ there ];
    fine = refl;
  }
  get_file_infos-Gathered (k ∷ order) m ((at, (d, e)), known) right =
      let rest =
        get_file_infos-Gathered order (put_desc k d m) known (put_desc-All k d m at e right) in
      subst (Gathered (k ∷ order) m) (sym (get_file_infos-next k order m d e)) (record {
        right = rest.right;
        listed = λ p h. elim h [
          | inl (inl same) ↦
              rest.listed p
                (inr (d, ap (λ q. at_desc q (put_desc k d m)) same ∙ put_desc_self k d m))
          | inl (inr later) ↦ rest.listed p (inl later)
          | inr there ↦ rest.listed p (inr (put_desc-IsPresent p k d m there))
        ];
        fine = rest.fine;
      })

  at_desc-right :
      (p : S3Path) (m : List (S3Path × FileDesc))
      → IsAt p
      → All IsRight m
      → IsPresent p m
      → at_desc p m ≡ info p
  unfolding at_desc
  at_desc-right p [] at right (d, e) = cc e
  at_desc-right p ((j, w) ∷ m) at right (d, e) = elim (Bool-cases (is_same p j)) [
    | inl here ↦
        let one = same_path p j at (right.0.0) here in rw here (sym (right.0.1) ∙ ap info (sym one))
    | inr on ↦ rw on (at_desc-right p m at right.1 (d, rw on at e))
  ]

  ls_files-same :
      (f g : S3Path → Option FileDesc) (fs : Map Bytes (Entry S3Path FileInfo)) (text : Bytes)
      (files total : ℕ)
      → All (λ e. f (e.1.absolute_name) ≡ g (e.1.absolute_name)) fs
      → ls_files f fs text files total ≡ ls_files g fs text files total
  unfolding ls_files
  ls_files-same f g [] text files total h = refl
  ls_files-same f g ((k, e) ∷ fs) text files total h = elim (Option-cases (g e.absolute_name)) [
    | inl q ↦ let p = h.0 ∙ q in rw (ls_files, p, q) refl
    | inr (d, q) ↦
        let p = h.0 ∙ q in
        rw (ls_files, p, q)
          (ls_files-same f g fs _ (files + 1) ((total + e.info.size) % 2 ^ 64) h.1)
  ]

  abbrev pub AreListed : List S3Path → Map Bytes (Entry S3Path FileInfo) → Type 0
  AreListed order files = All (λ e. IsAt (e.1.absolute_name) × IsIn (e.1.absolute_name) order) files

  described :
      (order : List S3Path) (fs : Map Bytes (Entry S3Path FileInfo))
      (r : List (S3Path × FileDesc) × ℕ)
      → Gathered order [] r
      → AreListed order fs
      → All (λ e. at_desc (e.1.absolute_name) (r.0) ≡ info (e.1.absolute_name)) fs
  described order [] r g h = tt
  described order ((k, e) ∷ fs) r g h = (
    at_desc-right e.absolute_name (r.0) (h.0.0) g.right (g.listed e.absolute_name (inl (h.0.1))),
    described order fs r g h.1,
  )

  -- In one bucket, where every file of a directory is asked about in some order and no task fails or
  -- is left, `ls` shows of a directory of any size what the loop over its files alone shows: the
  -- descriptions that the tasks gather are found under their paths.
  pub do_ls-ls_files :
      (order : List S3Path) (cur : Listed)
      → All IsKnown order
      → AreListed order (files_of cur)
      → do_ls info order 0 cur ≡ ls_files info (files_of cur) (ls_dirs (subdirs_of cur)) 0 0
  unfolding do_ls
  do_ls-ls_files order cur known listed =
      let g = get_file_infos-Gathered order [] known tt in
      let same =
        ls_files-same (λ p. at_desc p (get_file_infos info order []).0) info (files_of cur)
          (ls_dirs (subdirs_of cur)) 0 0 (described order (files_of cur) _ g listed) in
      let none_failed = g.fine in
      elim (Bool-cases (ltb 10 (length (files_of cur)))) [
        | inl many ↦ rw (many, none_failed) same
        | inr few ↦ rw few refl
      ]
