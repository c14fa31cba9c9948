-- ===== src/Upload/File/Effects.antt =====
-- es3/connection.cpp, `find_mtime`: what the lines of a reply may do to the fields that are read.
use extremes.Base.{
  ℕ, ◌≡◌, refl, ◌∙◌, Bool, List, [], ◌∷◌, Bytes, bytes_key, ◌⊎◌, inl, inr, subst, All,
}
use extremes.Connection.Headers.{find_mtime, find_mtimes}
use extremes.Download.{FileDesc}
use extremes.Upload.File.Carried.{IsLine}
use extremes.Upload.File.{LocalFile}

-- A line leaves a field alone, or sets it to `x`.
abbrev pub Moves : {A : Type 0} → (FileDesc → A) → A → FileDesc → FileDesc → Type 0
Moves f x info next = (f next ≡ f info) ⊎ (f next ≡ x)

module _ (fl : LocalFile) (remote_size : ℕ) (b : Bool) where
  pub record Effect (info next : FileDesc) : Type 0 where
    pub mtime : Moves (λ d. d.mtime) fl.mtime info next
    pub raw_size : Moves (λ d. d.raw_size) fl.size info next
    pub remote : Moves (λ d. d.remote_size) remote_size info next
    pub mode : Moves (λ d. d.mode) fl.mode info next
    pub compressed : Moves (λ d. d.compressed) b info next
    pub found : next.found ≡ info.found

  pub same-Effect : (info next : FileDesc) → next ≡ info → Effect info next
  same-Effect info next e = rw e (record {
    mtime = inl refl;
    raw_size = inl refl;
    remote = inl refl;
    mode = inl refl;
    compressed = inl refl;
    found = refl;
  })

  unfoldable pub AreEffects : List Bytes → Type 0
  AreEffects = All (λ line. (info : FileDesc) → Effect info (find_mtime line info))

  -- Lines that set a field to `x` or leave it.
  module _ {A : Type 0} (f : FileDesc → A) (x : A)
      (moves : (info next : FileDesc) → Effect info next → Moves f x info next) where
    pub settled :
        (lines : List Bytes) (info : FileDesc)
        → AreEffects lines
        → f info ≡ x
        → f (find_mtimes lines info) ≡ x
    unfolding find_mtimes AreEffects
    settled [] info a e = e
    settled (line ∷ lines) info a e =
        settled lines (find_mtime line info) a.1
          (elim (moves info (find_mtime line info) (a.0 info)) [
            | inl same ↦ same ∙ e
            | inr set ↦ set
          ])

    pub set_by :
        (line : Bytes) (lines : List Bytes) (info : FileDesc)
        → AreEffects lines
        → IsLine line lines
        → ((old : FileDesc) → f (find_mtime line old) ≡ x)
        → f (find_mtimes lines info) ≡ x
    unfolding find_mtimes AreEffects
    set_by line [] info a there sets = absurd there
    set_by line (l ∷ lines) info a there sets = elim there [
      | inl e ↦
          settled lines (find_mtime l info) a.1
            (subst (λ s. f (find_mtime s info) ≡ x) e (sets info))
      | inr later ↦ set_by line lines (find_mtime l info) a.1 later sets
    ]

  pub found_kept :
      (lines : List Bytes) (info : FileDesc)
      → AreEffects lines
      → (find_mtimes lines info).found ≡ info.found
  unfolding find_mtimes AreEffects
  found_kept [] info a = refl
  found_kept (line ∷ lines) info a = found_kept lines (find_mtime line info) a.1 ∙ (a.0 info).found
