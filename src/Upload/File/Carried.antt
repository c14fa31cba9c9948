-- ===== src/Upload/File/Carried.antt =====
-- es3/connection.cpp, `find_mtime`: the lines of a reply that it reads, and those that it passes over.
use extremes.Base.{
  ℕ, ◌≡◌, refl, Bool, true, false, List, [], ◌∷◌, Bytes, codes, bytes_cmp, arith, none, some, not,
  ◌||◌, take, ◌=k◌, bytes_key, ◌⊎◌, Option, inl, inr, sym, subst, Option-cases, All,
}
use extremes.Common.{lower, trim}
use extremes.Connection.Headers.{find_colon, find_header, find_mtime}
use extremes.Download.{FileDesc}

-- The names that `find_mtime` looks for, in lower case.
abbrev pub read_names : List Bytes
read_names =
    codes "x-amz-meta-last-modified"
    ∷ codes "x-amz-meta-size"
    ∷ codes "content-length"
    ∷ codes "x-amz-meta-compressed"
    ∷ codes "x-amz-meta-file-mode"
    ∷ []

abbrev pub is_one_of : Bytes → List Bytes → Bool
is_one_of name [] = false
is_one_of name (n ∷ ns) = (name =k n) || is_one_of name ns

abbrev other_at : Bytes → Option ℕ → Bool
other_at line none = true
other_at line (some pos) = not (is_one_of (trim (take pos line)) read_names)

-- A line without a colon, as the status line, or with another name before its first colon.
unfoldable pub is_other : Bytes → Bool
is_other line = other_at (lower line) (find_colon (lower line))

not-true : (b : Bool) → not b ≡ true → b ≡ false
not-true true h = cc
not-true false h = refl

abbrev pub IsLine : Bytes → List Bytes → Type 0
IsLine line [] = ⊥
IsLine line (l ∷ ls) = (line ≡ l) ⊎ IsLine line ls

-- The lines of a reply that carries some headers, in any order and among others.
abbrev pub Carries : List Bytes → List Bytes → Type 0
Carries sent lines =
    All (λ line. IsLine line sent ⊎ (is_other line ≡ true)) lines × All (λ s. IsLine s lines) sent

pub All-IsLine :
    (P : Bytes → Type 0) (line : Bytes) (lines : List Bytes)
    → IsLine line lines
    → All P lines
    → P line
All-IsLine P line [] h a = absurd h
All-IsLine P line (l ∷ ls) h a = elim h [
  | inl e ↦ subst P (sym e) a.0
  | inr later ↦ All-IsLine P line ls later a.1
]

other_name :
    (name n : Bytes) (ns : List Bytes)
    → is_one_of name ns ≡ false
    → IsLine n ns
    → (name =k n) ≡ false
other_name name n [] h k = absurd k
other_name name n (m ∷ ns) h k = elim k [
  | inl e ↦ rw e (ground arith)
  | inr later ↦ other_name name n ns (ground arith) later
]

find_header-other :
    (line name : Bytes) → is_other line ≡ true → IsLine name read_names → find_header line name ≡ []
unfolding is_other find_header
find_header-other line name h k = elim (Option-cases (find_colon (lower line))) [
  | inl e ↦ rw (find_header, e) refl
  | inr (pos, e) ↦
      let off : is_one_of (trim (take pos (lower line))) read_names ≡ false =
        not-true _ (subst (λ o. other_at (lower line) o ≡ true) e h) in
      rw (find_header, e, other_name (trim (take pos (lower line))) name read_names off k) refl
]

pub find_mtime-other :
    (line : Bytes) (info : FileDesc) → is_other line ≡ true → find_mtime line info ≡ info
unfolding find_mtime bytes_cmp
find_mtime-other line info h =
    rw
      (
        find_header-other line (codes "x-amz-meta-last-modified") h (inl refl),
        find_header-other line (codes "x-amz-meta-size") h (inr (inl refl)),
        find_header-other line (codes "content-length") h (inr (inr (inl refl))),
        find_header-other line (codes "x-amz-meta-compressed") h (inr (inr (inr (inl refl)))),
        find_header-other line (codes "x-amz-meta-file-mode") h (inr (inr (inr (inr (inl refl))))),
      )
      refl
