-- ===== src/Upload/Parts/Delivery.antt =====
-- es3/uploader.cpp: the specification of the parts of one file, which keeps for each part its etag,
-- and how the tasks' state shows it.
use extremes.Base.{
  ℕ, zero, suc, ◌+◌, ◌≤◌, ◌<◌, ◌≡◌, refl, ap, subst, inl, inr, Bool, true, false, List, [], ◌∷◌,
  Option, none, some, Bytes, arith, if◌then◌else◌, length, get_elem?, set, Bool-cases,
}
use extremes.Upload.Parts.{Phase, waiting, uploading, finished, Completion}

-- The specification's state: for each part its etag, once it is known to be stored.
abbrev pub Slots : Type 0
Slots = List (Option Bytes)

abbrev pub is_done : Phase → Bool
is_done waiting = false
is_done uploading = false
is_done finished = true

abbrev pub slot : Phase → Bytes → Option Bytes
slot p etag = if is_done p then some etag else none

abbrev pub view : List Phase → List Bytes → Slots
view [] es = []
view (p ∷ ps) [] = []
view (p ∷ ps) (e ∷ es) = slot p e ∷ view ps es

-- Nothing, or one part that was missing is delivered.
pub data Deliver (s t : Slots) : Type 0 where
  stays : t ≡ s → Deliver s t
  delivers :
      (k : ℕ) (etag : Bytes) → get_elem? s k ≡ some none → t ≡ set s k (some etag) → Deliver s t

-- All etags in the order of the parts, if none is missing.
abbrev pub whole : Slots → Option (List Bytes)
whole [] = some []
whole (none ∷ s) = none
whole (some e ∷ s) = elim (whole s) [ none ↦ none | some es ↦ some (e ∷ es) ]

-- What the specification promises of `complete_multipart`.
abbrev pub promised : Bytes → Slots → List Completion
promised upload_id s = elim (whole s) [ none ↦ [] | some es ↦ (upload_id, es) ∷ [] ]

abbrev pub weight : Phase → ℕ
weight p = if is_done p then 1 else 0

abbrev pub count : List Phase → ℕ
count [] = 0
count (p ∷ ps) = weight p + count ps

pub count-length : (ps : List Phase) → count ps ≤ length ps
count-length [] = omega arith
count-length (p ∷ ps) = ground (arith, count-length ps)

pub count-set :
    (ps : List Phase) (k : ℕ) (p q : Phase)
    → get_elem? ps k ≡ some p
    → count (set ps k q) + weight p ≡ count ps + weight q
count-set [] k p q h = cc
count-set (x ∷ ps) zero p q h =
    let same : x ≡ p = cc in
    subst (λ y. weight q + count ps + weight y ≡ weight x + count ps + weight q) same (omega arith)
count-set (x ∷ ps) (suc k) p q h = omega (arith, count-set ps k p q h)

pub count-open :
    (ps : List Phase) (k : ℕ) (p : Phase)
    → is_done p ≡ false
    → get_elem? ps k ≡ some p
    → count ps < length ps
count-open [] k p o h = cc
count-open (x ∷ ps) zero p o h =
    let same : is_done x ≡ false = cc in ground (arith, count-length ps)
count-open (x ∷ ps) (suc k) p o h = ground (arith, count-open ps k p o h)

pub view-set-open :
    (ps : List Phase) (es : List Bytes) (k : ℕ) (p q : Phase)
    → is_done p ≡ false
    → is_done q ≡ false
    → get_elem? ps k ≡ some p
    → view (set ps k q) es ≡ view ps es
view-set-open [] es k p q o r h = refl
view-set-open (x ∷ ps) [] zero p q o r h = refl
view-set-open (x ∷ ps) [] (suc k) p q o r h = refl
view-set-open (x ∷ ps) (e ∷ es) zero p q o r h =
    let same : is_done x ≡ false = cc in rw (same, r) refl
view-set-open (x ∷ ps) (e ∷ es) (suc k) p q o r h =
    ap (◌∷◌ (slot x e)) (view-set-open ps es k p q o r h)

pub view-set-finished :
    (ps : List Phase) (es : List Bytes) (k : ℕ) (p : Phase) (etag : Bytes)
    → is_done p ≡ false
    → get_elem? ps k ≡ some p
    → length es ≡ length ps
    → (get_elem? (view ps es) k ≡ some none)
      × (view (set ps k finished) (set es k etag) ≡ set (view ps es) k (some etag))
view-set-finished [] es k p etag o h l = cc
view-set-finished (x ∷ ps) [] k p etag o h l = ground arith
view-set-finished (x ∷ ps) (e ∷ es) zero p etag o h l =
    let same : is_done x ≡ false = cc in (rw same refl, refl)
view-set-finished (x ∷ ps) (e ∷ es) (suc k) p etag o h l =
    let (gap, put) = view-set-finished ps es k p etag o h (omega arith) in
    (gap, ap (◌∷◌ (slot x e)) put)

pub whole-all :
    (ps : List Phase) (es : List Bytes)
    → length es ≡ length ps
    → count ps ≡ length ps
    → whole (view ps es) ≡ some es
whole-all [] [] l c = refl
whole-all [] (e ∷ es) l c = ground arith
whole-all (p ∷ ps) [] l c = ground arith
whole-all (p ∷ ps) (e ∷ es) l c =
    let less = count-length ps in
    let done : is_done p ≡ true = ground arith in
    let rest = whole-all ps es (omega arith) (ground arith) in rw (done, rest) refl

pub whole-some :
    (ps : List Phase) (es : List Bytes)
    → length es ≡ length ps
    → count ps < length ps
    → whole (view ps es) ≡ none
whole-some [] es l c = ground arith
whole-some (p ∷ ps) [] l c = ground arith
whole-some (p ∷ ps) (e ∷ es) l c = elim (Bool-cases (is_done p)) [
  | inl done ↦ let rest = whole-some ps es (omega arith) (ground arith) in rw (done, rest) refl
  | inr open_ ↦ rw open_ refl
]
