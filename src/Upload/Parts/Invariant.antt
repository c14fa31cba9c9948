-- ===== src/Upload/Parts/Invariant.antt =====
-- es3/uploader.cpp: what holds of `upload_content` between the steps of its tasks.
use extremes.Base.{
  ℕ, zero, suc, ◌<◌, ◌≡◌, refl, sym, ap, ◌∙◌, ◌⊎◌, inl, inr, false, List, [], ◌∷◌, ◌++◌, some,
  Bytes, arith, ◌==◌, if◌then◌else◌, length, get_elem?, set, replicate, length-set,
  length-replicate, All, Bool-cases,
}
use extremes.Errors.{Result}
use extremes.Upload.Parts.{
  UploadContent, Upload, Phase, waiting, uploading, finished, fresh, assemble, finish_part,
  has_no_bytes,
}
use extremes.Upload.Parts.Delivery.{
  is_done, view, Deliver, delivers, promised, count, count-length, count-set, count-open,
  view-set-finished, whole-all, whole-some,
}

module _ (n : ℕ) where
  -- Before the last part, nothing is assembled; the last part assembles.
  abbrev Assembled : Upload → Type 0
  Assembled w =
      w.calls ≡ (if count w.tasks == n then (w.content.upload_id, w.content.etags) ∷ [] else [])

  pub record Inv (w : Upload) : Type 0 where
    pub parts : w.content.num_parts ≡ n
    pub etags : length w.content.etags ≡ n
    pub tasks : length w.tasks ≡ n
    pub counted : w.content.num_completed ≡ count w.tasks
    pub named : All (λ p. p ≡ waiting) w.tasks ⊎ (has_no_bytes w.content.upload_id ≡ false)
    pub assembled : Assembled w

  all-waiting :
      (ps : List Phase) (k : ℕ)
      → All (λ p. p ≡ waiting) ps
      → get_elem? ps k ≡ some uploading
      → waiting ≡ uploading
  all-waiting [] k a h = cc
  all-waiting (p ∷ ps) zero a h = let first = a.0 in cc
  all-waiting (p ∷ ps) (suc k) a h = all-waiting ps k a.1 h

  -- A step that finishes no part.
  pub open-Inv :
      (w : Upload) (k : ℕ) (p q : Phase) (c : UploadContent)
      → Inv w
      → get_elem? w.tasks k ≡ some p
      → is_done p ≡ false
      → is_done q ≡ false
      → c ≡ record w.content { upload_id = c.upload_id }
      → has_no_bytes c.upload_id ≡ false
      → Inv (record w { content = c; tasks = set w.tasks k q })
  open-Inv w k p q c inv h o r e id =
      let same = count-set w.tasks k p q h in
      let few = count-open w.tasks k p o h in
      let total = inv.tasks in
      let before = inv.assembled in
      record {
        parts = ap (λ d. d.num_parts) e ∙ inv.parts;
        etags = ap (λ d. length d.etags) e ∙ inv.etags;
        tasks = length-set w.tasks k q ∙ inv.tasks;
        counted = ap (λ d. d.num_completed) e ∙ inv.counted ∙ ground arith;
        named = inr id;
        assembled = ground arith;
      }

  pub named-uploading :
      (w : Upload) (k : ℕ)
      → Inv w
      → get_elem? w.tasks k ≡ some uploading
      → has_no_bytes w.content.upload_id ≡ false
  named-uploading w k inv h = elim inv.named [
    | inl idle ↦ let never = all-waiting w.tasks k idle h in cc
    | inr id ↦ id
  ]

  finish_part-ok :
      (complete : Bytes → List Bytes → Result (Unit {0})) (k : ℕ) (etag : Bytes) (c : UploadContent)
      → k < length c.etags
      → has_no_bytes c.upload_id ≡ false
      → ((finish_part complete k etag c).content
          ≡ record c { num_completed = suc c.num_completed; etags = set c.etags k etag })
        × ((finish_part complete k etag c).calls ≡ (
            if suc c.num_completed == c.num_parts
            then (c.upload_id, set c.etags k etag) ∷ []
            else []))
  unfolding finish_part assemble
  finish_part-ok complete k etag c h id = (ground arith, ground arith)

  get-bound : (ps : List Phase) (k : ℕ) (p : Phase) → get_elem? ps k ≡ some p → k < length ps
  get-bound [] k p h = cc
  get-bound (x ∷ ps) zero p h = omega arith
  get-bound (x ∷ ps) (suc k) p h = omega (arith, get-bound ps k p h)

  pub finish-Inv :
      (w : Upload) (k : ℕ) (etag : Bytes) (complete : Bytes → List Bytes → Result (Unit {0}))
      → Inv w
      → get_elem? w.tasks k ≡ some uploading
      → Inv (record {
        content = (finish_part complete k etag w.content).content;
        tasks = set w.tasks k finished;
        calls = w.calls ++ (finish_part complete k etag w.content).calls;
      })
  finish-Inv w k etag complete inv h =
      let total = inv.tasks in
      let sized = inv.etags in
      let parts = inv.parts in
      let counted = inv.counted in
      let before = inv.assembled in
      let within = get-bound w.tasks k uploading h in
      let few = count-open w.tasks k uploading refl h in
      let more = count-set w.tasks k uploading finished h in
      let id = named-uploading w k inv h in
      let (content, calls) = finish_part-ok complete k etag w.content (omega arith) id in
      let now : count (set w.tasks k finished) ≡ suc w.content.num_completed = omega arith in
      let none_yet : w.calls ≡ [] = ground arith in
      rw (content, calls, none_yet)
        (record {
          parts = parts;
          etags = length-set w.content.etags k etag ∙ sized;
          tasks = length-set w.tasks k finished ∙ total;
          counted = sym now;
          named = inr id;
          assembled = rw (now, parts) refl;
        })

  pub finish-view :
      (w : Upload) (k : ℕ) (etag : Bytes) (complete : Bytes → List Bytes → Result (Unit {0}))
      → Inv w
      → get_elem? w.tasks k ≡ some uploading
      → Deliver
          (view w.tasks w.content.etags)
          (view (set w.tasks k finished) (finish_part complete k etag w.content).content.etags)
  finish-view w k etag complete inv h =
      let total = inv.tasks in
      let sized = inv.etags in
      let within = get-bound w.tasks k uploading h in
      let (content, calls) =
        finish_part-ok complete k etag w.content (omega arith) (named-uploading w k inv h) in
      let (gap, put) =
        view-set-finished w.tasks w.content.etags k uploading etag refl h (omega arith) in
      rw content (delivers k etag gap put)

  pub calls-promised :
      (w : Upload) → Inv w → w.calls ≡ promised w.content.upload_id (view w.tasks w.content.etags)
  calls-promised w inv =
      let total = inv.tasks in
      let sized = inv.etags in
      let now = inv.assembled in
      let most = count-length w.tasks in
      elim (Bool-cases (count w.tasks == n)) [
        | inl all ↦
            let full = whole-all w.tasks w.content.etags (omega arith) (ground arith) in
            rw (promised, full) (ground arith)
        | inr some_missing ↦
            let gap = whole-some w.tasks w.content.etags (omega arith) (ground arith) in
            rw (promised, gap) (ground arith)
      ]

  all-fresh : (m : ℕ) → All (λ p. p ≡ waiting) (replicate m waiting)
  all-fresh zero = tt
  all-fresh (suc m) = (refl, all-fresh m)

  count-fresh : (m : ℕ) → count (replicate m waiting) ≡ 0
  count-fresh zero = refl
  count-fresh (suc m) = omega (arith, count-fresh m)

  pub fresh-Inv : 0 < n → Inv (fresh n)
  fresh-Inv pos =
      let zero_done = count-fresh n in
      record {
        parts = refl;
        etags = length-replicate n [];
        tasks = length-replicate n waiting;
        counted = sym zero_done;
        named = inl (all-fresh n);
        assembled = ground arith;
      }
