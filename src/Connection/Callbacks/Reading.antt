-- ===== src/Connection/Callbacks/Reading.antt =====
-- es3/connection.cpp, `buf_data`: curl reads the body of a request out of a buffer, piece by piece.
use extremes.Base.{
  ℕ, ◌+◌, ◌-◌, ◌≤◌, ◌≡◌, refl, sym, ap, ◌∙◌, min, List, [], ◌∷◌, ◌++◌, Bytes, arith, ◌==◌, take,
  drop, length, take-append-drop, Bool-cases, inl, inr,
}
use mathlib.Core.List.{append_assoc, append-nil}
use extremes.Connection.Callbacks.{BufData, simple_read, feed}
use extremes.Upload.Chunks.{drop_all, drop-drop}

abbrev sum : List ℕ → ℕ
sum [] = 0
sum (n ∷ ns) = n + sum ns

-- Reads of `n` bytes together that copied `copied` and took the buffer from `b` to `c`.
record Reads (n : ℕ) (b c : BufData) (copied : Bytes) : Type 0 where
  same : c.buf ≡ b.buf
  split : copied ++ drop c.written b.buf ≡ drop b.written b.buf
  hashed : c.hashed ≡ b.hashed ++ copied
  far : min (length b.buf) (b.written + n) ≤ c.written

simple_read-Reads : (b : BufData) (n : ℕ) → Reads n b (simple_read b n).0 (simple_read b n).1
unfolding simple_read
simple_read-Reads b n = elim (Bool-cases (min (length b.buf - b.written) n == 0)) [
  | inl nothing ↦
      rw nothing (record {
        same = refl;
        split = refl;
        hashed = sym (append-nil b.hashed);
        far = ground arith;
      })
  | inr some_ ↦
      let t = min (length b.buf - b.written) n in
      rw some_ (record {
        same = refl;
        split =
            ap (◌++◌ (take t (drop b.written b.buf))) (sym (drop-drop t b.written b.buf))
            ∙ take-append-drop t (drop b.written b.buf);
        hashed = refl;
        far = omega arith;
      })
]

Reads-trans :
    (m n : ℕ) (b c d : BufData) (x y : Bytes)
    → Reads n b c x
    → Reads m c d y
    → Reads (n + m) b d (x ++ y)
Reads-trans m n b c d x y first rest =
    let same = first.same in
    let sized = ap length same in
    let near = first.far in
    let far = rest.far in
    record {
      same = rest.same ∙ same;
      split =
          append_assoc x y (drop d.written b.buf)
          ∙ ap (◌++◌ x)
              (ap (λ k. y ++ drop d.written k) (sym same) ∙ rest.split ∙ ap (drop c.written) same)
          ∙ first.split;
      hashed = rest.hashed ∙ ap (λ k. k ++ y) first.hashed ∙ append_assoc b.hashed x y;
      far = omega arith;
    }

feed-Reads : (b : BufData) (sizes : List ℕ) → Reads (sum sizes) b (feed b sizes).0 (feed b sizes).1
unfolding feed
feed-Reads b [] = record {
  same = refl;
  split = refl;
  hashed = sym (append-nil b.hashed);
  far = omega arith;
}
feed-Reads b (n ∷ sizes) =
    Reads-trans (sum sizes) n b (simple_read b n).0 (feed (simple_read b n).0 sizes).0
      (simple_read b n).1 (feed (simple_read b n).0 sizes).1 (simple_read-Reads b n)
      (feed-Reads (simple_read b n).0 sizes)

abbrev pub new_buf : Bytes → BufData
new_buf data_ = record { buf = data_; written = 0; hashed = [] }

-- However curl sizes its reads, once they ask for at least as many bytes as there are, they have
-- copied exactly the data, and exactly these bytes have gone into the digest.
pub feed-all :
    (data_ : Bytes) (sizes : List ℕ)
    → length data_ ≤ sum sizes
    → ((feed (new_buf data_) sizes).1 ≡ data_) × ((feed (new_buf data_) sizes).0.hashed ≡ data_)
feed-all data_ sizes enough =
    let r = feed-Reads (new_buf data_) sizes in
    let far = r.far in
    let copied : (feed (new_buf data_) sizes).1 ≡ data_ =
      sym (append-nil _)
      ∙ ap (◌++◌ (feed (new_buf data_) sizes).1)
          (sym (drop_all (feed (new_buf data_) sizes).0.written data_ (omega (arith, far))))
      ∙ r.split in
    (copied, r.hashed ∙ copied)
