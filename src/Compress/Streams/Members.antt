-- ===== src/Compress/Streams/Members.antt =====
-- es3/compressor.cpp, `file_decompressor`: one call of `inflate` on gzip members that stand one behind
-- the other.
use extremes.Base.{
  ℕ, suc, ◌+◌, ◌*◌, ◌<◌, ◌≡◌, ◌≢◌, ◌⊎◌, refl, sym, ap, subst, ◌∙◌, inl, inr, [], ◌∷◌, ◌++◌, Bytes,
  arith, length, length-append,
}
use mathlib.Core.List.{append_assoc}
use extremes.Compress.Zlib.{Zlib, Inflates, z_ok, z_stream_end}
use extremes.Compress.Streams.{mebibyte, Temp, emit, inflate_loop}

-- Members, one behind the other, and all that is packed in them.
pub data Members (Member : Bytes → Bytes → Type 0) : Bytes → Bytes → Type 0 where
  no_members : (s w : Bytes) → s ≡ [] → w ≡ [] → Members Member s w
  one_more :
      (s w packed raw later wanted : Bytes)
      → Member packed raw
      → Members Member later wanted
      → s ≡ packed ++ later
      → w ≡ raw ++ wanted
      → Members Member s w

module _ (zl : Zlib) {Member : Bytes → Bytes → Type 0} (d : Inflates zl Member) where
  open zl use {Inflater, inflate, inflate_init}
  open d use {Inflating}

  -- The stream is inside a member: `more` of it is to come, and `todo` of its bytes; other members
  -- follow.
  pub record Inside (z : Inflater) (s w : Bytes) : Type 0 where
    pub eaten : Bytes
    pub out : Bytes
    pub more : Bytes
    pub todo : Bytes
    pub after : Bytes
    pub wanted : Bytes
    pub inflating : Inflating z eaten out
    pub member : Member (eaten ++ more) (out ++ todo)
    pub unfinished_ : more ≢ []
    pub input : s ≡ more ++ after
    pub output : w ≡ todo ++ wanted
    pub others : Members Member after wanted

  -- What is still to be read is `s`, and `w` is what it stands for.
  unfoldable pub Awaits : Inflater → Bytes → Bytes → Type 0
  Awaits z s w = ((s ≡ []) × (w ≡ [])) ⊎ Inside z s w

  pub Awaits-begin : (s w : Bytes) → Members Member s w → Awaits inflate_init s w
  unfolding Awaits
  Awaits-begin s w (no_members _ _ none nothing) = inl (none, nothing)
  Awaits-begin s w (one_more _ _ packed raw later wanted m ms e f) = inr (record {
    eaten = [];
    out = [];
    more = packed;
    todo = raw;
    after = later;
    wanted = wanted;
    inflating = d.begun;
    member = m;
    unfinished_ = d.not_empty packed raw m;
    input = e;
    output = f;
    others = ms;
  })

  -- One call: `emitted` comes out, and the stream afterwards awaits the rest. The loop goes on only
  -- if the call has put something out or taken something in.
  pub record Advances (z : Inflater) (c : ℕ) (input : Bytes) (later w : Bytes) : Type 0 where
    pub next : Inflater
    pub rest : Bytes
    pub emitted : Bytes
    pub left : Bytes
    pub steps :
        (fuel : ℕ) (t : Temp)
        → inflate_loop zl (suc fuel) z (c ∷ input) t
          ≡ inflate_loop zl fuel next rest (emit emitted t)
    pub output : w ≡ emitted ++ left
    pub awaits : Awaits next (rest ++ later) left
    pub shorter : length rest + length left < suc (length input) + length w

  inflate_loop-ends :
      (fuel : ℕ) (z : Inflater) (c : ℕ) (input : Bytes) (t : Temp)
      → (inflate z (c ∷ input) (2 * mebibyte)).code ≡ z_stream_end
      → inflate_loop zl (suc fuel) z (c ∷ input) t
        ≡ inflate_loop zl fuel inflate_init
            (inflate z (c ∷ input) (2 * mebibyte)).rest
            (emit (inflate z (c ∷ input) (2 * mebibyte)).output t)
  unfolding inflate_loop
  inflate_loop-ends fuel z c input t e = ground arith

  inflate_loop-continues :
      (fuel : ℕ) (z : Inflater) (c : ℕ) (input : Bytes) (t : Temp)
      → (inflate z (c ∷ input) (2 * mebibyte)).code ≡ z_ok
      → inflate_loop zl (suc fuel) z (c ∷ input) t
        ≡ inflate_loop zl fuel
            (inflate z (c ∷ input) (2 * mebibyte)).next
            (inflate z (c ∷ input) (2 * mebibyte)).rest
            (emit (inflate z (c ∷ input) (2 * mebibyte)).output t)
  unfolding inflate_loop
  inflate_loop-continues fuel z c input t e = ground arith

  length-ne : (s : Bytes) → s ≢ [] → 0 < length s
  length-ne [] h = absurd (h refl)
  length-ne (c ∷ s) h = omega arith

  drop_same : (a b c : Bytes) → a ++ b ≡ a ++ c → b ≡ c
  drop_same [] b c h = h
  drop_same (x ∷ a) b c h = drop_same a b c (cc h)

  pub Inside-Advances :
      (z : Inflater) (c : ℕ) (input later w : Bytes)
      → Inside z ((c ∷ input) ++ later) w
      → Advances z c input later w
  unfolding Awaits
  Inside-Advances z c input later w i =
      let r = inflate z (c ∷ input) (2 * mebibyte) in
      let called =
        d.inflated z i.eaten i.out i.more i.todo (c ∷ input) later i.after (2 * mebibyte)
          i.inflating i.member i.unfinished_ (λ e. cc) (omega arith) i.input in
      elim called [
        | inl (code, split, all) ↦
            let follows : r.rest ++ later ≡ i.after = drop_same i.more (r.rest ++ later) i.after (
              sym (append_assoc i.more r.rest later)
              ∙ ap (λ s. s ++ later) (sym split)
              ∙ i.input) in
            record {
              next = inflate_init;
              rest = r.rest;
              emitted = r.output;
              left = i.wanted;
              steps = λ fuel t. inflate_loop-ends fuel z c input t code;
              output = i.output ∙ ap (λ s. s ++ i.wanted) (sym all);
              awaits =
                  subst (λ s. Awaits inflate_init s i.wanted) (sym follows)
                    (Awaits-begin i.after i.wanted i.others);
              shorter = omega (
                arith,
                length-ne i.more i.unfinished_,
                ap length split,
                length-append i.more r.rest,
                ap length i.output,
                length-append i.todo i.wanted,
              );
            }
        | inr (code, (taken, left, hidden, split, eaten, some, put, inflating), stop) ↦
            let follows : r.rest ++ later ≡ left ++ i.after =
              drop_same taken (r.rest ++ later) (left ++ i.after) (
                sym (append_assoc taken r.rest later)
                ∙ ap (λ s. s ++ later) (sym split)
                ∙ i.input
                ∙ ap (λ s. s ++ i.after) eaten
                ∙ append_assoc taken left i.after) in
            let shown : w ≡ r.output ++ (hidden ++ i.wanted) =
              i.output ∙ ap (λ s. s ++ i.wanted) put ∙ append_assoc r.output hidden i.wanted in
            let goes : (length r.rest < suc (length input)) ⊎ (0 < length r.output) = elim stop [
              | inl none ↦ inl (omega (arith, ap length none))
              | inr full ↦ inr (omega (arith, full))
            ] in
            record {
              next = r.next;
              rest = r.rest;
              emitted = r.output;
              left = hidden ++ i.wanted;
              steps = λ fuel t. inflate_loop-continues fuel z c input t code;
              output = shown;
              awaits = inr (record {
                eaten = i.eaten ++ taken;
                out = i.out ++ r.output;
                more = left;
                todo = hidden;
                after = i.after;
                wanted = i.wanted;
                inflating = inflating;
                member =
                    subst (λ s. Member s ((i.out ++ r.output) ++ hidden))
                      (ap (◌++◌ i.eaten) eaten ∙ sym (append_assoc i.eaten taken left))
                      (subst (λ s. Member (i.eaten ++ i.more) s)
                        (ap (◌++◌ i.out) put ∙ sym (append_assoc i.out r.output hidden)) i.member);
                unfinished_ = some;
                input = follows;
                output = refl;
                others = i.others;
              });
              shorter = omega (
                arith,
                goes,
                ap length split,
                length-append taken r.rest,
                ap length shown,
                length-append r.output (hidden ++ i.wanted),
              );
            }
      ]
