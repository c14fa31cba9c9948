-- ===== src/Tests/Packer.antt =====
-- A small packer in the place of zlib: each byte plus one, and a zero at the end.
use extremes.Base.{
  ℕ, zero, suc, ◌<◌, ◌≡◌, ◌≢◌, ◌⊎◌, refl, sym, ap, ◌∙◌, inl, inr, [], ◌∷◌, ◌++◌, Bytes, arith,
  length,
}
use mathlib.Core.List.{append_assoc}
use extremes.Compress.Zlib.{
  Zlib, Called, Code, z_ok, z_stream_end, Flush, no_flush, finish, Deflates, Inflates,
}
use extremes.Compress.Streams.{mebibyte}
use extremes.Compress.Streams.Packing.{EpilogueFits}

abbrev pub plus_one : Bytes → Bytes
plus_one [] = []
plus_one (b ∷ s) = suc b ∷ plus_one s

abbrev pub Packed : Bytes → Bytes → Type 0
Packed packed raw = packed ≡ plus_one raw ++ 0 ∷ []

abbrev pub put : ℕ → Called (Unit {0}) → Called (Unit {0})
put b c = record c { output = b ∷ c.output }

abbrev pub stopped : Bytes → Code → Called (Unit {0})
stopped rest code = record { next = tt; rest = rest; output = []; code = code }

unfoldable pub fill : Bytes → ℕ → Called (Unit {0})
fill [] room = stopped [] z_ok
fill (b ∷ s) zero = stopped (b ∷ s) z_ok
fill (b ∷ s) (suc room) = put (suc b) (fill s room)

unfoldable pub drain : Bytes → ℕ → Called (Unit {0})
drain [] room = stopped [] z_ok
drain (b ∷ s) zero = stopped (b ∷ s) z_ok
drain (zero ∷ s) (suc room) = stopped s z_stream_end
drain (suc b ∷ s) (suc room) = put b (drain s room)

unfoldable pub close : ℕ → Called (Unit {0})
close zero = stopped [] z_ok
close (suc room) = record { next = tt; rest = []; output = 0 ∷ []; code = z_stream_end }

unfoldable pub deflate_small : Flush → Unit {0} → Bytes → ℕ → Called (Unit {0})
unfolding fill close
deflate_small no_flush z input room = fill input room
deflate_small finish z input room = close room

abbrev pub small : Zlib
small = record {
  Deflater = Unit;
  Inflater = Unit;
  deflate_init = tt;
  deflate = deflate_small;
  inflate_init = tt;
  inflate = λ z input room. drain input room;
}

plus_one-append : (a b : Bytes) → plus_one (a ++ b) ≡ plus_one a ++ plus_one b
plus_one-append [] b = refl
plus_one-append (x ∷ a) b = ap (◌∷◌ (suc x)) (plus_one-append a b)

length-plus_one : (s : Bytes) → length (plus_one s) ≡ length s
length-plus_one [] = refl
length-plus_one (b ∷ s) = ap suc (length-plus_one s)

record Filled (s : Bytes) (room : ℕ) (c : Called (Unit {0})) : Type 0 where
  eaten : Bytes
  split : s ≡ eaten ++ c.rest
  packed : c.output ≡ plus_one eaten
  stop : (c.rest ≡ []) ⊎ (length c.output ≡ room)
  code : c.code ≡ z_ok

fill-Filled : (s : Bytes) (room : ℕ) → Filled s room (fill s room)
unfolding fill
fill-Filled [] room = record {
  eaten = [];
  split = refl;
  packed = refl;
  stop = inl refl;
  code = refl;
}
fill-Filled (b ∷ s) zero = record {
  eaten = [];
  split = refl;
  packed = refl;
  stop = inr refl;
  code = refl;
}
fill-Filled (b ∷ s) (suc room) =
    let f = fill-Filled s room in
    record {
      eaten = b ∷ f.eaten;
      split = ap (◌∷◌ b) f.split;
      packed = ap (◌∷◌ (suc b)) f.packed;
      stop = elim f.stop [ inl none ↦ inl none | inr full ↦ inr (ap suc full) ];
      code = f.code;
    }

close-ends :
    (raw out : Bytes) (room : ℕ)
    → out ≡ plus_one raw
    → (close room).code ≡ z_stream_end
    → Packed (out ++ (close room).output) raw
unfolding close
close-ends raw out zero h e = cc
close-ends raw out (suc room) h e = ap (λ s. s ++ 0 ∷ []) h

pub small-Deflates : Deflates small Packed
unfolding deflate_small
small-Deflates = record {
  Deflating = λ z raw out. out ≡ plus_one raw;
  deflate_bound = λ n. n;
  begun = refl;
  within = λ z raw out h. omega (arith, ap length h, length-plus_one raw);
  bound_mono = λ m n h. h;
  deflated = λ z raw out input room h some pos.
      let f = fill-Filled input room in
      (f.code, (f.eaten, f.split, ap₂' h f.packed ∙ sym (plus_one-append raw f.eaten)), f.stop);
  ended = λ z raw out room h e. close-ends raw out room h e;
}
  where
    ap₂' : {a b c d : Bytes} → a ≡ b → c ≡ d → a ++ c ≡ b ++ d
    ap₂' {b} {c} p q = ap (λ s. s ++ c) p ∙ ap (◌++◌ b) q

pub deflate_bound_small : (n : ℕ) → small-Deflates.deflate_bound n ≡ n
unfolding small-Deflates
deflate_bound_small n = refl

pub small-EpilogueFits : EpilogueFits small small-Deflates
unfolding deflate_small
small-EpilogueFits z raw out h = closes mebibyte (omega arith)
  where
    closes : (room : ℕ) → 0 < room → (close room).code ≡ z_stream_end
    closes zero h = absurd (omega arith)
    closes (suc room) h = refl

abbrev Ends : Bytes → Bytes → Called (Unit {0}) → Type 0
Ends input todo c =
    (c.code ≡ z_stream_end) × (input ≡ (plus_one todo ++ 0 ∷ []) ++ c.rest) × (c.output ≡ todo)

abbrev Goes : Bytes → ℕ → Bytes → Called (Unit {0}) → Type 0
Goes input room todo c =
    (c.code ≡ z_ok)
    × ((hidden : Bytes) × (input ≡ plus_one c.output ++ c.rest) × (todo ≡ c.output ++ hidden))
    × ((c.rest ≡ []) ⊎ (length c.output ≡ room))

drain-put :
    (b : ℕ) (s : Bytes) (room : ℕ) (todo : Bytes) (c : Called (Unit {0}))
    → Ends s todo c ⊎ Goes s room todo c
    → Ends (suc b ∷ s) (b ∷ todo) (put b c) ⊎ Goes (suc b ∷ s) (suc room) (b ∷ todo) (put b c)
drain-put b s room todo c (inl (code, split, all)) =
    inl (code, ap (◌∷◌ (suc b)) split, ap (◌∷◌ b) all)
drain-put b s room todo c (inr (code, (hidden, split, shown), stop)) = inr (
  code,
  (hidden, ap (◌∷◌ (suc b)) split, ap (◌∷◌ b) shown),
  elim stop [ inl none ↦ inl none | inr full ↦ inr (ap suc full) ],
)

pred_same : (b c : ℕ) → suc b ≡ suc c → b ≡ c
pred_same b c h = omega (arith, h)

drain-Drained :
    (s : Bytes) (room : ℕ) (later todo after : Bytes)
    → s ++ later ≡ (plus_one todo ++ 0 ∷ []) ++ after
    → Ends s todo (drain s room) ⊎ Goes s room todo (drain s room)
unfolding drain
drain-Drained [] room later todo after h = inr (refl, (todo, refl, refl), inl refl)
drain-Drained (b ∷ s) zero later todo after h = inr (refl, (todo, refl, refl), inr refl)
drain-Drained (zero ∷ s) (suc room) later [] after h = inl (refl, refl, refl)
drain-Drained (zero ∷ s) (suc room) later (t ∷ todo) after h = ground arith
drain-Drained (suc b ∷ s) (suc room) later [] after h = ground arith
drain-Drained (suc b ∷ s) (suc room) later (t ∷ todo) after h =
    let same : b ≡ t = pred_same b t (cc h) in
    rw (← same)
      (drain-put b s room todo (drain s room) (drain-Drained s room later todo after (cc h)))

after_same : (a b c : Bytes) → a ++ b ≡ a ++ c → b ≡ c
after_same [] b c h = h
after_same (x ∷ a) b c h = after_same a b c (cc h)

pub small-Inflates : Inflates small Packed
small-Inflates = record {
  Inflating = λ z eaten out. eaten ≡ plus_one out;
  not_empty = λ packed raw h e. ends_full (plus_one raw) (sym h ∙ e);
  begun = refl;
  inflated = λ z eaten out more todo input later after room h m some filled pos e.
      let rest : more ≡ plus_one todo ++ 0 ∷ [] = after_same eaten more (plus_one todo ++ 0 ∷ []) (
        m
        ∙ ap (λ s. s ++ 0 ∷ []) (plus_one-append out todo)
        ∙ append_assoc (plus_one out) (plus_one todo) (0 ∷ [])
        ∙ ap (λ s. s ++ (plus_one todo ++ 0 ∷ [])) (sym h)) in
      let c = drain input room in
      elim (drain-Drained input room later todo after (e ∙ ap (λ s. s ++ after) rest)) [
        | inl (code, split, all) ↦ inl (code, split ∙ ap (λ s. s ++ c.rest) (sym rest), all)
        | inr (code, (hidden, split, shown), stop) ↦ inr (
          code,
          (
            plus_one c.output,
            plus_one hidden ++ 0 ∷ [],
            hidden,
            split,
            rest
                ∙ ap (λ s. plus_one s ++ 0 ∷ []) shown
                ∙ ap (λ s. s ++ 0 ∷ []) (plus_one-append c.output hidden)
                ∙ append_assoc (plus_one c.output) (plus_one hidden) (0 ∷ []),
            ends_full (plus_one hidden),
            shown,
            ap (λ s. s ++ plus_one c.output) h ∙ sym (plus_one-append out c.output),
          ),
          stop,
        )
      ];
}
  where
    ends_full : (s : Bytes) → s ++ 0 ∷ [] ≢ []
    ends_full [] e = cc e
    ends_full (x ∷ s) e = cc e
