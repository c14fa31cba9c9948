-- ===== src/Connection/Listing/Names.antt =====
-- es3/connection.cpp, `list_files_shallow`: one page of a listing, and the names behind a marker.
use extremes.Base.{
  ◌≡◌, ◌≢◌, refl, ap, ◌∙◌, Bool, true, false, List, [], ◌∷◌, ◌++◌, Option, none, some, Bytes, codes,
  if◌then◌else◌, bytes_cmp, bytes_refl, bytes_trans, bytes_key,
}
use Prim.Native.Nat.{Ordering}
use extremes.Connection.Listing.{Listed, list_page, list_nodes, page_end}
use extremes.Connection.Listing.Pages.{
  Item, Behind, IsOrdered, behind, renders, add_items, last_key, list_nodes-renders,
  list_nodes-join, named-join, Extra, page, flag_of, join,
}
use extremes.Connection.Requests.{done}
use extremes.Connection.Xml.{Nodes, named, first_child, first_text, sibling, no_nodes}

-- The marker of the next page.
abbrev pub next_marker : Bool → List Item → Option Bytes
next_marker trunc is = if trunc then some (last_key [] is) else none

-- A page by what follows its flag.
after-flag :
    (doc rest : Nodes) (trunc : Bool) (is : List Item) (target : Listed)
    → first_child (codes "IsTruncated") (named (codes "ListBucketResult") doc)
      ≡ sibling (flag_of trunc) rest
    → list_nodes rest [] target ≡ done (add_items is target, last_key [] is)
    → (trunc ≡ true → rest ≢ no_nodes)
    → list_page doc target ≡ done (add_items is target, next_marker trunc is)
unfolding list_page page_end first_text bytes_cmp
after-flag doc no_nodes true is target e l filled = absurd (filled refl refl)
after-flag doc no_nodes false is target e l filled =
    let same : target ≡ add_items is target = cc in
    rw (list_page, e) (ap (λ t. done (t, none)) same)
after-flag doc (sibling m ns) true is target e l filled = rw (list_page, e, l) refl
after-flag doc (sibling m ns) false is target e l filled = rw (list_page, e, l) refl

join-filled : (front later : Nodes) → later ≢ no_nodes → join front later ≢ no_nodes
join-filled no_nodes later h = h
join-filled (sibling n ns) later h = λ e. cc

renders-filled : (is : List Item) → is ≢ [] → renders is ≢ no_nodes
renders-filled [] h = absurd (h refl)
renders-filled (i ∷ is) h = λ e. cc

flag_found :
    (x : Extra) (trunc : Bool) (is : List Item)
    → first_child (codes "IsTruncated") (named (codes "ListBucketResult") (page x trunc is))
      ≡ sibling (flag_of trunc) (join x.between (renders is))
unfolding named first_child bytes_cmp
flag_found x trunc is =
    ap (first_child (codes "IsTruncated"))
      (named-join (codes "ListBucketResult") x.prolog _ x.no_root)
    ∙ named-join (codes "IsTruncated") x.front _ x.no_flag

pub list_page-renders :
    (x : Extra) (trunc : Bool) (is : List Item) (target : Listed)
    → (trunc ≡ true → is ≢ [])
    → list_page (page x trunc is) target ≡ done (add_items is target, next_marker trunc is)
list_page-renders x trunc is target filled =
    after-flag (page x trunc is) (join x.between (renders is)) trunc is target
      (flag_found x trunc is)
      (list_nodes-join x.between (renders is) target x.no_file x.no_prefix
        ∙ list_nodes-renders is [] target)
      (λ on. join-filled x.between (renders is) (renders-filled is (filled on)))

pub behind-Behind : (m : Bytes) (is : List Item) → Behind m is → behind m is ≡ is
unfolding behind
behind-Behind m [] h = refl
behind-Behind m (i ∷ is) h = let first = h.0 in rw (behind, first) refl

behind-later :
    (m : Bytes) (i : Item) (is : List Item)
    → bytes_cmp m i.key ≢ Ordering.lt
    → behind m (i ∷ is) ≡ behind m is
unfolding behind
behind-later m i is h = go (bytes_cmp m i.key) refl
  where
    go : (o : Ordering) → bytes_cmp m i.key ≡ o → behind m (i ∷ is) ≡ behind m is
    go Ordering.lt e = absurd (h e)
    go Ordering.eq e = rw (behind, e) refl
    go Ordering.gt e = rw (behind, e) refl

not_below : (a b : Bytes) → bytes_cmp a b ≡ Ordering.lt → bytes_cmp b a ≢ Ordering.lt
not_below a b h k = let same = bytes_refl a in let loop = bytes_trans a b a h k in cc

All-at :
    (i : Item) (m : Bytes) (xs ys : List Item)
    → Behind m (xs ++ i ∷ ys)
    → bytes_cmp m i.key ≡ Ordering.lt
All-at i m [] ys h = h.0
All-at i m (x ∷ xs) ys h = All-at i m xs ys h.1

-- Behind the name `i` of the bucket stand exactly the later names.
pub behind-split :
    (i : Item) (before after : List Item)
    → IsOrdered (before ++ i ∷ after)
    → behind i.key (before ++ i ∷ after) ≡ after
behind-split i [] after h =
    behind-later i.key i after (λ k. let same = bytes_refl i.key in cc)
    ∙ behind-Behind i.key after h.0
behind-split i (j ∷ before) after h =
    behind-later i.key j (before ++ i ∷ after)
      (not_below j.key i.key (All-at i j.key before after h.0))
    ∙ behind-split i before after h.1
