-- ===== src/Connection/Listing/Pages.antt =====
-- The documented listing of a bucket: the names behind a marker in their order, as many as fit on a
-- page, files first; and what es3/connection.cpp makes of one page.
use extremes.Base.{
  ◌=k◌, ℕ, ◌≡◌, refl, Bool, true, false, not, List, [], ◌∷◌, ◌++◌, Bytes, codes, ltb, if◌then◌else◌,
  take, length, bytes_cmp, bytes_key, All,
}
use Prim.Native.Nat.{Ordering}
use extremes.Connection.Listing.{
  Listed, list_nodes, list_node, add_file, add_subdir, list_contents, list_prefix,
}
use extremes.Connection.Requests.{done}
use extremes.Connection.Xml.{
  value_of, Node, Nodes, node, no_nodes, sibling, named, first_child, first_text,
}
use extremes.Common.{atoll}
use extremes.Sync.Tree.{ends_in_slash}

-- A name that a listing gives: a common prefix, or a file with the texts of its time, its tag and its
-- size, and the nodes that follow these, such as its owner and its storage class.
pub record Item : Type 0 where
  pub key : Bytes
  pub is_prefix : Bool
  pub size : Bytes
  pub mtime : Bytes
  pub etag : Bytes
  pub details : Nodes

-- In the order of the names, each once.
abbrev pub Behind : Bytes → List Item → Type 0
Behind m = All (λ i. bytes_cmp m i.key ≡ Ordering.lt)

abbrev pub IsOrdered : List Item → Type 0
IsOrdered [] = Unit
IsOrdered (i ∷ is) = Behind i.key is × IsOrdered is

-- What stands behind the marker.
unfoldable pub behind : Bytes → List Item → List Item
behind m [] = []
behind m (i ∷ is) = elim (bytes_cmp m i.key) [ Ordering.lt ↦ i ∷ is | _ ↦ behind m is ]

abbrev leaf_node : Bytes → Bytes → Nodes → Nodes
leaf_node name text = sibling (node false name (sibling (node true text no_nodes) no_nodes))

abbrev pub render : Item → Node
render i =
    if i.is_prefix
    then node false (codes "CommonPrefixes") (leaf_node (codes "Prefix") i.key no_nodes)
    else node false (codes "Contents") (
        leaf_node (codes "Key") i.key (
          leaf_node (codes "LastModified") i.mtime
            (leaf_node (codes "ETag") i.etag (leaf_node (codes "Size") i.size i.details))))

abbrev pub keep_if : Bool → Item → List Item → List Item
keep_if true i is = i ∷ is
keep_if false i is = is

abbrev pub files_in : List Item → List Item
files_in [] = []
files_in (i ∷ is) = keep_if (not i.is_prefix) i (files_in is)

abbrev pub prefixes_in : List Item → List Item
prefixes_in [] = []
prefixes_in (i ∷ is) = keep_if i.is_prefix i (prefixes_in is)

abbrev pub as_listed : List Item → List Item
as_listed is = files_in is ++ prefixes_in is

abbrev pub renders : List Item → Nodes
renders [] = no_nodes
renders (i ∷ is) = sibling (render i) (renders is)

abbrev pub join : Nodes → Nodes → Nodes
join no_nodes later = later
join (sibling n ns) later = sibling n (join ns later)

-- None of the nodes has this value.
abbrev pub HasNo : Bytes → Nodes → Type 0
HasNo name no_nodes = Unit
HasNo name (sibling n ns) = ((value_of n =k name) ≡ false) × HasNo name ns

-- What else a reply holds: nodes before the root, as the declaration, and in the root before the flag
-- and between the flag and the names, as `Name`, `Prefix`, `Marker` and `MaxKeys`.
pub record Extra : Type 0 where
  pub prolog : Nodes
  pub front : Nodes
  pub between : Nodes
  pub no_root : HasNo (codes "ListBucketResult") prolog
  pub no_flag : HasNo (codes "IsTruncated") front
  pub no_file : HasNo (codes "Contents") between
  pub no_prefix : HasNo (codes "CommonPrefixes") between

abbrev pub flag_of : Bool → Node
flag_of trunc =
    node false (codes "IsTruncated")
      (sibling (node true (if trunc then codes "true" else codes "false") no_nodes) no_nodes)

abbrev pub page : Extra → Bool → List Item → Nodes
page x trunc is = join x.prolog (
    sibling
      (node false (codes "ListBucketResult")
        (join x.front (sibling (flag_of trunc) (join x.between (renders is)))))
      no_nodes)

-- The reply to a marker, from a bucket that holds `all`, by pages of `limit` names.
abbrev pub page_of : Extra → ℕ → List Item → Bytes → Nodes
page_of x limit all marker =
    let more = behind marker all in page x (ltb limit (length more)) (as_listed (take limit more))

-- What one name adds to the directory.
abbrev pub add_item : Item → Listed → Listed
add_item i target =
    if i.is_prefix
    then add_subdir i.key target
    else if ends_in_slash i.key
    then target
    else add_file i.key (record { size = atoll i.size; mtime_str = i.mtime }) target

abbrev pub add_items : List Item → Listed → Listed
add_items [] target = target
add_items (i ∷ is) target = add_items is (add_item i target)

abbrev pub last_key : Bytes → List Item → Bytes
last_key name [] = name
last_key name (i ∷ is) = last_key i.key is

list_node-render :
    (key size mtime etag : Bytes) (details : Nodes) (is_prefix : Bool) (target : Listed)
    → list_node
        (render (record {
          key = key;
          is_prefix = is_prefix;
          size = size;
          mtime = mtime;
          etag = etag;
          details = details;
        }))
        target
      ≡ done (
        add_item
            (record {
              key = key;
              is_prefix = is_prefix;
              size = size;
              mtime = mtime;
              etag = etag;
              details = details;
            })
            target,
        key,
      )
unfolding list_node list_contents list_prefix named first_child first_text bytes_cmp
list_node-render key size mtime etag details true target = refl
list_node-render key size mtime etag details false target = refl

pub list_nodes-renders :
    (is : List Item) (name : Bytes) (target : Listed)
    → list_nodes (renders is) name target ≡ done (add_items is target, last_key name is)
unfolding list_nodes
list_nodes-renders [] name target = refl
list_nodes-renders (i ∷ is) name target =
    rw (list_nodes, list_node-render i.key i.size i.mtime i.etag i.details i.is_prefix target)
      (list_nodes-renders is i.key (add_item i target))

pub named-join :
    (name : Bytes) (front later : Nodes)
    → HasNo name front
    → named name (join front later) ≡ named name later
unfolding named
named-join name no_nodes later h = refl
named-join name (sibling n ns) later h =
    let other = h.0 in rw (other, named) (named-join name ns later h.1)

-- Nodes that are neither files nor common prefixes change nothing.
pub list_nodes-join :
    (front later : Nodes) (target : Listed)
    → HasNo (codes "Contents") front
    → HasNo (codes "CommonPrefixes") front
    → list_nodes (join front later) [] target ≡ list_nodes later [] target
unfolding list_nodes list_node
list_nodes-join no_nodes later target h k = refl
list_nodes-join (sibling n ns) later target h k =
    let file = h.0 in
    let prefix = k.0 in
    rw (file, prefix, list_nodes, list_node) (list_nodes-join ns later target h.1 k.1)
