-- ===== src/Connection/Listing.antt =====
-- es3/connection.cpp: `list_files_shallow`, which lists a directory page by page.
pub mod Pages
pub mod Members
pub mod Entered
pub mod Names
pub mod Complete
pub mod Waiting
use extremes.Base.{
  ℕ, zero, suc, ◌+◌, Bool, true, false, not, ◌&&◌, List, [], ◌∷◌, ◌++◌, Option, none, some, Bytes,
  codes, ltb, leb, ◌==◌, if◌then◌else◌, bytes_key, ◌=k◌, drop,
}
use extremes.Base.Map.{Map, insert}
use extremes.Common.{is_empty, atoll}
use extremes.Connection.Requests.{
  Environment, Outcome, done, failed, crashed, ◌>>=◌, lift, read_fully,
}
use extremes.Connection.Xml.{
  Node, Nodes, no_nodes, sibling, named, first_child, first_text, value_of,
}
use extremes.Errors.{err, err_warn, throw, ok}
use extremes.Paths.{print_path}
use extremes.Sync.Tree.{
  S3Path, Entry, Dir, Dirs, dir, no_dirs, insert_dir, derive, ends_in_slash, starts_with_slash,
  absolute_name_of,
}

-- What an `s3_file` keeps besides its names.
pub record FileInfo : Type 0 where
  pub size : ℕ
  pub mtime_str : Bytes

abbrev pub Listed : Type 0
Listed = Dir S3Path FileInfo

-- `find_last_of('/')`: what stands up to the last slash, and what follows it.
unfoldable pub split_last : Bytes → Option (Bytes × Bytes)
split_last [] = none
split_last (c ∷ s) = elim (split_last s) [
  | some (front, back) ↦ some (c ∷ front, back)
  | none ↦ elim (c == b'/') [ true ↦ some (c ∷ [], s) | false ↦ none ]
]

unfoldable pub extract_leaf : Bytes → Bytes
unfolding split_last
extract_leaf path = elim (split_last path) [
  | none ↦ path
  | some (front, []) ↦ path
  | some (front, c ∷ back) ↦ c ∷ back
]

-- The directory that is made when none is given.
unfoldable pub new_target : S3Path → Bool → Listed
unfolding split_last
new_target path try_to_root =
    let up : Bytes = elim (split_last path.path) [
      | none ↦ codes "/"
      | some (front, back) ↦ front
    ] in
    dir (if try_to_root && not (ends_in_slash path.path) then record path { path = up } else path)
      [] [] no_dirs

abbrev pub add_file : Bytes → FileInfo → Listed → Listed
add_file key info (dir abs name files dirs) =
    let leaf = extract_leaf key in
    dir abs name
      (insert leaf (record { absolute_name = derive abs leaf; name = leaf; info = info }) files)
      dirs

-- Without the last character.
abbrev pub all_but_last : Bytes → Bytes
all_but_last [] = []
all_but_last (c ∷ []) = []
all_but_last (c ∷ d ∷ s) = c ∷ all_but_last (d ∷ s)

abbrev pub add_subdir : Bytes → Listed → Listed
add_subdir prefix (dir abs name files dirs) =
    let leaf = extract_leaf (all_but_last prefix) in
    dir abs name files (insert_dir leaf (dir (derive abs (leaf ++ codes "/")) leaf [] no_dirs) dirs)

-- One `Contents` node: the file, unless its name ends in a slash, and the name.
unfoldable pub list_contents : Node → Listed → Outcome (Listed × Bytes)
unfolding first_child first_text atoll
list_contents n target =
    let only = sibling n no_nodes in
    elim (first_text (first_child (codes "Key") only)) [
      | none ↦ crashed
      | some name ↦ elim (first_text (first_child (codes "Size") only)) [
        | none ↦ crashed
        | some size ↦ elim (first_text (first_child (codes "LastModified") only)) [
          | none ↦ crashed
          | some mtime ↦ done (
            if ends_in_slash name
                then target
                else add_file name (record { size = atoll size; mtime_str = mtime }) target,
            name,
          )
        ]
      ]
    ]

unfoldable pub list_prefix : Node → Listed → Outcome (Listed × Bytes)
unfolding first_child first_text
list_prefix n target = elim (first_text (first_child (codes "Prefix") (sibling n no_nodes))) [
  | none ↦ crashed
  | some name ↦ done (add_subdir name target, name)
]

unfoldable pub list_node : Node → Listed → Outcome (Listed × Bytes)
unfolding list_contents list_prefix
list_node n target =
    if value_of n =k codes "Contents"
    then list_contents n target
    else if value_of n =k codes "CommonPrefixes"
    then list_prefix n target
    else done (target, [])

-- The inner loop; the name at its end becomes the marker.
unfoldable pub list_nodes : Nodes → Bytes → Listed → Outcome (Listed × Bytes)
unfolding list_node
list_nodes no_nodes name target = done (target, name)
list_nodes (sibling n ns) name target =
    list_node n target >>= λ listed. let (next, found) = listed in list_nodes ns found next

-- The end of a page, by the node `IsTruncated`.
unfoldable pub page_end : Node → Listed × Bytes → Outcome (Listed × Option Bytes)
unfolding first_text
page_end n (target, marker) = elim (first_text (sibling n no_nodes)) [
  | none ↦ crashed
  | some is_trunc ↦ done (target, if is_trunc =k codes "false" then none else some marker)
]

-- A page: the directory with what it lists, and the marker of the next page if the listing goes on.
unfoldable pub list_page : Nodes → Listed → Outcome (Listed × Option Bytes)
unfolding list_nodes page_end first_child named
list_page doc target =
    elim (first_child (codes "IsTruncated") (named (codes "ListBucketResult") doc)) [
      | no_nodes ↦ done (target, none)
      | sibling n no_nodes ↦ done (target, none)
      | sibling n (sibling m ns) ↦ list_nodes (sibling m ns) [] target >>= page_end n
    ]

module _ (env : Environment) (path : S3Path) where
  abbrev pub list_args : Bytes → Bytes
  list_args marker =
      let no_leading_slash = drop 1 path.path in
      if is_empty no_leading_slash
      then codes "?marker=" ++ env.escape marker ++ codes "&delimiter=/"
      else codes "?prefix="
        ++ env.escape no_leading_slash
        ++ codes "&marker="
        ++ env.escape marker
        ++ codes "&delimiter=/"

  -- One round of the outer loop.
  unfoldable pub list_round : Bytes → Listed → Outcome (Listed × Option Bytes)
  unfolding read_fully list_page
  list_round marker target =
      if starts_with_slash path.path
      then (read_fully env (codes "GET") (record path { path = codes "/" }) (list_args marker) []
          >>= λ list. elim (env.parse_xml list) [
            | none ↦
                lift false
                  (err err_warn (codes "Failed to get file listing from /" ++ print_path path))
                >>= λ _. crashed
            | some doc ↦ list_page doc target
          ])
      else crashed

  -- The outer loop, with fuel for its rounds; `none` means that the fuel ran out.
  unfoldable pub list_rounds : ℕ → Bytes → Listed → Option (Outcome Listed)
  unfolding list_round
  list_rounds zero marker target = none
  list_rounds (suc fuel) marker target = elim (list_round marker target) [
    | failed tainted e ↦ some (failed tainted e)
    | crashed ↦ some crashed
    | done (next, none) ↦ some (done next)
    | done (next, some more) ↦ list_rounds fuel more next
  ]

  -- `list_files_shallow`, less the wait for other listings.
  unfoldable pub list_files_shallow : ℕ → Option Listed → Bool → Option (Outcome Listed)
  unfolding list_rounds new_target
  list_files_shallow fuel target try_to_root = elim target [
    | none ↦ list_rounds fuel [] (new_target path try_to_root)
    | some given ↦ list_rounds fuel [] given
  ]

-- The wait at the start of `list_files_shallow`, by `num_lists_` and the option
-- `concurrent_list_req_`: the new count, unless the thread has to wait.
unfoldable pub enter_list : ℕ → ℕ → Option ℕ
enter_list num_reqs num_lists =
    if ltb 0 num_reqs && ltb num_reqs num_lists then none else some (suc num_lists)
