-- ===== src/Connection/Listing/Complete.antt =====
-- es3/connection.cpp: a listing by pages finds every name, and ends.
use extremes.Base.{
  ℕ, ◌<◌, ◌≡◌, ◌⊎◌, true, List, [], ◌∷◌, ◌++◌, Option, some, Bytes, codes, take, bytes_key,
}
use extremes.Connection.Listing.{Listed, list_args}
use extremes.Connection.Listing.Pages.{Item, IsOrdered, as_listed, page_of, Extra, last_key}
use extremes.Connection.Requests.{Environment, Outcome, done, read_fully}
use extremes.Sync.Tree.{S3Path, starts_with_slash}
use extremes.Connection.Listing.Entered.{is_listed}
use extremes.Connection.Listing.Members.{In}

module _ (env : Environment) (path : S3Path) (limit : ℕ) (all : List Item) where
  -- The bucket's listing: every request for a page is answered with a document, which lists what stands
  -- behind the marker, and holds any other nodes before these names.
  abbrev pub Serves : Type 0
  Serves =
      (marker : Bytes)
      → (body : Bytes) × (x : Extra) × (read_fully env (codes "GET")
            (record path { path = codes "/" }) (list_args env path marker) []
          ≡ done body)
        × (env.parse_xml body ≡ some (page_of x limit all marker))

  module _ (few : 0 < limit) (ordered : IsOrdered all) (slash : starts_with_slash path.path ≡ true)
      (serves : Serves) where
    -- What the rounds from a marker on come to, when `more` stands behind it.
    abbrev Lists : List Item → Listed → Option (Outcome Listed) → Type 0
    Lists more target r =
        (d : Listed) × (r ≡ some (done d))
        × ((i : Item) → In i more ⊎ (is_listed i target ≡ true) → is_listed i d ≡ true)

    -- A page that is not the last ends at one of the names, behind which the rest follows; every name
    -- is on the page or in the rest.
    Cut : List Item → Item → List Item → List Item → Type 0
    Cut more i before rest =
        (last_key [] (as_listed (take limit more)) ≡ i.key)
        × (more ≡ before ++ i ∷ rest)
        × ((j : Item) → In j more → In j (take limit more) ⊎ In j rest)
