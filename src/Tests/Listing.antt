-- ===== src/Tests/Listing.antt =====
-- Runs of a listing of es3/connection.cpp, by pages of one name.
use extremes.Base.{
  ◌≡◌, refl, true, false, List, [], ◌∷◌, ◌++◌, some, Bytes, codes, get_or, bytes_cmp, ◌==◌,
  if◌then◌else◌,
}
use extremes.Connection.Listing.{list_args}
use extremes.Connection.Listing.Pages.{Item, Extra, behind, page_of}
use extremes.Connection.Requests.{Environment, replied, done, read_fully}
use extremes.Connection.Xml.{Node, Nodes, node, sibling, no_nodes}
use extremes.Sync.Tree.{S3Path}

abbrev with_text : Bytes → Bytes → Node
with_text name text = node false name (sibling (node true text no_nodes) no_nodes)

abbrev item_a : Item
item_a = record {
  key = codes "a";
  is_prefix = false;
  size = codes "12";
  mtime = codes "2013";
  etag = codes "0123";
  details = sibling (with_text (codes "StorageClass") (codes "STANDARD")) no_nodes;
}

abbrev item_b : Item
item_b = record {
  key = codes "b/";
  is_prefix = true;
  size = [];
  mtime = [];
  etag = [];
  details = no_nodes;
}

-- A declaration, and the nodes of a reply around the flag.
abbrev around : Extra
unfolding bytes_cmp
around = record {
  prolog = sibling (node false [] no_nodes) no_nodes;
  front =
      sibling (with_text (codes "Name") (codes "b"))
        (sibling (with_text (codes "MaxKeys") (codes "1")) no_nodes);
  between = sibling (with_text (codes "EncodingType") (codes "url")) no_nodes;
  no_root = (refl, tt);
  no_flag = (refl, (refl, tt));
  no_file = (refl, tt);
  no_prefix = (refl, tt);
}

abbrev bucket : List Item
bucket = item_a ∷ item_b ∷ []

-- A marker is escaped to how many of the names stand behind it.
abbrev digit_of : List Item → Bytes
digit_of [] = codes "0"
digit_of (i ∷ []) = codes "1"
digit_of (i ∷ j ∷ is) = codes "2"

abbrev digit : Bytes → Bytes
digit m = digit_of (behind m bucket)

-- The digit stands at this place of the URL.
abbrev page_for : Bytes → Nodes
page_for url =
    if get_or url 34 0 == b'2'
    then page_of around 1 bucket []
    else if get_or url 34 0 == b'1'
    then page_of around 1 bucket (codes "a")
    else page_of around 1 bucket (codes "b/")

abbrev server : Environment
server = record {
  use_ssl = false;
  api_key = [];
  secret_key = [];
  date = [];
  hmac_sha1 = λ key text. key;
  escape = digit;
  perform = λ request. replied 200 [] request.url;
  parse_xml = λ url. some (page_for url);
}

abbrev root : S3Path
root = record { zone = codes "s3"; bucket = codes "b"; path = codes "/" }

abbrev url_with : Bytes → Bytes
url_with d = codes "http://b.s3.amazonaws.com/?marker=" ++ d ++ codes "&delimiter=/"

abbrev Served : Bytes → Type 0
Served marker =
    (body : Bytes) × (x : Extra) × (read_fully server (codes "GET")
        (record root { path = codes "/" }) (list_args server root marker) []
      ≡ done body)
    × (server.parse_xml body ≡ some (page_of x 1 bucket marker))
