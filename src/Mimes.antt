-- ===== src/Mimes.antt =====
-- es3/mimes.cpp: the content type of a file's extension.
mod Table1
mod Table2
mod Table3
mod Table4
mod Table5
use extremes.Base.{List, [], ◌∷◌, Bytes, String, codes, Option, none, some, bytes_key}
use extremes.Base.Map.{Map, find, insert, upsert}
use Table1.{table1}
use Table2.{table2}
use Table3.{table3}
use Table4.{table4}
use Table5.{table5}

-- The global `mp`.
abbrev pub MimeMap : Type 0
MimeMap = Map Bytes Bytes

abbrev pub default_mime : Bytes
default_mime = codes "application/x-binary"

abbrev pub or_default : Option Bytes → Bytes
or_default none = default_mime
or_default (some mime) = mime

unfoldable pub find_mime : MimeMap → Bytes → Bytes
unfolding find
find_mime mp ext = or_default (find ext mp)

-- `mp[key]=value;` for one line of `init_mimes` after the other.
unfoldable pub assign : List (String × String) → MimeMap → MimeMap
unfolding upsert
assign [] mp = mp
assign ((key, value) ∷ lines) mp = assign lines (insert (codes key) (codes value) mp)

unfoldable pub init_mimes : MimeMap → MimeMap
unfolding assign
init_mimes mp = assign table5 (assign table4 (assign table3 (assign table2 (assign table1 mp))))

-- All lines of `init_mimes`.
abbrev pub lines_of : List (List (String × String))
lines_of = table1 ∷ table2 ∷ table3 ∷ table4 ∷ table5 ∷ []
