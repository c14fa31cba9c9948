-- ===== src/Tests/Handles.antt =====
-- Runs of es3/context.cpp and es3/connection.cpp.
use extremes.Base.{some, ◌≡◌, [], codes, nat_key, bytes_cmp}
use extremes.Base.{false, refl, inl, inr}
use extremes.Errors.{ok}
use extremes.Paths.{print_path, parse_path, has_double_slash}
use extremes.Paths.RoundTrip.{has_slash, parse_path-print_path}
use extremes.Context.{Context, get_curl, release_curl, taint}
use extremes.Context.Counts.{held}
use extremes.Context.Owners.{Reached, new, got, released, tainted, Reached-places}
use extremes.Context.Places.{places}

abbrev unused : Context
unused = record { curls = []; error_bufs = []; borrowed_curls = []; use_counts = [] }

-- Handle 1 was lent and given back.
abbrev idle_one : Context
idle_one = release_curl 1 (get_curl (codes "s3") (codes "box") (some 1) unused).1

-- Handle 1 was lent, tainted and given back; `get_curl` cleans it up, and `curl_easy_init` gives the
-- same address again.
abbrev renewed : Context
renewed = (get_curl (codes "s3") (codes "box") (some 1) (taint 1 idle_one)).1

renewed-Reached : Reached renewed
unfolding get_curl release_curl taint bytes_cmp
renewed-Reached =
    got (codes "s3") (codes "box") (some 1)
      (tainted 1
        (released 1 (got (codes "s3") (codes "box") (some 1) (new unused refl) (inl refl))))
      (inr ([], refl))

Reached-places_example : places 1 renewed ≡ held 1 renewed.error_bufs
Reached-places_example = Reached-places renewed renewed-Reached 1

box-plain : has_slash (codes "box") ≡ false
box-plain = refl

path-single : has_double_slash (codes "/a/b") ≡ false
path-single = refl

parse_path-print_path_example :
    parse_path (print_path (record { zone = []; bucket = codes "box"; path = codes "/a/b" }))
    ≡ ok (record { zone = []; bucket = codes "box"; path = codes "/a/b" })
parse_path-print_path_example =
    parse_path-print_path b'b' (codes "ox") (codes "a/b") box-plain path-single
