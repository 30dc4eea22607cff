-- ===== src/Headers/Examples.antt =====
-- http/http_headers.cpp: the search for a header at concrete names.
use gweb_plusplus.Base.{Bytes, [], ◌∷◌, some, ◌≡◌, refl}
use gweb_plusplus.NameSearch.{lower, compare_names}
use gweb_plusplus.NameSearch.Found.{IsLookup}
use gweb_plusplus.Headers.Table.{header_names, unknown_header, get_header}
use gweb_plusplus.Headers.Lookup.{get_header-IsLookup}

abbrev host : Bytes
host = b'h' ∷ b'O' ∷ b'S' ∷ b't' ∷ []

host_run : get_header host ≡ some 23
unfolding get_header compare_names
host_run = refl

get_header-IsLookup_example : IsLookup lower header_names unknown_header host (get_header host)
get_header-IsLookup_example = get_header-IsLookup host
