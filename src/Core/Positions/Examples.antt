-- ===== src/Core/Positions/Examples.antt =====
-- A fund's position in a bond.
use treble_tracker.Prelude.{◌≡◌, refl, ◌++◌, some}
use treble_tracker.Prelude.Bytes.{codes}
use treble_tracker.Prelude.Bytes.Blank.{words}
use treble_tracker.Core.Chars.{ascii, upper}
use treble_tracker.Core.Positions.{
  position_subject, parse_position_subject, position_prefix_for, parse-position_subject, scope_of,
}

parse-position_subject_example :
    (parse_position_subject (codes "pos:isin:US7185461040:BIG-_FUND")
      ≡ some (codes "BIG-_FUND", codes "isin:US7185461040"))
    × (codes "pos:isin:US7185461040:BIG-_FUND"
        ≡ position_prefix_for (codes "isin:US7185461040") ++ codes "BIG-_FUND")
unfolding position_subject scope_of words upper
parse-position_subject_example =
    parse-position_subject ascii (codes " big:  fund") (codes "isin:US7185461040")
      (codes "pos:isin:US7185461040:BIG-_FUND") refl refl
