-- ===== src/Ascii/Tests.antt =====
-- The theorems on matching and on the alphanumeric order at concrete strings, and runs of that order.
use fuzzball_emerald.Prelude.{◌≡◌, Bool, some, codes}
use fuzzball_emerald.Prelude.{refl}
use fuzzball_emerald.Prelude.Int.{negsuc}
use fuzzball_emerald.Ascii.{lower}
use fuzzball_emerald.Ascii.Alphanum.{alphanum_compare, walk, compare_from, back_over, digits}
use fuzzball_emerald.Ascii.Alphanum.Opposite.{opposite, alphanum_compare-opposite}
use fuzzball_emerald.Ascii.SMatch.{smatch}
use fuzzball_emerald.Ascii.SMatch.Total.{smatch-total}

smatch-total_example :
    (b : Bool) × (smatch (codes "a gold ring") (codes "*{silver|gold}*") ≡ some b)
smatch-total_example = smatch-total (codes "a gold ring") (codes "*{silver|gold}*")

-- Two before ten.
by_value : alphanum_compare (codes "item2") (codes "Item10") ≡ negsuc 7
unfolding alphanum_compare walk compare_from back_over digits lower
by_value = refl

-- With zeros in front the numbers are the same, and the bytes decide.
by_bytes : alphanum_compare (codes "007") (codes "7") ≡ negsuc 6
unfolding alphanum_compare walk compare_from back_over digits lower
by_bytes = refl

alphanum_compare-opposite_example :
    alphanum_compare (codes "Item10") (codes "item2")
    ≡ opposite (alphanum_compare (codes "item2") (codes "Item10"))
alphanum_compare-opposite_example = alphanum_compare-opposite (codes "item2") (codes "Item10")
