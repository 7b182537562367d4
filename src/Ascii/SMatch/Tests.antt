-- ===== src/Ascii/SMatch/Tests.antt =====
-- Runs of the matcher on the patterns that smatch.go's comment names.
use fuzzball_emerald.Prelude.{◌≡◌, refl, true, false, some, codes}
use fuzzball_emerald.Ascii.SMatch.{smatch}
use fuzzball_emerald.Ascii.SMatch.Class.{range_hit, cmatch}

set_takes_a_word : smatch (codes "foop") (codes "{foo}p") ≡ some false
unfolding smatch
set_takes_a_word = refl

set_in_sentence : smatch (codes "a gold ring") (codes "*{silver|gold}*") ≡ some true
unfolding smatch
set_in_sentence = refl

set_not_golden : smatch (codes "a golden ring") (codes "*{gold}*") ≡ some false
unfolding smatch
set_not_golden = refl

negated_set : smatch (codes "iron ring") (codes "{^gold|silver} r?ng") ≡ some true
unfolding smatch
negated_set = refl

class_range : smatch (codes "Xb7") (codes "x[a-c][^a-z]") ≡ some true
unfolding smatch range_hit
class_range = refl

stars : smatch (codes "hello world") (codes "h*o*D") ≡ some true
unfolding smatch
stars = refl

trailing_dash : cmatch (codes "a-") b'-' ≡ true
unfolding cmatch range_hit
trailing_dash = refl
