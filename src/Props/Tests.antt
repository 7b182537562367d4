-- ===== src/Props/Tests.antt =====
-- Runs of the property tree, and the theorems on it at a concrete tree.
use fuzzball_emerald.Prelude.{
  ◌+◌, length, ◌≡◌, ◌≢◌, refl, true, false, none, some, [], arith, codes, if◌then◌else◌,
}
use fuzzball_emerald.Prelude.Int.{pos}
use fuzzball_emerald.Props.Value.{Value, string, int, is_empty}
use fuzzball_emerald.Ascii.{fold}
use fuzzball_emerald.Props.Order.{bytes_lt}
use fuzzball_emerald.Props.Tree.{kids_of, Tree, new, get, set, delete, split, split_slash}
use fuzzball_emerald.Props.Tree.Map.{same_path}
use fuzzball_emerald.Props.Tree.Refines.{get-delete, get-set, stored}
use fuzzball_emerald.Props.Tree.Count.{
  IsCounted, set-IsCounted, set-delete-IsCounted, new-IsCounted,
}
use fuzzball_emerald.Props.Tree.Dirs.{delete_dir}
use fuzzball_emerald.Props.Tree.Dirs.Counted.{delete_dir-IsCounted}
use fuzzball_emerald.Props.Tree.Walk.{all, walk_all}
use fuzzball_emerald.Props.Tree.Walk.Entries.{all-walk_all, without_dirs}
use fuzzball_emerald.Props.Perms.{check}
use fuzzball_emerald.Props.Perms.Segments.{check-segment_starts, segment_starts}

abbrev gold : Value
gold = record { content = string (codes "gold"); blessed = false }

abbrev seven : Value
seven = record { content = int (pos 7); blessed = true }

abbrev sample : Tree
sample = set (set new (codes "_/desc") gold) (codes "a/b") seven

sample-IsCounted : IsCounted sample
sample-IsCounted =
    set-IsCounted (set new (codes "_/desc") gold) (codes "a/b") seven
      (set-IsCounted new (codes "_/desc") gold new-IsCounted)

reads_back : get sample (codes "/A//B:x") ≡ some seven
unfolding get set new is_empty bytes_lt fold
reads_back = refl

set-delete-IsCounted_example :
    IsCounted (set sample (codes "a/b") gold) × IsCounted (delete sample (codes "a/b")).0
set-delete-IsCounted_example = set-delete-IsCounted sample (codes "a/b") gold sample-IsCounted

get-delete_example : get (delete sample (codes "a/b")).0 (codes "A/B") ≡ (
    if same_path (split (codes "a/b")) (split (codes "A/B"))
    then none
    else get sample (codes "A/B"))
get-delete_example = get-delete sample (codes "a/b") (codes "A/B") sample-IsCounted.tree

named : split (codes "a/b") ≢ []
unfolding split
named e = ground (arith, e)

get-set_example : get (set sample (codes "a/b") gold) (codes "A/B") ≡ (
    if same_path (split (codes "a/b")) (split (codes "A/B"))
    then stored gold
    else get sample (codes "A/B"))
get-set_example = get-set sample (codes "a/b") (codes "A/B") gold sample-IsCounted.tree named

delete_dir-IsCounted_example :
    IsCounted (delete_dir sample (codes "a")).0
    × ((delete_dir sample (codes "a")).0.n + (delete_dir sample (codes "a")).1 ≡ sample.n)
delete_dir-IsCounted_example = delete_dir-IsCounted sample (codes "a") sample-IsCounted

named_dir : split (codes "a") ≢ []
unfolding split
named_dir e = ground (arith, e)

all-walk_all_example :
    (length (all sample) ≡ sample.n)
    × (all sample ≡ without_dirs (walk_all (kids_of sample.root) []))
all-walk_all_example = all-walk_all sample sample-IsCounted

check-segment_starts_example :
    check (codes "a/@b") b'@' ≡ segment_starts (split_slash (codes "a/@b")) b'@'
check-segment_starts_example = check-segment_starts (codes "a/@b") b'@' (omega arith)
