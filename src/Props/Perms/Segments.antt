-- ===== src/Props/Perms/Segments.antt =====
-- `Check` against the segments of a path, as `strings.Split(path, "/")` gives them.
use fuzzball_emerald.Prelude.{
  ℕ, ◌≡◌, ◌≢◌, refl, Bool, false, ◌||◌, List, [], ◌∷◌, arith, ◌==◌, if◌then◌else◌, Bytes,
}
use fuzzball_emerald.Props.Tree.{Segments, extend, split_slash}
use fuzzball_emerald.Props.Perms.{starts_with_byte, check_loop, check}

abbrev any_starts : List Bytes → ℕ → Bool
any_starts [] c = false
any_starts (seg ∷ segs) c = starts_with_byte seg c || any_starts segs c

-- Whether some segment begins with the byte.
abbrev pub segment_starts : Segments → ℕ → Bool
segment_starts (seg, segs) c = starts_with_byte seg c || any_starts segs c

abbrev later_starts : Segments → ℕ → Bool
later_starts (seg, segs) c = any_starts segs c

first_starts :
    (path : Bytes) (c : ℕ)
    → c ≢ b'/'
    → starts_with_byte path c ≡ starts_with_byte (split_slash path).0 c
unfolding split_slash starts_with_byte
first_starts [] c h = refl
first_starts (a ∷ s) c h = ground arith

split_slash-cons : (a : ℕ) (s : Bytes) → split_slash (a ∷ s) ≡ extend a (split_slash s)
unfolding split_slash
split_slash-cons a s = refl

later-extend :
    (a c : ℕ) (r : Segments)
    → later_starts (extend a r) c ≡ (if a == b'/' then segment_starts r c else later_starts r c)
later-extend a c (seg, segs) = ground arith

later : (path : Bytes) (c : ℕ) → c ≢ b'/' → check_loop path c ≡ later_starts (split_slash path) c
unfolding check_loop
later [] c h = unfold split_slash in refl
later (a ∷ []) c h = unfold split_slash starts_with_byte in ground arith
later (a ∷ b ∷ s) c h =
    let first : (b == c) ≡ starts_with_byte (split_slash (b ∷ s)).0 c =
      unfold starts_with_byte in first_starts (b ∷ s) c h in
    rw (split_slash-cons a (b ∷ s))
      (rw (later-extend a c (split_slash (b ∷ s))) (ground (arith, later (b ∷ s) c h, first)))

-- A sigil other than '/' is found in a path exactly where one of the path's segments begins with it.
pub check-segment_starts :
    (path : Bytes) (c : ℕ) → c ≢ b'/' → check path c ≡ segment_starts (split_slash path) c
unfolding check
check-segment_starts path c h = ground (arith, first_starts path c h, later path c h)
