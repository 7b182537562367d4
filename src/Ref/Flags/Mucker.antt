-- ===== src/Ref/Flags/Mucker.antt =====
-- The mucker level in the flag word: what setting it makes of the level and of the other bits.
use fuzzball_emerald.Prelude.{ℕ, ◌+◌, ◌/◌, ◌%◌, ◌≡◌, arith, ltb, if◌then◌else◌}
use fuzzball_emerald.Prelude.Int.{ℤ, pos, negsuc}
use fuzzball_emerald.Ref.Flags.{
  Flags, clear_bit, mucker, smucker, type_of, with_type, raw_m_level, set_m_level,
}

-- After a level from 0 to 3 is set, it is the level; a higher one is not clamped to 3, but becomes 2
-- or 3 by its parity.
pub raw_m_level-set_m_level :
    (f : Flags) (n : ℕ) → raw_m_level (set_m_level f (pos n)) ≡ (if ltb n 2 then n else 2 + n % 2)
unfolding raw_m_level set_m_level
raw_m_level-set_m_level f n = ground arith

-- What of a word is neither of the two mucker bits.
abbrev pub without_level : Flags → Flags
without_level f = clear_bit (clear_bit f mucker) smucker

-- Setting a mucker level of any sign leaves every other bit of the word, and so the type, alone.
pub without_level-set_m_level :
    (f : Flags) (level : ℤ) → without_level (set_m_level f level) ≡ without_level f
unfolding set_m_level
without_level-set_m_level f (pos n) = ground arith
without_level-set_m_level f (negsuc n) = ground arith

-- Writing the type bits writes those of the given type and leaves the rest of the word alone.
pub type_of-with_type :
    (f : Flags) (t : ℕ) → (type_of (with_type f t) ≡ t % 8) × (with_type f t / 8 ≡ f / 8)
unfolding type_of with_type
type_of-with_type f t = (omega arith, omega arith)
