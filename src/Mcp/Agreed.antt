-- ===== src/Mcp/Agreed.antt =====
-- What two ends have agreed on after an opening message and after an offer (handleInit and
-- NegotiateHandler of frame.go).
use Prim.Native.Nat.{ℕ, ◌<◌, ◌^◌}
use mathlib.Core.Path.{◌≡◌, refl, sym}
use mathlib.Core.Bool.{Bool, true, false, not, ◌&&◌, ◌||◌}
use mathlib.Core.List.{List, []}
use mathlib.Core.Option.{Option, none, some}
use fuzzball_emerald.Prelude.{if◌then◌else◌, Bytes, codes, arith, Bool-cases, inl, inr}
use fuzzball_emerald.Mcp.{Version, Message, arg_value}
use fuzzball_emerald.Mcp.Frames.{Frame}
use fuzzball_emerald.Mcp.Versions.{null_version, less, select_version}
use fuzzball_emerald.Mcp.Negotiate.{server_version, range_of, take_key, settle, handle_init}

Version-eq : (v w : Version) → v.major ≡ w.major → v.minor ≡ w.minor → v ≡ w
Version-eq v w e h = rw (e, h) refl

-- The server's version lies in the range.
abbrev pub covers : Option (Version × Version) → Bool
covers none = false
covers (some (low, high)) = not (less server_version low) && not (less high server_version)

abbrev pub version_after : Version → Option (Version × Version) → Version
version_after old none = old
version_after old (some r) = if covers (some r) then server_version else null_version

equal_versions :
    (v : Version)
    → less server_version v ≡ false
    → less v server_version ≡ false
    → server_version ≡ v
unfolding less
equal_versions v h k = Version-eq server_version v (ground arith) (ground arith)

select_version-server :
    (low high : Version)
    → select_version server_version server_version low high
      ≡ version_after server_version (some (low, high))
unfolding select_version
select_version-server low high = elim (Bool-cases (less server_version low)) [
  | inl e ↦ rw e refl
  | inr e ↦ rw e (elim (Bool-cases (less high server_version)) [
    | inl h ↦ rw h refl
    | inr h ↦ rw h (elim (Bool-cases (less server_version high)) [
      | inl k ↦ rw k refl
      | inr k ↦ rw k (sym (equal_versions high k h))
    ])
  ])
]

abbrev pub key_after : Bytes → Option Bytes → Bytes
key_after key none = key
key_after key (some k) = k

-- How a frame stands: whether it is enabled, its version and its key.
abbrev pub standing : Frame → Bool × Version × Bytes
standing f = (f.enabled, f.version, f.auth_key)

or_false : (b : Bool) → (b || false) ≡ b
or_false b = ground arith

or_true : (b : Bool) → (b || true) ≡ true
or_true b = ground arith

settle-standing :
    (tags : ℕ → Bytes) (r : Option (Version × Version)) (f : Frame) (out : List Bytes)
    → standing (settle tags r (f, out)).0
      ≡ (f.enabled || covers r, version_after f.version r, f.auth_key)
settle-standing tags none f out = rw (or_false f.enabled) refl
settle-standing tags (some (low, high)) f out =
    rw (select_version-server low high) (elim (Bool-cases (covers (some (low, high)))) [
      | inl e ↦ rw (e, or_true f.enabled) refl
      | inr e ↦ rw (e, or_false f.enabled) refl
    ])

take_key-settle :
    (tags : ℕ → Bytes) (r : Option (Version × Version)) (f : Frame) (key : Bytes) (k : Option Bytes)
    → standing (settle tags r (take_key f key (tags 0) k)).0
      ≡ (f.enabled || covers r, version_after f.version r, key_after key k)
take_key-settle tags r f key none = settle-standing tags r (record f { auth_key = key }) _
take_key-settle tags r f key (some k) = settle-standing tags r (record f { auth_key = k }) []

-- An opening message leaves the connection enabled where it was, or where the range of versions
-- that the message names has 2.1; the version is then 2.1, and the null version where the range has
-- not, and stays where there is no range; the key is the client's, or else the one drawn.
pub handle_init-standing :
    (f : Frame) (key : Bytes) (tags : ℕ → Bytes) (m : Message)
    → m.name ≡ []
    → standing (handle_init f key tags m).0 ≡ (
      f.enabled || covers (range_of (codes "version") (codes "to") m.args),
      version_after f.version (range_of (codes "version") (codes "to") m.args),
      key_after key (arg_value (codes "authentication-key") m.args),
    )
unfolding handle_init
handle_init-standing f key tags m e = rw e (
    take_key-settle tags (range_of (codes "version") (codes "to") m.args) f key
      (arg_value (codes "authentication-key") m.args))

abbrev pub Fits : Version → Type 0
Fits v = (v.major < 2 ^ 63) × (v.minor < 2 ^ 63)
