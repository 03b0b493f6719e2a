-- ===== src/Maps/Merge.antt =====
-- What `MapMerge` leaves in the destination and in the source.
use grpc_gw_controller.Base.{
  Option, none, some, Bool, false, ◌||◌, List, [], ◌∷◌, String, string_eq, ◌≟◌, if◌then◌else◌,
  arith, ◌≡◌, refl, ◌∙◌,
}
use text.Mathlib.TextEquality.{eq_iff}
use grpc_gw_controller.Base.Text.{Bytes}
use grpc_gw_controller.Base.Dict.{lookup, insert, erase, lookup-insert, lookup-erase, erase_fresh}
use grpc_gw_controller.Maps.{Map, add, key_exists, delete, exclude, add_all, map_merge}

-- A Go map has each key once.
abbrev pub NodupKeys : Map → Type 0
NodupKeys [] = Unit {0}
NodupKeys ((k, v) ∷ m) = (lookup k m ≡ none) × NodupKeys m

abbrev pub mem_key : String → List String → Bool
mem_key k [] = false
mem_key k (f ∷ fs) = (f ≟ k) || mem_key k fs

abbrev pub or_else : Option Bytes → Option Bytes → Option Bytes
or_else none o = o
or_else (some v) o = some v

-- Deleting with or without the test of presence is the same.
guarded-delete : (m : Map) (f : String) → (if key_exists m f then delete m f else m) ≡ erase f m
unfolding key_exists delete
guarded-delete m f = ground (arith, erase_fresh f m)

lookup-exclude :
    (src : Map) (fs : List String) (k : String)
    → lookup k (exclude src fs) ≡ (if mem_key k fs then none else lookup k src)
unfolding exclude
lookup-exclude src [] k = refl
lookup-exclude src (f ∷ fs) k =
    rw (guarded-delete src f) (lookup-exclude (erase f src) fs k ∙ rw lookup-erase (ground arith))

erase-NodupKeys : (f : String) (m : Map) → NodupKeys m → NodupKeys (erase f m)
unfolding erase
erase-NodupKeys f [] h = tt
erase-NodupKeys f ((k, v) ∷ m) h = ground (arith, erase-NodupKeys f m h.1, lookup-erase f k m)

exclude-NodupKeys : (src : Map) (fs : List String) → NodupKeys src → NodupKeys (exclude src fs)
unfolding exclude
exclude-NodupKeys src [] h = h
exclude-NodupKeys src (f ∷ fs) h =
    rw (guarded-delete src f) (exclude-NodupKeys (erase f src) fs (erase-NodupKeys f src h))

lookup-add_all :
    (dst src : Map) (k : String)
    → NodupKeys src
    → lookup k (add_all dst src) ≡ or_else (lookup k src) (lookup k dst)
unfolding add_all add lookup
lookup-add_all dst [] k h = refl
lookup-add_all dst ((j, v) ∷ src) k h =
    lookup-add_all (insert j v dst) src k h.1 ∙ rw lookup-insert (ground (arith, h.0, eq_iff j k))

-- After a merge a key that is excluded keeps its value in the destination and is gone from the
-- source; any other key has the source's value, or the destination's where the source has none,
-- and keeps its value in the source.
pub lookup-map_merge :
    (dst src : Map) (fs : List String) (k : String)
    → NodupKeys src
    → (lookup k (map_merge dst src fs).0
        ≡ (if mem_key k fs then lookup k dst else or_else (lookup k src) (lookup k dst)))
      × (lookup k (map_merge dst src fs).1 ≡ (if mem_key k fs then none else lookup k src))
unfolding map_merge
lookup-map_merge dst src fs k h = (
  lookup-add_all dst (exclude src fs) k (exclude-NodupKeys src fs h)
      ∙ rw lookup-exclude (ground arith),
  lookup-exclude src fs k,
)
