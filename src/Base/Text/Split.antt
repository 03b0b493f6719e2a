-- ===== src/Base/Text/Split.antt =====
-- What splitting, joining and searching do to texts that are put together by known separators.
use Prim.Native.Nat.{ℕ}
use mathlib.Core.Bool.{Bool, true, false}
use mathlib.Core.Path.{◌≡◌, refl, ◌∙◌, ap}
use mathlib.Core.Logic.{◌≢◌}
use mathlib.Core.List.{List, [], ◌∷◌, ◌++◌}
use native.Mathlib.Omega.{arith}
use grpc_gw_controller.Base.Tests.{◌==◌}
use grpc_gw_controller.Base.Lists.{All}
use grpc_gw_controller.Base.Text.{
  Bytes, split_by, split, fields, join, contains, has_prefix, is_space,
}

-- No byte of the text passes the test.
abbrev pub Without : (ℕ → Bool) → Bytes → Type 0
Without sep = All (λ c. sep c ≡ false)

module _ (sep : ℕ → Bool) where
  pub split_by-append :
      (w : Bytes) (c : ℕ) (s : Bytes)
      → Without sep w
      → sep c ≡ true
      → split_by sep (w ++ c ∷ s) ≡ w ∷ split_by sep s
  unfolding split_by
  split_by-append [] c s h e = rw e
  split_by-append (d ∷ w) c s h e = rw (h.0, split_by-append w c s h.1 e)

  pub split_by_whole : (w : Bytes) → Without sep w → split_by sep w ≡ w ∷ []
  unfolding split_by
  split_by_whole [] h = refl
  split_by_whole (d ∷ w) h = rw (h.0, split_by_whole w h.1)

-- Splitting undoes joining where no piece has the separator.
pub split-join :
    (sep : ℕ) (w : Bytes) (ws : List Bytes)
    → All (Without (λ c. c == sep)) (w ∷ ws)
    → split sep (join (w ∷ ws) (sep ∷ [])) ≡ w ∷ ws
unfolding join
split-join sep w [] h = split_by_whole (λ c. c == sep) w h.0
split-join sep w (v ∷ ws) h =
    split_by-append (λ c. c == sep) w sep (join (v ∷ ws) (sep ∷ [])) h.0 (ground arith)
    ∙ ap (λ (l : List Bytes). w ∷ l) (split-join sep v ws h.1)

-- A word before a space is the first field.
pub fields-append :
    (w s : Bytes) → w ≢ [] → Without is_space w → fields (w ++ 32 ∷ s) ≡ w ∷ fields s
unfolding fields
fields-append [] s e h = absurd (e refl)
fields-append (c ∷ w) s e h = rw (split_by-append is_space (c ∷ w) 32 s h refl)

pub fields_whole : (w : Bytes) → w ≢ [] → Without is_space w → fields w ≡ w ∷ []
unfolding fields
fields_whole [] e h = absurd (e refl)
fields_whole (c ∷ w) e h = rw (split_by_whole is_space (c ∷ w) h)

pub contains_byte : (w : Bytes) (c : ℕ) (s : Bytes) → contains (w ++ c ∷ s) (c ∷ []) ≡ true
unfolding contains has_prefix
contains_byte [] c s = ground arith
contains_byte (d ∷ w) c s = ground (arith, contains_byte w c s)

pub not-contains_byte : (w : Bytes) (c : ℕ) → Without (λ d. d == c) w → contains w (c ∷ []) ≡ false
unfolding contains has_prefix
not-contains_byte [] c h = refl
not-contains_byte (d ∷ w) c h = ground (arith, not-contains_byte w c h.1)
