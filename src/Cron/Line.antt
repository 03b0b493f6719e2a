-- ===== src/Cron/Line.antt =====
-- The parts of a cron line, as `strings.Fields` and `strings.Split` find them again.
use grpc_gw_controller.Base.{
  ℕ, ◌<◌, ◌≡◌, refl, ◌≢◌, ◌∙◌, ap, Bool, true, false, List, [], ◌∷◌, ◌++◌, arith, bytes_eq, All,
  All-append, ◌==◌, map,
}
use grpc_gw_controller.Base.Text.{Bytes, bytes, is_space, fields, join}
use grpc_gw_controller.Base.Text.Split.{Without, fields-append, fields_whole}
use grpc_gw_controller.Base.Decimal.{decimal}
use grpc_gw_controller.Base.Decimal.RoundTrip.{IsDigit, decimal-IsDigit}
use grpc_gw_controller.Cron.{Sched, flag, week_days, cron_line, day_name, day_names}

abbrev pub comma : ℕ → Bool
comma c = c == b','

abbrev pub dash : ℕ → Bool
dash c = c == b'-'

pub digits-Without_space : (w : Bytes) → All IsDigit w → Without is_space w
digits-Without_space [] h = tt
digits-Without_space (c ∷ w) h = (ground (arith, h.0), digits-Without_space w h.1)

-- No digit is a byte below "0".
pub digits-Without : (sep : ℕ) (w : Bytes) → sep < 48 → All IsDigit w → Without (λ c. c == sep) w
digits-Without sep [] k h = tt
digits-Without sep (c ∷ w) k h = (ground (arith, h.0), digits-Without sep w k h.1)

pub decimals-Without :
    (sep : ℕ) (ns : List ℕ) → sep < 48 → All (Without (λ c. c == sep)) (map decimal ns)
decimals-Without sep [] k = tt
decimals-Without sep (n ∷ ns) k =
    (digits-Without sep (decimal n) k (decimal-IsDigit n), decimals-Without sep ns k)

pub join-Without :
    (test : ℕ → Bool) (sep : ℕ) (ws : List Bytes)
    → test sep ≡ false
    → All (Without test) ws
    → Without test (join ws (sep ∷ []))
unfolding join
join-Without test sep [] e h = tt
join-Without test sep (w ∷ []) e h = h.0
join-Without test sep (w ∷ v ∷ ws) e h =
    All-append (λ c. test c ≡ false) w _ h.0 (e, join-Without test sep (v ∷ ws) e h.1)

pub join-ne-nil : (w : Bytes) (ws : List Bytes) (sep : Bytes) → w ≢ [] → join (w ∷ ws) sep ≢ []
unfolding join
join-ne-nil [] ws sep h e = h refl
join-ne-nil (c ∷ w) [] sep h e = cc
join-ne-nil (c ∷ w) (v ∷ ws) sep h e = cc

-- The five fields of a line whose hours and days are single words.
pub fields-cron_line :
    (interval : ℕ) (hours days : Bytes)
    → hours ≢ []
    → Without is_space hours
    → days ≢ []
    → Without is_space days
    → fields (cron_line interval hours days)
      ≡ (bytes "*/" ++ decimal interval) ∷ hours ∷ bytes "*" ∷ bytes "*" ∷ days ∷ []
unfolding cron_line
fields-cron_line interval hours days nh sh nd sd =
    fields-append (bytes "*/" ++ decimal interval) (hours ++ (bytes " * * " ++ days)) (λ e. cc)
      (refl, (refl, digits-Without_space _ (decimal-IsDigit interval)))
    ∙ ap (λ (l : List Bytes). (bytes "*/" ++ decimal interval) ∷ l)
        (fields-append hours (bytes "* * " ++ days) nh sh
          ∙ ap (λ (l : List Bytes). hours ∷ l)
              (fields-append (bytes "*") (bytes "* " ++ days) (λ e. cc) (refl, tt)
                ∙ ap (λ (l : List Bytes). bytes "*" ∷ l)
                    (fields-append (bytes "*") days (λ e. cc) (refl, tt)
                      ∙ ap (λ (l : List Bytes). bytes "*" ∷ l) (fields_whole days nd sd))))

-- Without its days a line has four fields: the space before them ends it.
pub fields-cron_line_no_days :
    (interval : ℕ) (hours : Bytes)
    → hours ≢ []
    → Without is_space hours
    → fields (cron_line interval hours [])
      ≡ (bytes "*/" ++ decimal interval) ∷ hours ∷ bytes "*" ∷ bytes "*" ∷ []
unfolding cron_line
fields-cron_line_no_days interval hours nh sh =
    fields-append (bytes "*/" ++ decimal interval) (hours ++ bytes " * * ") (λ e. cc)
      (refl, (refl, digits-Without_space _ (decimal-IsDigit interval)))
    ∙ ap (λ (l : List Bytes). (bytes "*/" ++ decimal interval) ∷ l)
        (fields-append hours (bytes "* * ") nh sh ∙ ap (λ (l : List Bytes). hours ∷ l) four_fields)
  where
    four_fields : fields (bytes "* * ") ≡ bytes "*" ∷ bytes "*" ∷ []
    four_fields = unfold fields in refl

abbrev name_if : Bool → Bytes → List Bytes → List Bytes
name_if true d ds = d ∷ ds
name_if false d ds = ds

-- The English names of the days that are set, from Sunday on.
unfoldable pub chosen_days : Sched → List Bytes
chosen_days d = name_if d.sunday (bytes "Sunday") (
    name_if d.monday (bytes "Monday") (
      name_if d.tuesday (bytes "Tuesday") (
        name_if d.wednesday (bytes "Wednesday") (
          name_if d.thursday (bytes "Thursday")
            (name_if d.friday (bytes "Friday") (name_if d.saturday (bytes "Saturday") []))))))

day_names-flag :
    (b : Bool) (d name : Bytes) (ds names : List Bytes)
    → day_name d ≡ name ∷ []
    → day_names ds ≡ names
    → day_names (flag b d ds) ≡ name_if b name names
unfolding day_names
day_names-flag true d name ds names e h = rw (e, h) refl
day_names-flag false d name ds names e h = h

pub day_names-week_days : (d : Sched) → day_names (week_days d) ≡ chosen_days d
unfolding week_days chosen_days day_name bytes_eq
day_names-week_days d = day_names-flag d.sunday (bytes "0") (bytes "Sunday") _ _ refl (
    day_names-flag d.monday (bytes "1") (bytes "Monday") _ _ refl (
      day_names-flag d.tuesday (bytes "2") (bytes "Tuesday") _ _ refl (
        day_names-flag d.wednesday (bytes "3") (bytes "Wednesday") _ _ refl (
          day_names-flag d.thursday (bytes "4") (bytes "Thursday") _ _ refl (
            day_names-flag d.friday (bytes "5") (bytes "Friday") _ _ refl
              (day_names-flag d.saturday (bytes "6") (bytes "Saturday") [] [] refl none_left))))))
  where
    none_left : day_names [] ≡ []
    none_left = unfold day_names in refl

-- A one-digit word, as the days are numbered.
abbrev pub IsDay : Bytes → Type 0
IsDay w = All IsDigit w × (w ≢ [])

flag-All :
    (b : Bool) (d : Bytes) (ds : List Bytes) → IsDay d → All IsDay ds → All IsDay (flag b d ds)
flag-All true d ds p h = (p, h)
flag-All false d ds p h = h

pub week_days-IsDay : (d : Sched) → All IsDay (week_days d)
unfolding week_days
week_days-IsDay d =
    flag-All d.sunday _ _ (omega arith, λ e. cc)
      (flag-All d.monday _ _ (omega arith, λ e. cc)
        (flag-All d.tuesday _ _ (omega arith, λ e. cc)
          (flag-All d.wednesday _ _ (omega arith, λ e. cc)
            (flag-All d.thursday _ _ (omega arith, λ e. cc)
              (flag-All d.friday _ _ (omega arith, λ e. cc)
                (flag-All d.saturday _ _ (omega arith, λ e. cc) tt))))))
