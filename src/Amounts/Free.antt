-- ===== src/Amounts/Free.antt =====
-- What is read from the texts of Kubernetes, and the free memory.
use grpc_gw_controller.Base.{
  ℕ, ◌+◌, ◌*◌, ◌/◌, ◌%◌, ◌^◌, ◌≤◌, ◌<◌, true, false, [], ◌∷◌, ◌++◌, ok, length, take, length-append,
  All, bytes_eq, bytes_eq_refl, ◌≡◌, refl, ap, ◌∙◌, arith,
}
use grpc_gw_controller.Base.Text.{Bytes, bytes, has_suffix, cut_end}
use grpc_gw_controller.Base.Decimal.{pos, uint32, atoi, decimal}
use grpc_gw_controller.Base.Decimal.RoundTrip.{IsDigit, decimal-IsDigit, atoi-decimal}
use grpc_gw_controller.Amounts.{
  Usage, sub32, parse_memory_string, total_memory, parse_all_memory_string, get_storage_gb_int,
}

pub has_suffix-append : (s p : Bytes) → has_suffix (s ++ p) p ≡ true
unfolding has_suffix
has_suffix-append [] [] = bytes_eq_refl []
has_suffix-append [] (c ∷ p) = rw (bytes_eq_refl (c ∷ p)) refl
has_suffix-append (c ∷ s) p = ground (arith, has_suffix-append s p)

take-length-append : (s p : Bytes) → take (length s) (s ++ p) ≡ s
take-length-append [] p = refl
take-length-append (c ∷ s) p = ap (λ t. c ∷ t) (take-length-append s p)

pub cut_end-append : (n : ℕ) (s p : Bytes) → length p ≡ n → cut_end n (s ++ p) ≡ s
cut_end-append n s p h =
    ap (λ k. take k (s ++ p)) (omega (arith, length-append s p, h)) ∙ take-length-append s p

-- A text of digits ends in no unit.
has_suffix-digits :
    (s : Bytes) (a b : ℕ) → All IsDigit s → 57 < a → 57 < b → has_suffix s (a ∷ b ∷ []) ≡ false
unfolding has_suffix bytes_eq
has_suffix-digits [] a b d h k = refl
has_suffix-digits (c ∷ s) a b d h k = ground (arith, d.0, has_suffix-digits s a b d.1 h k)

-- What ends in Gi does not end in Ki.
has_suffix-other : (s : Bytes) → has_suffix (s ++ bytes "Gi") (bytes "Ki") ≡ false
unfolding has_suffix bytes_eq
has_suffix-other [] = refl
has_suffix-other (c ∷ []) = ground arith
has_suffix-other (c ∷ d ∷ []) = ground (arith, has_suffix-other (d ∷ []))
has_suffix-other (c ∷ d ∷ e ∷ s) = ground (arith, has_suffix-other (d ∷ e ∷ s))

pub atoi-cut_end :
    (n : ℕ) (p : Bytes) → length p ≡ 2 → n < 2 ^ 63 → atoi (cut_end 2 (decimal n ++ p)) ≡ ok (pos n)
atoi-cut_end n p l h = ap atoi (cut_end-append 2 (decimal n) p l) ∙ atoi-decimal n h

parse_memory_string-decimal :
    (n : ℕ)
    → n < 2 ^ 63
    → (parse_memory_string (decimal n ++ bytes "Mi") ≡ ok (n % 2 ^ 32))
      × (parse_memory_string (decimal n) ≡ ok (n % 2 ^ 32))
unfolding parse_memory_string uint32
parse_memory_string-decimal n h = (
  rw (has_suffix-append (decimal n) (bytes "Mi"), atoi-cut_end n (bytes "Mi") refl h) refl,
  rw
      (
        has_suffix-digits (decimal n) 77 105 (decimal-IsDigit n) (omega arith) (omega arith),
        atoi-decimal n h,
      )
      refl,
)

total_memory-decimal :
    (n : ℕ) → n < 2 ^ 63 → total_memory (decimal n ++ bytes "Ki") ≡ ok (n / 1024 % 2 ^ 32)
unfolding total_memory uint32
total_memory-decimal n h =
    rw (has_suffix-append (decimal n) (bytes "Ki"), atoi-cut_end n (bytes "Ki") refl h) refl

-- What a capacity and an allocation are read as, in mebibytes.
abbrev usage : ℕ → ℕ → Usage ℕ
usage capacity allocated = record {
  total = capacity;
  allocated = allocated;
  free = sub32 capacity allocated;
}

parse_all_memory_string-usage :
    (c a : Bytes) (t m : ℕ)
    → total_memory c ≡ ok t
    → parse_memory_string a ≡ ok m
    → parse_all_memory_string c a ≡ ok (usage t m)
unfolding parse_all_memory_string
parse_all_memory_string-usage c a t m h k = rw (h, k) refl

-- A capacity of `k` Ki and an allocation of `m`, with the unit Mi or without, are read, for numbers
-- below 2 ^ 63, as the low 32 bits of k / 1024 and of m. The free memory is their difference where the
-- allocation is at most the total, and larger than the total otherwise. A capacity that does not end in
-- Ki is read as a total of 0.
pub parse_all_memory_string-free :
    (k m : ℕ) (c : Bytes)
    → k < 2 ^ 63
    → m < 2 ^ 63
    → has_suffix c (bytes "Ki") ≡ false
    → (u : Usage ℕ) × (v : Usage ℕ) × (parse_all_memory_string
          (decimal k ++ bytes "Ki")
          (decimal m ++ bytes "Mi")
        ≡ ok u)
      × (parse_all_memory_string (decimal k ++ bytes "Ki") (decimal m) ≡ ok u)
      × (parse_all_memory_string c (decimal m) ≡ ok v)
      × (u.total ≡ k / 1024 % 2 ^ 32)
      × (u.allocated ≡ m % 2 ^ 32)
      × (u.allocated ≤ u.total → u.free + u.allocated ≡ u.total)
      × (u.total < u.allocated → u.total < u.free)
      × (v.total ≡ 0)
      × (v.allocated ≡ m % 2 ^ 32)
parse_all_memory_string-free k m c hk hm hc =
    let t = k / 1024 % 2 ^ 32 in
    let a = m % 2 ^ 32 in
    let total = total_memory-decimal k hk in
    let read = parse_memory_string-decimal m hm in
    let none_total : total_memory c ≡ ok 0 = unfold total_memory in rw hc refl in
    (
      usage t a,
      usage 0 a,
      parse_all_memory_string-usage _ _ t a total read.0,
      parse_all_memory_string-usage _ _ t a total read.1,
      parse_all_memory_string-usage _ _ 0 a none_total read.1,
      refl,
      refl,
      λ h. omega (arith, h),
      λ h. omega (arith, h),
      refl,
      refl,
    )

-- A size of `n` Gi and a size of `n` with no unit are read as n; the same size in Ki as 1024 times n,
-- for sizes whose number of Ki is below 2 ^ 63.
pub get_storage_gb_int-units :
    (n : ℕ)
    → n * 2 ^ 20 < 2 ^ 63
    → (get_storage_gb_int (decimal n ++ bytes "Gi") ≡ ok (pos n))
      × (get_storage_gb_int (decimal n) ≡ ok (pos n))
      × (get_storage_gb_int (decimal (n * 2 ^ 20) ++ bytes "Ki") ≡ ok (pos (n * 1024)))
unfolding get_storage_gb_int
get_storage_gb_int-units n h = (
  rw
      (
        has_suffix-other (decimal n),
        has_suffix-append (decimal n) (bytes "Gi"),
        atoi-cut_end n (bytes "Gi") refl (omega (arith, h)),
      )
      refl,
  rw
      (
        has_suffix-digits (decimal n) 75 105 (decimal-IsDigit n) (omega arith) (omega arith),
        has_suffix-digits (decimal n) 71 105 (decimal-IsDigit n) (omega arith) (omega arith),
        atoi-decimal n (omega (arith, h)),
      )
      refl,
  rw
      (
        has_suffix-append (decimal (n * 2 ^ 20)) (bytes "Ki"),
        atoi-cut_end (n * 2 ^ 20) (bytes "Ki") refl h,
      )
      (ap (λ k. ok (pos k)) (omega arith)),
)
