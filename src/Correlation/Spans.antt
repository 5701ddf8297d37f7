-- ===== src/Correlation/Spans.antt =====
-- What `parse_timespan` of crates/sigil-sigma/src/correlation.rs makes of a timespan.
use native.Mathlib.Nat.{mul-pos}
use sigil_siem.Prelude.{
  ℕ, ◌-◌, ◌*◌, ◌∙◌, if◌then◌else◌, ◌^◌, ◌<◌, ◌≤◌, ◌≡◌, refl, some, [], ◌∷◌, ◌++◌, arith,
}
use sigil_siem.Prelude.Int.{ℤ, pos, negsuc, ◌*ℤ◌, i64, i64-IsI64, leb_ℤ}
use sigil_siem.Prelude.Texts.{Text}
use sigil_siem.Correlation.Timespan.{
  ok, invalid, trim, split_last, parse_i64, unit_secs, micros_of, with_unit, read_span,
  parse_timespan,
}

split_last-append : (s : Text) (c : ℕ) → split_last (s ++ c ∷ []) ≡ some (s, c)
unfolding split_last
split_last-append [] c = refl
split_last-append (d ∷ s) c = rw (split_last-append s c) refl

unit_secs-ascii : (u k : ℕ) → unit_secs u ≡ some k → u < 0x80
unfolding unit_secs
unit_secs-ascii u k h = ground arith

unit_secs-pos : (u k : ℕ) → unit_secs u ≡ some k → (0 < k) × (k ≤ 86400)
unfolding unit_secs
unit_secs-pos u k h = ground arith

pos-times : (a b : ℕ) → pos a *ℤ pos b ≡ pos (a * b)
unfolding ◌*ℤ◌
pos-times a b = ground arith

-- Seconds that are positive go on to the microseconds.
positive_ok :
    (secs : ℕ) {t : ℤ}
    → 0 < secs
    → i64 (pos secs *ℤ pos 1000000) ≡ t
    → (if leb_ℤ (pos secs) (pos 0) then invalid else ok (i64 (pos secs *ℤ pos 1000000))) ≡ ok t
positive_ok secs h e = ground arith

micros_of-exact :
    (n k : ℕ)
    → 0 < n * k
    → n * k * 1000000 < 2 ^ 63
    → micros_of (pos n) k ≡ ok (pos (n * k * 1000000))
micros_of-exact n k h b = rw (pos-times n k) (
    rw (i64-IsI64 (pos (n * k)) (omega arith)) (
      positive_ok (n * k) h
        (rw (pos-times (n * k) 1000000) (i64-IsI64 (pos (n * k * 1000000)) (omega arith)))))

i64-negative : (n : ℕ) → 2 ^ 63 ≤ n → n < 2 ^ 64 → i64 (pos n) ≡ negsuc (2 ^ 64 - n - 1)
unfolding i64
i64-negative n h b = ground arith

micros_of-wraps :
    (n k : ℕ)
    → n * k < 2 ^ 63
    → 2 ^ 63 ≤ n * k * 1000000
    → n * k * 1000000 < 2 ^ 64
    → micros_of (pos n) k ≡ ok (negsuc (2 ^ 64 - n * k * 1000000 - 1))
micros_of-wraps n k small big top = rw (pos-times n k) (
    rw (i64-IsI64 (pos (n * k)) (omega arith)) (
      positive_ok (n * k) (omega arith)
        (rw (pos-times (n * k) 1000000) (i64-negative (n * k * 1000000) big top))))

spans_of :
    (num : Text) (u : ℕ)
    → u < 0x80
    → read_span (some (num, u)) ≡ with_unit (parse_i64 num) (unit_secs u)
spans_of num u h = ground arith

-- A timespan of a positive number and a unit is so many microseconds, while they fit an `i64`.
pub parse_timespan-exact :
    (s num : Text) (u n k : ℕ)
    → trim s ≡ num ++ u ∷ []
    → parse_i64 num ≡ some (pos n)
    → unit_secs u ≡ some k
    → 0 < n
    → n * k * 1000000 < 2 ^ 63
    → parse_timespan s ≡ ok (pos (n * k * 1000000))
unfolding parse_timespan
parse_timespan-exact s num u n k t p w h b = rw t (
    rw (split_last-append num u) (
      spans_of num u (unit_secs-ascii u k w)
      ∙ rw p (rw w (micros_of-exact n k (mul-pos h (unit_secs-pos u k w).0) b))))

-- Seconds that fit an `i64` whose microseconds do not, while they fit 64 bits, become a negative
-- timespan.
pub parse_timespan-wraps :
    (s num : Text) (u n k : ℕ)
    → trim s ≡ num ++ u ∷ []
    → parse_i64 num ≡ some (pos n)
    → unit_secs u ≡ some k
    → n * k < 2 ^ 63
    → 2 ^ 63 ≤ n * k * 1000000
    → n * k * 1000000 < 2 ^ 64
    → (t : ℕ) × (parse_timespan s ≡ ok (negsuc t))
unfolding parse_timespan
parse_timespan-wraps s num u n k t p w small big top = (
  2 ^ 64 - n * k * 1000000 - 1,
  rw t (
      rw (split_last-append num u)
        (spans_of num u (unit_secs-ascii u k w) ∙ rw p (rw w (micros_of-wraps n k small big top)))),
)
