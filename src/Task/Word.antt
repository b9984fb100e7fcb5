-- ===== src/Task/Word.antt =====
-- The word `_status_ref_count` of task.h: a count below three flags.
use coroutines_classes.Prelude.{
  ℕ, ◌+◌, ◌<◌, ◌≡◌, Bool, true, false, ◌&&◌, ◌||◌, not, if◌then◌else◌, add64, sub64, arith,
}
use coroutines_classes.Task.{data_bit, except_bit, processed_bit, has_bit, or_bit, counter}

abbrev pub pack : Bool → Bool → Bool → ℕ → ℕ
pack d e p n =
    n
    + (if p then processed_bit else 0)
    + (if e then except_bit else 0)
    + (if d then data_bit else 0)

pub pack-bits :
    (d e p : Bool) (n : ℕ)
    → n < processed_bit
    → (has_bit data_bit (pack d e p n) ≡ d)
      × (has_bit except_bit (pack d e p n) ≡ e)
      × (has_bit processed_bit (pack d e p n) ≡ p)
      × (counter (pack d e p n) ≡ n)
pack-bits true true true n lt = (ground arith, ground arith, ground arith, omega arith)
pack-bits true true false n lt = (ground arith, ground arith, ground arith, omega arith)
pack-bits true false true n lt = (ground arith, ground arith, ground arith, omega arith)
pack-bits true false false n lt = (ground arith, ground arith, ground arith, omega arith)
pack-bits false true true n lt = (ground arith, ground arith, ground arith, omega arith)
pack-bits false true false n lt = (ground arith, ground arith, ground arith, omega arith)
pack-bits false false true n lt = (ground arith, ground arith, ground arith, omega arith)
pack-bits false false false n lt = (ground arith, ground arith, ground arith, omega arith)

pub or_bit-pack :
    (d e p : Bool) (n : ℕ)
    → n < processed_bit
    → (or_bit data_bit (pack d e p n) ≡ pack true e p n)
      × (or_bit except_bit (pack d e p n) ≡ pack d true p n)
      × (or_bit processed_bit (pack d e p n) ≡ pack d e true n)
or_bit-pack true true true n lt = (ground arith, ground arith, ground arith)
or_bit-pack true true false n lt = (ground arith, ground arith, ground arith)
or_bit-pack true false true n lt = (ground arith, ground arith, ground arith)
or_bit-pack true false false n lt = (ground arith, ground arith, ground arith)
or_bit-pack false true true n lt = (ground arith, ground arith, ground arith)
or_bit-pack false true false n lt = (ground arith, ground arith, ground arith)
or_bit-pack false false true n lt = (ground arith, ground arith, ground arith)
or_bit-pack false false false n lt = (ground arith, ground arith, ground arith)

pub count-pack :
    (d e p : Bool) (n : ℕ)
    → n + 1 < processed_bit
    → (add64 (pack d e p n) 1 ≡ pack d e p (n + 1)) × (sub64 (pack d e p (n + 1)) 1 ≡ pack d e p n)
count-pack true true true n lt = (omega arith, omega arith)
count-pack true true false n lt = (omega arith, omega arith)
count-pack true false true n lt = (omega arith, omega arith)
count-pack true false false n lt = (omega arith, omega arith)
count-pack false true true n lt = (omega arith, omega arith)
count-pack false true false n lt = (omega arith, omega arith)
count-pack false false true n lt = (omega arith, omega arith)
count-pack false false false n lt = (omega arith, omega arith)

pub report-pack :
    (d e p : Bool) (n : ℕ)
    → n < processed_bit
    → (has_bit except_bit (pack d e p n)
        && not (has_bit data_bit (pack d e p n) || has_bit processed_bit (pack d e p n)))
      ≡ (e && not (d || p))
report-pack true true true n lt = ground arith
report-pack true true false n lt = ground arith
report-pack true false true n lt = ground arith
report-pack true false false n lt = ground arith
report-pack false true true n lt = ground arith
report-pack false true false n lt = ground arith
report-pack false false true n lt = ground arith
report-pack false false false n lt = ground arith
