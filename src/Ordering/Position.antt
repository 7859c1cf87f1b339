-- ===== src/Ordering/Position.antt =====
-- Positions of the write-ahead log as texts: `parse_lsn` and `normalize_lsn` together.
use Prim.Native.Nat.{◌^◌}
use changebridge_cdc_migrati.Base.{ℕ, ◌<◌, String, none, some, ◌≡◌, refl}
use changebridge_cdc_migrati.Ordering.Lsn.{codes, parse_lsn, print_lsn, normalize_lsn}
use changebridge_cdc_migrati.Ordering.RoundTrip.{parse_lsn-print_lsn, parse_codes_bounds}

-- Every position that is read from a text is an unsigned 64-bit number.
pub parse_lsn-lt : (s : String) (n : ℕ) → parse_lsn s ≡ some n → n < 2 ^ 64
unfolding parse_lsn
parse_lsn-lt s n h = parse_codes_bounds (codes s) n h

normalize_lsn-eq :
    (s : String) (n : ℕ) → parse_lsn s ≡ some n → normalize_lsn s ≡ some (print_lsn n)
unfolding normalize_lsn
normalize_lsn-eq s n h = rw (h, normalize_lsn) refl

normalize_lsn-none : (s : String) → parse_lsn s ≡ none → normalize_lsn s ≡ none
unfolding normalize_lsn
normalize_lsn-none s h = rw (h, normalize_lsn) refl

-- A text that is a position has a normal form, which is read as the same position.
pub parse_lsn-normalize_lsn :
    (s : String) (n : ℕ)
    → parse_lsn s ≡ some n
    → (t : String) × (normalize_lsn s ≡ some t) × (parse_lsn t ≡ some n)
parse_lsn-normalize_lsn s n h =
    (print_lsn n, normalize_lsn-eq s n h, parse_lsn-print_lsn n (parse_lsn-lt s n h))
