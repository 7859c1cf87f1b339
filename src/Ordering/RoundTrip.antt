-- ===== src/Ordering/RoundTrip.antt =====
-- Reading back what `normalize_lsn` writes.
use Prim.Native.Nat.{◌*◌, ◌/◌, ◌%◌, ◌^◌}
use changebridge_cdc_migrati.Base.{
  ℕ, zero, suc, ◌+◌, ◌-◌, ◌<◌, ◌≤◌, String, Bool, true, false, none, some, List, [], ◌∷◌, ◌≡◌, refl,
  sym, ap, ◌∙◌, inl, inr, arith,
}
use mathlib.Core.Path.{subst}
use changebridge_cdc_migrati.Base.Tests.{if◌then◌else◌, Option-cases, Bool-cases}
use changebridge_cdc_migrati.Base.Key.{◌==◌, number_key}
use changebridge_cdc_migrati.Ordering.Lsn.{
  codes, hex_value, hex_code, hex_char, Run, hex_run, is_half, low_half, after_high, parse_codes,
  parse_lsn, emit, print_hex, print_lsn, normalize_lsn,
}

sample_lsn : normalize_lsn "0/194fb20" ≡ some "0/194FB20"
unfolding normalize_lsn
sample_lsn = refl

sample_low : normalize_lsn "0000000A/00000000" ≡ some "A/0"
unfolding normalize_lsn
sample_low = refl

-- the digits that `emit` writes
width : ℕ → ℕ → ℕ
width zero n = 0
width (suc fuel) n = elim (n == 0) [ true ↦ 0 | false ↦ width fuel (n / 16) + 1 ]

width_bounds : (fuel n : ℕ) → width fuel n ≤ fuel
unfolding width
width_bounds zero n = omega arith
width_bounds (suc fuel) n = ground (arith, width_bounds fuel (n / 16))

width_pos : (fuel n : ℕ) → 0 < n → 1 ≤ width (suc fuel) n
unfolding width
width_pos fuel n h = ground arith

hex_value-hex_code : (n : ℕ) → hex_value (hex_code (n % 16)) ≡ some (n % 16)
unfolding hex_value
hex_value-hex_code n = ground arith

hex_value-lt : (c d : ℕ) → hex_value c ≡ some d → d < 16
unfolding hex_value
hex_value-lt c d h = ground arith

pow_16 : (fuel : ℕ) → 16 ^ suc fuel ≡ 16 ^ fuel * 16
pow_16 fuel = ground arith

hex_run-some :
    (k v c d : ℕ) (s : List ℕ)
    → hex_value c ≡ some d
    → hex_run k v (c ∷ s) ≡ hex_run (k + 1) (v * 16 + d) s
unfolding hex_run
hex_run-some k v c d s e = ground (arith, e)

hex_run-none :
    (k v c : ℕ) (s : List ℕ)
    → hex_value c ≡ none
    → hex_run k v (c ∷ s) ≡ record { count = k; value = v; rest = c ∷ s }
unfolding hex_run
hex_run-none k v c s e = ground (arith, e)

hex_run-digit :
    (k v n : ℕ) (s : List ℕ)
    → hex_run k v (hex_code (n % 16) ∷ s) ≡ hex_run (k + 1) (v * 16 + n % 16) s
hex_run-digit k v n s = hex_run-some k v (hex_code (n % 16)) (n % 16) s (hex_value-hex_code n)

emit-suc :
    (fuel n : ℕ) (out : String)
    → emit (suc fuel) n out
      ≡ (if n == 0 then out else emit fuel (n / 16) (String.◌∷◌ (hex_char n) out))
unfolding emit
emit-suc fuel n out = ground arith

width-suc : (fuel n : ℕ) → width (suc fuel) n ≡ (if n == 0 then 0 else width fuel (n / 16) + 1)
unfolding width
width-suc fuel n = ground arith

hex_run-emit :
    (fuel n : ℕ) (out : String)
    → n < 16 ^ fuel
    → hex_run 0 0 (codes (emit fuel n out)) ≡ hex_run (width fuel n) n (codes out)
unfolding hex_char
hex_run-emit zero n out h = let e : n ≡ 0 = ground arith in unfold emit width in rw e refl
hex_run-emit (suc fuel) n out h = elim (Bool-cases (n == 0)) [
  | inl none_left ↦
      let e : n ≡ 0 = ground arith in
      rw (emit-suc fuel n out, width-suc fuel n, none_left)
        (ap (λ v. hex_run 0 v (codes out)) (sym e))
  | inr more ↦
      let small : n / 16 < 16 ^ fuel = omega (arith, pow_16 fuel) in
      let value : n / 16 * 16 + n % 16 ≡ n = omega arith in
      rw (emit-suc fuel n out, width-suc fuel n, more)
        (hex_run-emit fuel (n / 16) (String.◌∷◌ (hex_char n) out) small
          ∙ hex_run-digit (width fuel (n / 16)) (n / 16) n (codes out)
          ∙ ap (λ v. hex_run (width fuel (n / 16) + 1) v (codes out)) value)
]

-- A half is read back, up to what follows it.
hex_run-print_hex :
    (n : ℕ) (out : String)
    → n < 2 ^ 32
    → (w : ℕ) × (1 ≤ w)
      × (w ≤ 8)
      × (hex_run 0 0 (codes (print_hex n out)) ≡ hex_run w n (codes out))
unfolding print_hex
hex_run-print_hex n out h = elim (Bool-cases (n == 0)) [
  | inl zero_half ↦
      let e : n ≡ 0 = ground arith in
      (1, omega arith, omega arith, rw e (hex_run-digit 0 0 0 (codes out)))
  | inr more ↦ (
    width 8 n,
    width_pos 7 n (ground arith),
    width_bounds 8 n,
    rw (more, if◌then◌else◌) (hex_run-emit 8 n out (omega arith)),
  )
]

parse_codes_halves :
    (s s' : List ℕ) (w v high low : ℕ)
    → hex_run 0 0 s ≡ record { count = w; value = high; rest = 47 ∷ s' }
    → hex_run 0 0 s' ≡ record { count = v; value = low; rest = [] }
    → 1 ≤ w
    → w ≤ 8
    → 1 ≤ v
    → v ≤ 8
    → parse_codes s ≡ some (high * 2 ^ 32 + low)
unfolding parse_codes
parse_codes_halves s s' w v high low first second a b c d = ground (arith, first, second)

-- Every 64-bit position is read back from its normal form.
pub parse_lsn-print_lsn : (n : ℕ) → n < 2 ^ 64 → parse_lsn (print_lsn n) ≡ some n
unfolding parse_lsn print_lsn
parse_lsn-print_lsn n h =
    let low = print_hex (n % 2 ^ 32) "" in
    let (w, a, b, first) = hex_run-print_hex (n / 2 ^ 32) (String.◌∷◌ "/" low) (omega arith) in
    let (v, c, d, second) = hex_run-print_hex (n % 2 ^ 32) "" (omega arith) in
    let slash : hex_value 47 ≡ none = unfold hex_value in refl in
    let whole : n / 2 ^ 32 * 2 ^ 32 + n % 2 ^ 32 ≡ n = omega arith in
    parse_codes_halves (codes (print_hex (n / 2 ^ 32) (String.◌∷◌ "/" low))) (codes low) w v
      (n / 2 ^ 32) (n % 2 ^ 32) (first ∙ hex_run-none w (n / 2 ^ 32) 47 (codes low) slash)
      (second ∙ unfold hex_run in refl) a b c d
    ∙ ap some whole

pow_succ : (k : ℕ) → 16 ^ (k + 1) ≡ 16 ^ k * 16
pow_succ k = let e : k + 1 ≡ suc k = omega arith in rw e (pow_16 k)

hex_run_bounds :
    (k v : ℕ) (s : List ℕ) → v < 16 ^ k → (hex_run k v s).value < 16 ^ (hex_run k v s).count
unfolding hex_run
hex_run_bounds k v [] h = h
hex_run_bounds k v (c ∷ s) h = elim (Option-cases (hex_value c)) [
  | inl stop ↦ rw (hex_run-none k v c s stop) h
  | inr (d, digit) ↦
      rw (hex_run-some k v c d s digit)
        (hex_run_bounds (k + 1) (v * 16 + d) s (omega (arith, hex_value-lt c d digit, pow_succ k)))
]

pow_mono : (c d : ℕ) → 16 ^ c ≤ 16 ^ (c + d)
pow_mono c zero = ground arith
pow_mono c (suc d) =
    let e : c + suc d ≡ suc (c + d) = omega arith in
    rw e (omega (arith, pow_mono c d, pow_16 (c + d)))

pow_few : (c : ℕ) → c ≤ 8 → 16 ^ c ≤ 16 ^ 8
pow_few c h =
    let e : c + (8 - c) ≡ 8 = omega arith in
    let m : 16 ^ c ≤ 16 ^ (c + (8 - c)) = pow_mono c (8 - c) in subst (λ w. 16 ^ c ≤ 16 ^ w) e m

half_bounds : (r : Run) → r.value < 16 ^ r.count → is_half r ≡ true → r.value < 2 ^ 32
half_bounds r bound h =
    let few : r.count ≤ 8 = ground arith in omega (arith, bound, pow_few r.count few)

run_bounds : (s : List ℕ) → (hex_run 0 0 s).value < 16 ^ (hex_run 0 0 s).count
run_bounds s = hex_run_bounds 0 0 s (omega arith)

low_half-eq-some :
    (high n : ℕ) (low : Run)
    → low_half high low ≡ some n
    → (is_half low ≡ true) × (n ≡ high * 2 ^ 32 + low.value)
low_half-eq-some high n low h = ground (arith, h)

after_high-eq-some :
    (high n : ℕ) (half : Bool) (s : List ℕ)
    → after_high high half s ≡ some n
    → (s' : List ℕ) × (half ≡ true) × (low_half high (hex_run 0 0 s') ≡ some n)
unfolding after_high
after_high-eq-some high n half [] h = ground (arith, h)
after_high-eq-some high n true (c ∷ s) h = elim (Bool-cases (c == 47)) [
  | inl slash ↦ (s, refl, ground (arith, h, slash))
  | inr other ↦ ground (arith, h, other)
]
after_high-eq-some high n false (c ∷ s) h = ground (arith, h)

parse_codes-eq-some :
    (s : List ℕ) (n : ℕ)
    → parse_codes s ≡ some n
    → (s' : List ℕ) × (is_half (hex_run 0 0 s) ≡ true)
      × (low_half (hex_run 0 0 s).value (hex_run 0 0 s') ≡ some n)
unfolding parse_codes
parse_codes-eq-some s n h =
    let r = hex_run 0 0 s in after_high-eq-some r.value n (is_half r) r.rest h

-- A position that is read is below 2^64.
pub parse_codes_bounds : (s : List ℕ) (n : ℕ) → parse_codes s ≡ some n → n < 2 ^ 64
parse_codes_bounds s n h =
    let (s', half, low) = parse_codes-eq-some s n h in
    let (half', value) = low_half-eq-some (hex_run 0 0 s).value n (hex_run 0 0 s') low in
    let high_lt = half_bounds (hex_run 0 0 s) (run_bounds s) half in
    let low_lt = half_bounds (hex_run 0 0 s') (run_bounds s') half' in
    omega (arith, value, high_lt, low_lt)
