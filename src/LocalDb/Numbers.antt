-- ===== src/LocalDb/Numbers.antt =====
-- The numbers that src/package_installer.rs prints and parses.
use text.Mathlib.TextLemmas.{append-nil, append_assoc, cons-append, nil-append}
use pacman_ostree.Base.{
  ℕ, zero, suc, ◌+◌, ◌*◌, ◌/◌, ◌%◌, ◌^◌, ◌<◌, String, ◌≡◌, refl, sym, ap, ◌∙◌, true, false, some,
  arith, inl, inr, ltb, Bool-cases,
}
use pacman_ostree.Base.Text.{◌<>◌, is_nil}
use pacman_ostree.Base.Text.Laws.{one_append}
use pacman_ostree.LocalDb.PkgInfo.{parse_digits, parse_u64, unsigned}
use pacman_ostree.LocalDb.Written.{is_number, is_number-show_digits}
use pacman_ostree.LocalDb.Write.{digit, show_digits, show_u64}

-- One digit more.
parse_digits-digit :
    (a d : ℕ) (t : String)
    → d < 10
    → ltb (a * 10 + d) (2 ^ 64) ≡ true
    → parse_digits a (digit d <> t) ≡ parse_digits (a * 10 + d) t
unfolding parse_digits
parse_digits-digit a zero t h fits = ap (parse_digits a) (one_append "0" t) ∙ rw fits refl
parse_digits-digit a (suc zero) t h fits = ap (parse_digits a) (one_append "1" t) ∙ rw fits refl
parse_digits-digit a (suc (suc zero)) t h fits =
    ap (parse_digits a) (one_append "2" t) ∙ rw fits refl
parse_digits-digit a (suc (suc (suc zero))) t h fits =
    ap (parse_digits a) (one_append "3" t) ∙ rw fits refl
parse_digits-digit a (suc (suc (suc (suc zero)))) t h fits =
    ap (parse_digits a) (one_append "4" t) ∙ rw fits refl
parse_digits-digit a (suc (suc (suc (suc (suc zero))))) t h fits =
    ap (parse_digits a) (one_append "5" t) ∙ rw fits refl
parse_digits-digit a (suc (suc (suc (suc (suc (suc zero)))))) t h fits =
    ap (parse_digits a) (one_append "6" t) ∙ rw fits refl
parse_digits-digit a (suc (suc (suc (suc (suc (suc (suc zero))))))) t h fits =
    ap (parse_digits a) (one_append "7" t) ∙ rw fits refl
parse_digits-digit a (suc (suc (suc (suc (suc (suc (suc (suc zero)))))))) t h fits =
    ap (parse_digits a) (one_append "8" t) ∙ rw fits refl
parse_digits-digit a (suc (suc (suc (suc (suc (suc (suc (suc (suc zero))))))))) t h fits =
    ap (parse_digits a) (one_append "9" t) ∙ rw fits refl
parse_digits-digit a (suc (suc (suc (suc (suc (suc (suc (suc (suc (suc d)))))))))) t h fits =
    absurd (omega (arith, h))

abbrev pow10 : ℕ → ℕ
pow10 zero = 1
pow10 (suc fuel) = 10 * pow10 fuel

fits_of : (n : ℕ) → n < 2 ^ 64 → ltb n (2 ^ 64) ≡ true
fits_of n h = ground (arith, h)

parse_digits-show_digits :
    (fuel n : ℕ) (t : String)
    → n < pow10 fuel
    → n < 2 ^ 64
    → parse_digits 0 (show_digits fuel n <> t) ≡ parse_digits n t
unfolding show_digits
parse_digits-show_digits zero n t few small =
    ap (parse_digits 0) (nil-append t) ∙ ap (λ k. parse_digits k t) (omega (arith, few))
parse_digits-show_digits (suc fuel) n t few small = elim (Bool-cases (ltb n 10)) [
  | inl one ↦
      let below : n < 10 = ground (arith, one) in
      let plain : 0 * 10 + n ≡ n = omega arith in
      rw one (
        parse_digits-digit 0 n t below (ap (λ k. ltb k (2 ^ 64)) plain ∙ fits_of n small)
        ∙ ap (λ k. parse_digits k t) plain)
  | inr more ↦
      let last : n % 10 < 10 = omega arith in
      let whole : n / 10 * 10 + n % 10 ≡ n = omega arith in
      rw more (
        ap (parse_digits 0) (append_assoc (show_digits fuel (n / 10)) (digit (n % 10)) t)
        ∙ parse_digits-show_digits fuel (n / 10) (digit (n % 10) <> t) (omega (arith, few))
            (omega (arith, small))
        ∙ parse_digits-digit (n / 10) (n % 10) t last
            (ap (λ k. ltb k (2 ^ 64)) whole ∙ fits_of n small)
        ∙ ap (λ k. parse_digits k t) whole)
]

is_nil-append : (s t : String) → is_nil t ≡ false → is_nil (s <> t) ≡ false
is_nil-append String.[] t h = ap is_nil (nil-append t) ∙ h
is_nil-append (String.◌∷◌ c s) t h = ap is_nil (cons-append c s t)

nil_of : (s : String) → is_nil s ≡ true → s ≡ ""
nil_of String.[] h = refl
nil_of (String.◌∷◌ c s) h = cc

-- An empty text would not count.
is_nil-digit : (d : ℕ) → d < 10 → is_nil (digit d) ≡ false
unfolding parse_digits
is_nil-digit d h = elim (Bool-cases (is_nil (digit d))) [
  | inr full ↦ full
  | inl empty ↦
      let counted = parse_digits-digit 1 d "" h (ground (arith, h)) in
      let same : parse_digits 1 (digit d <> "") ≡ some 1 =
        ap (λ s. parse_digits 1 (s <> "")) (nil_of (digit d) empty)
        ∙ ap (parse_digits 1) (nil-append "") in
      absurd (ground (arith, sym same ∙ counted))
]

digits_there : (fuel n : ℕ) → is_nil (show_digits (suc fuel) n) ≡ false
unfolding show_digits
digits_there fuel n = elim (Bool-cases (ltb n 10)) [
  | inl one ↦ rw one (is_nil-digit n (ground (arith, one)))
  | inr more ↦ rw more (
      is_nil-append (show_digits fuel (n / 10)) (digit (n % 10))
        (is_nil-digit (n % 10) (omega arith)))
]

without_sign : (s : String) → is_number s ≡ true → unsigned s ≡ s
without_sign String.[] h = refl
without_sign (String.◌∷◌ c s) h = ground (arith, h)

parse_u64_digits :
    (s : String) (n : ℕ)
    → unsigned s ≡ s
    → is_nil s ≡ false
    → parse_digits 0 s ≡ some n
    → parse_u64 s ≡ some n
unfolding parse_u64
parse_u64_digits s n u f e = rw u (rw f e)

all_digits : (n : ℕ) → n < 2 ^ 64 → parse_digits 0 (show_digits 20 n) ≡ some n
unfolding parse_digits
all_digits n h =
    ap (parse_digits 0) (sym (append-nil (show_digits 20 n)))
    ∙ parse_digits-show_digits 20 n "" (omega (arith, h)) h

-- A number of 64 bits that is printed is parsed back; the twenty digits are enough for each.
pub parse_u64-show_u64 : (n : ℕ) → n < 2 ^ 64 → parse_u64 (show_u64 n) ≡ some n
unfolding show_u64
parse_u64-show_u64 n h =
    parse_u64_digits (show_digits 20 n) n
      (without_sign (show_digits 20 n) (is_number-show_digits 20 n)) (digits_there 19 n)
      (all_digits n h)
