-- ===== src/Time/Carry.antt =====
-- The sums and differences of times of src/time.c.
use mathlib.Core.Path.{subst}
use streem.Base.{
  sym, ltb, ℕ, zero, suc, ◌≡◌, refl, ◌+◌, ◌*◌, ◌-◌, ◌/◌, ◌%◌, ◌≤◌, ◌<◌, arith, Bool-cases, inl, inr,
  leb, ◌∙◌, ap, ap₂, ltb,
}
use streem.Base.Int.{ℤ, pos, negsuc, ◌+ℤ◌, ◌-ℤ◌, int_laws, eq_of_parts, pos_part, neg_part}
use streem.Time.{Timeval, carry_up, carry_down, timeradd, timersub}

-- The microseconds of a `struct timeval` as the C library keeps them.
abbrev pub Normal : Timeval → Type 0
Normal t = (neg_part t.usec ≡ 0) × (pos_part t.usec < 1000000)

abbrev at : ℤ → ℤ → Timeval
at s u = record { sec = s; usec = u }

-- With enough turns, the loop of `timeradd` carries all the seconds.
pub carry_up_lem :
    (f n : ℕ) (s : ℤ)
    → n < (f + 1) * 1000000
    → carry_up f (at s (pos n)) ≡ at (s +ℤ pos (n / 1000000)) (pos (n % 1000000))
unfolding carry_up
carry_up_lem zero n s h =
    let q : s ≡ s +ℤ pos (n / 1000000) = omega int_laws in
    let r : n ≡ n % 1000000 = omega arith in ap₂ at q (ap pos r)
carry_up_lem (suc f) n s h = elim (Bool-cases (leb 1000000 n)) [
  | inl e ↦
      let g : 1000000 ≤ n = ground (arith, e) in
      let q : s +ℤ pos 1 +ℤ pos ((n - 1000000) / 1000000) ≡ s +ℤ pos (n / 1000000) =
        omega int_laws in
      let r : (n - 1000000) % 1000000 ≡ n % 1000000 = omega arith in
      rw (e, carry_up)
        (carry_up_lem f (n - 1000000) (s +ℤ pos 1) (omega arith) ∙ ap₂ at q (ap pos r))
  | inr e ↦
      let g : n < 1000000 = ground (arith, e) in
      let q : s ≡ s +ℤ pos (n / 1000000) = omega int_laws in
      let r : n ≡ n % 1000000 = omega arith in rw (e, carry_up) (ap₂ at q (ap pos r))
]

-- A difference below a million takes at most one turn of the loop of `timersub`.
carry_down_pos : (f n : ℕ) (s : ℤ) → carry_down f (at s (pos n)) ≡ at s (pos n)
unfolding carry_down
carry_down_pos zero n s = refl
carry_down_pos (suc f) n s = refl

carry_down_neg :
    (f n : ℕ) (s : ℤ)
    → n < 1000000
    → carry_down (suc f) (at s (negsuc n)) ≡ at (s -ℤ pos 1) (pos (1000000 - 1 - n))
unfolding carry_down
carry_down_neg f n s h =
    let u : negsuc n +ℤ pos 1000000 ≡ pos (1000000 - 1 - n) = omega int_laws in
    rw u (carry_down_pos f (1000000 - 1 - n) (s -ℤ pos 1))

timeradd_parts :
    (s r : ℤ) (m n : ℕ)
    → timeradd (at s (pos m)) (at r (pos n))
      ≡ at (s +ℤ r +ℤ pos ((m + n) / 1000000)) (pos ((m + n) % 1000000))
timeradd_parts s r m n =
    let u : pos m +ℤ pos n ≡ pos (m + n) = omega int_laws in
    rw u (carry_up_lem (m + n + 0) (m + n) (s +ℤ r) (omega arith))

timersub_less :
    (s r : ℤ) (m n : ℕ)
    → m < n
    → n < 1000000
    → timersub (at s (pos m)) (at r (pos n)) ≡ at (s -ℤ r -ℤ pos 1) (pos (1000000 + m - n))
timersub_less s r m n l k =
    let u : pos m -ℤ pos n ≡ negsuc (n - m - 1) = omega int_laws in
    let q : 1000000 - 1 - (n - m - 1) ≡ 1000000 + m - n = omega arith in
    let w : 0 + suc (n - m - 1) ≡ suc (n - m - 1) = omega arith in
    rw u (
      ap (λ f. carry_down f (at (s -ℤ r) (negsuc (n - m - 1)))) w
      ∙ carry_down_neg (n - m - 1) (n - m - 1) (s -ℤ r) (omega arith)
      ∙ ap (λ k. at (s -ℤ r -ℤ pos 1) (pos k)) q)

timersub_le :
    (s r : ℤ) (m n : ℕ) → n ≤ m → timersub (at s (pos m)) (at r (pos n)) ≡ at (s -ℤ r) (pos (m - n))
timersub_le s r m n l =
    let u : pos m -ℤ pos n ≡ pos (m - n) = omega int_laws in
    rw u (carry_down_pos (m - n + 0) (m - n) (s -ℤ r))

sub-add :
    (s r : ℤ) (m n : ℕ)
    → m < 1000000
    → n < 1000000
    → timersub (timeradd (at s (pos m)) (at r (pos n))) (at r (pos n)) ≡ at s (pos m)
sub-add s r m n h k = rw (timeradd_parts s r m n) (elim (Bool-cases (ltb ((m + n) % 1000000) n)) [
  | inl e ↦
      let l : (m + n) % 1000000 < n = ground (arith, e) in
      let q : s +ℤ r +ℤ pos ((m + n) / 1000000) -ℤ r -ℤ pos 1 ≡ s = omega int_laws in
      let w : 1000000 + (m + n) % 1000000 - n ≡ m = omega arith in
      timersub_less _ r _ n l k ∙ ap₂ at q (ap pos w)
  | inr e ↦
      let l : n ≤ (m + n) % 1000000 = ground (arith, e) in
      let q : s +ℤ r +ℤ pos ((m + n) / 1000000) -ℤ r ≡ s = omega int_laws in
      let w : (m + n) % 1000000 - n ≡ m = omega arith in timersub_le _ r _ n l ∙ ap₂ at q (ap pos w)
])

Normal-eq : (t : Timeval) → Normal t → t ≡ at t.sec (pos (pos_part t.usec))
Normal-eq t h =
    let e : t.usec ≡ pos (pos_part t.usec) = eq_of_parts _ _ (omega (arith, h.0)) in
    ap (λ u. at t.sec u) e

-- The sum of two times with less than a second of microseconds is such a time again, and taking one
-- of the two away from it gives the other.
pub timersub-timeradd :
    (a b : Timeval) → Normal a → Normal b → Normal (timeradd a b) × (timersub (timeradd a b) b ≡ a)
timersub-timeradd a b h k =
    let m = pos_part a.usec in
    let n = pos_part b.usec in
    let e = Normal-eq a h in
    let f = Normal-eq b k in
    let p : timeradd a b
        ≡ at (a.sec +ℤ b.sec +ℤ pos ((m + n) / 1000000)) (pos ((m + n) % 1000000)) =
      ap₂ timeradd e f ∙ timeradd_parts a.sec b.sec m n in
    let q : Normal (at (a.sec +ℤ b.sec +ℤ pos ((m + n) / 1000000)) (pos ((m + n) % 1000000))) =
      (refl, omega arith) in
    (
      subst (λ t. Normal t) (sym p) q,
      ap₂ (λ x y. timersub (timeradd x y) y) e f ∙ sub-add a.sec b.sec m n h.1 k.1 ∙ sym e,
    )
