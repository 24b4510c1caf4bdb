-- ===== src/Sim/Jobs/Progress.antt =====
-- The progress that `sim_job_status` computes in plugin/sim_plugin/simarray.py.
use native.Mathlib.Nat.{le-div_iff_mul-le, mul-le-mul_right, le_of_mul-le-mul_right}
use libstoragemgmt.Base.{
  ℕ, refl, ◌*◌, ◌≤◌, ◌<◌, ◌≡◌, ◌↔◌, ◌==◌, ◌⊎◌, true, leb, inl, inr, Bool-cases, arith,
}
use libstoragemgmt.Doubles.{
  fl, one, sub_double, div_double, hundredfold, int_of, fl_bounds, fl_small, one-lt,
}
use libstoragemgmt.Sim.Tables.{Job}
use libstoragemgmt.Sim.Jobs.{job_progress}

-- the percentage of an elapsed time
abbrev percent : ℕ → ℕ → ℕ
percent elapsed duration = int_of (hundredfold (div_double elapsed duration))

one_positive : 0 < one
one_positive = omega (arith, one-lt)

-- `int(a)` is 100 or more from 100.0 on.
int_of_iff : (a : ℕ) → (100 ≤ int_of a) ↔ (100 * one ≤ a)
unfolding int_of
int_of_iff a = le-div_iff_mul-le {k = one} {x = 100} {y = a} one_positive

scaled : (x k : ℕ) → k ≤ one → k * x ≤ x * one
scaled x k h = omega (arith, mul-le-mul_right x h)

-- a quotient that is 1.0 but for one rounding gives at least 100
enough_quotient :
    (q : ℕ) → 9007199254740992 * one ≤ 9007199254740991 * q → 100 ≤ int_of (hundredfold q)
unfolding hundredfold
enough_quotient q h =
    let (u, l) = fl_bounds (q * 100) 1 (omega arith) (omega (arith, one-lt)) in
    (int_of_iff (fl (q * 100) 1)).1 (omega (arith, l))

enough :
    (x d : ℕ)
    → 0 < d
    → d * 81129638414606681695789005144064 ≤ x * 81129638414606663681390495662081
    → 100 ≤ percent x d
unfolding div_double
enough x d p h =
    let s = scaled x 4503599627370496 (omega (arith, one-lt)) in
    let (u, l) = fl_bounds (x * one) d p (omega (arith, s)) in
    let m = mul-le-mul_right one h in
    enough_quotient (fl (x * one) d) (le_of_mul-le-mul_right {k = d} (omega (arith, l, m)) p)

-- and what gives at least 100 is 1.0 but for one rounding
quotient_of : (q : ℕ) → 100 ≤ int_of (hundredfold q) → 9007199254740992 * one ≤ 9007199254740993 * q
unfolding hundredfold
quotient_of q h =
    let g = (int_of_iff (fl (q * 100) 1)).0 h in
    elim (Bool-cases (leb 4503599627370496 (q * 100))) [
      | inl large ↦
          let (u, l) = fl_bounds (q * 100) 1 (omega arith) (ground (arith, large)) in
          omega (arith, u)
      | inr small ↦
          absurd (omega (arith, fl_small (q * 100) 1 (omega arith) (ground (arith, small)), one-lt))
    ]

needed :
    (x d : ℕ)
    → 0 < d
    → 100 ≤ percent x d
    → d * 81129638414606681695789005144064 ≤ x * 81129638414606699710187514626049
unfolding div_double
needed x d p h =
    let g = mul-le-mul_right d (quotient_of (fl (x * one) d) h) in
    le_of_mul-le-mul_right {k = one}
      (elim (Bool-cases (leb (4503599627370496 * d) (x * one))) [
        | inl large ↦
            let (u, l) = fl_bounds (x * one) d p (ground (arith, large)) in omega (arith, u, g)
        | inr small ↦ absurd (
            omega (
              arith,
              g,
              fl_small (x * one) d p (ground (arith, small)),
              scaled d 1152921504606846975 (omega (arith, one-lt)),
            ))
      ])
      one_positive

module _ (now : ℕ) (j : Job) where
  no_duration : (j.duration == 0) ≡ true → job_progress now j ≡ 100
  unfolding job_progress
  no_duration e = rw e refl

  done_at :
      0 < j.duration
      → 100 ≤ percent (sub_double now j.timestamp) j.duration
      → job_progress now j ≡ 100
  unfolding job_progress
  done_at p h = ground (arith, h, p)

  progress_cases :
      0 < j.duration
      → (job_progress now j ≡ 100) × (100 ≤ percent (sub_double now j.timestamp) j.duration)
        ⊎ (job_progress now j < 100)
  unfolding job_progress
  progress_cases p = ground (arith, p)

-- The progress is a percentage. It is 100 where the job has no duration, and otherwise, up to two roundings of a
-- double, exactly from the moment on at which the elapsed time, as the code computes it, has reached the duration:
-- it is 100 if the elapsed time times (1 - 2^-53)^2 has reached it, and if it is 100 then the elapsed time times
-- (1 + 2^-53)^2 has.
pub job_progress_lem :
    (now : ℕ) (j : Job)
    → (job_progress now j ≤ 100)
      × (j.duration * 81129638414606681695789005144064
            ≤ sub_double now j.timestamp * 81129638414606663681390495662081
          → job_progress now j ≡ 100)
      × (job_progress now j ≡ 100
          → j.duration * 81129638414606681695789005144064
            ≤ sub_double now j.timestamp * 81129638414606699710187514626049)
job_progress_lem now j = elim (Bool-cases (j.duration == 0)) [
  | inl nothing ↦
      let full = no_duration now j nothing in
      let z : j.duration ≡ 0 = ground (arith, nothing) in
      (omega (arith, full), λ _. full, λ _. omega (arith, z))
  | inr some_time ↦
      let p : 0 < j.duration = ground (arith, some_time) in
      (
        elim (progress_cases now j p) [
          | inl (full, _) ↦ omega (arith, full)
          | inr less ↦ omega (arith, less)
        ],
        λ h. done_at now j p (enough (sub_double now j.timestamp) j.duration p h),
        λ h. elim (progress_cases now j p) [
          | inl (_, large) ↦ needed (sub_double now j.timestamp) j.duration p large
          | inr less ↦ absurd (omega (arith, h, less))
        ],
      )
]
