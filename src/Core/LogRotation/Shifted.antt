-- ===== src/Core/LogRotation/Shifted.antt =====
-- What a rotation leaves in the slots.
use llauncher.Base.{
  ◌∙◌, ap, ℕ, zero, suc, ◌+◌, ◌-◌, ◌≤◌, ◌<◌, ◌≢◌, Bool, true, false, ◌&&◌, Option, none, some,
  nat_eq, ltb, leb, ◌==◌, ◌≡◌, refl, arith, if◌then◌else◌, Option-cases, Bool-cases, inl, inr,
}
use llauncher.Base.Dict.{lookup, remove, lookup-put, lookup-remove}
use llauncher.Core.LogRotation.{
  Slots, Log, replace, shift_slot, shift_slots, shift_next, rotate_if_needed, rotate_log, move_live,
  move_shifted,
}

lookup-replace :
    (src dst j : ℕ) (d : Slots)
    → dst ≢ src
    → lookup dst d ≡ none
    → lookup j (replace src dst d)
      ≡ (if j == src then none else if j == dst then lookup src d else lookup j d)
unfolding replace
lookup-replace src dst j d apart free = elim (Option-cases (lookup src d)) [
  | inl e ↦ ground (arith, e)
  | inr (log, e) ↦ ground (arith, e, lookup-put dst j log (remove src d), lookup-remove src j d)
]

-- Slot j after one round of the loop, in terms of the slots before it.
abbrev pushed : ℕ → ℕ → Slots → ℕ → Option Log
pushed keep n d j =
    if j == n then none else if j == n + 1 && ltb n keep then lookup n d else lookup j d

-- Slot j after the loop over the slots from n down to 1.
abbrev shifted : ℕ → ℕ → Slots → ℕ → Option Log
shifted keep n d j =
    if j == 0
    then lookup 0 d
    else if leb j (if ltb n keep then n + 1 else n)
    then (if j == 1 then none else lookup (j - 1) d)
    else lookup j d

shifted-pushed :
    (keep n : ℕ) (d d1 : Slots)
    → suc n ≤ keep
    → (suc n < keep → lookup (suc n + 1) d ≡ none)
    → ((j : ℕ) → lookup j d1 ≡ pushed keep (suc n) d j)
    → (j : ℕ) → shifted keep n d1 j ≡ shifted keep (suc n) d j
shifted-pushed keep n d d1 h free at1 j = ground (arith, at1 0, at1 j, at1 (j - 1), free)

module _ (works : ℕ → Bool) (every : (n : ℕ) → works n ≡ true) (keep : ℕ) where
  shift_slot-some :
      (n : ℕ) (d : Slots)
      → n ≤ keep
      → (n < keep → lookup (n + 1) d ≡ none)
      → (d' : Slots) × (shift_slot works keep n d ≡ some d')
        × ((j : ℕ) → lookup j d' ≡ pushed keep n d j)
  unfolding shift_slot
  shift_slot-some n d h free = elim (Option-cases (lookup n d)) [
    | inl e ↦ (d, ground (arith, e), λ j. ground (arith, e, free))
    | inr (log, e) ↦ elim (Bool-cases (n == keep)) [
      | inl b ↦ (
        remove n d,
        ground (arith, e, b, every n),
        λ j. ground (arith, e, b, lookup-remove n j d),
      )
      | inr b ↦ (
        replace n (n + 1) d,
        ground (arith, e, b, every n),
        λ j.
            ground
              (arith, b, lookup-replace n (n + 1) j d (omega arith) (free (ground (arith, b)))),
      )
    ]
  ]

  shift_slots-true :
      (n : ℕ) (d : Slots)
      → n ≤ keep
      → (n < keep → lookup (n + 1) d ≡ none)
      → (d' : Slots) × (shift_slots works keep n d ≡ (true, d'))
        × ((j : ℕ) → lookup j d' ≡ shifted keep n d j)
  unfolding shift_slots shift_next shift_slot
  shift_slots-true zero d h free = (d, refl, λ j. ground (arith, free))
  shift_slots-true (suc n) d h free =
      let (d1, e1, at1) = shift_slot-some (suc n) d h free in
      let (d2, e2, at2) =
        shift_slots-true n d1 (omega (arith, h)) (λ _. ground (arith, at1 (n + 1))) in
      (
        d2,
        ap (shift_next works keep (shift_slots works keep n) d) e1 ∙ e2,
        λ j. at2 j ∙ shifted-pushed keep n d d1 h free at1 j,
      )

  rotate_if_needed-over :
      (max_bytes : ℕ) (d : Slots) (log : Log)
      → 0 < max_bytes
      → lookup 0 d ≡ some log
      → max_bytes < log.size
      → rotate_if_needed works keep true max_bytes d
        ≡ move_shifted works keep (shift_slots works keep keep d)
  unfolding rotate_if_needed rotate_log
  rotate_if_needed-over max_bytes d log positive found over =
      let on : (max_bytes == 0) ≡ false = ground arith in
      let full : ltb max_bytes log.size ≡ true = ground arith in
      ap (λ b. if b then (false, d) else rotate_log works keep true max_bytes d (lookup 0 d)) on
      ∙ ap (rotate_log works keep true max_bytes d) found
      ∙ ap (λ b. if b then move_shifted works keep (shift_slots works keep keep d) else (false, d))
          full

  -- What the move of the live log makes of the shifted slots.
  move_live-shifts :
      (d d1 : Slots)
      → ((j : ℕ) → lookup j d1 ≡ shifted keep keep d j)
      → (d' : Slots) × (move_live works keep d1 ≡ (true, d'))
        × ((j : ℕ)
            → lookup j d'
              ≡ (if j == 0 then none else if leb j keep then lookup (j - 1) d else lookup j d))
  unfolding move_live
  move_live-shifts d d1 at1 = elim (Bool-cases (keep == 0)) [
    | inl b ↦ (
      remove 0 d1,
      ground (arith, b, every 0),
      λ j. ground (arith, b, at1 j, lookup-remove 0 j d1),
    )
    | inr b ↦ (
      replace 0 1 d1,
      ground (arith, b, every 0),
      λ j. ground (
        arith,
        b,
        at1 0,
        at1 j,
        at1 1,
        lookup-replace 0 1 j d1 (omega arith) (ground (arith, b, at1 1)),
      ),
    )
  ]

  -- When the file system lets every file be moved, a live log over a limit above 0 is rotated: it is
  -- gone from its own slot, each file has moved up by one, what was in the last kept slot is lost,
  -- the live log itself if no slot is kept, and the slots past that one are as they were.
  pub rotate_if_needed-shifts :
      (max_bytes : ℕ) (d : Slots) (log : Log)
      → 0 < max_bytes
      → lookup 0 d ≡ some log
      → max_bytes < log.size
      → (d' : Slots) × (rotate_if_needed works keep true max_bytes d ≡ (true, d'))
        × ((j : ℕ)
            → lookup j d'
              ≡ (if j == 0 then none else if leb j keep then lookup (j - 1) d else lookup j d))
  unfolding move_shifted
  rotate_if_needed-shifts max_bytes d log positive found over =
      let (d1, e1, at1) = shift_slots-true keep d (omega arith) (λ h. ground (arith, h)) in
      let (d2, e2, at2) = move_live-shifts d d1 at1 in
      (
        d2,
        rotate_if_needed-over max_bytes d log positive found over
            ∙ ap (move_shifted works keep) e1
            ∙ e2,
        at2,
      )
