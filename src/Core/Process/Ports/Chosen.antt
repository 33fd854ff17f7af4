-- ===== src/Core/Process/Ports/Chosen.antt =====
-- The port that is chosen, and what it means that there is none.
use llauncher.Base.{
  ℕ, zero, suc, ◌+◌, ◌-◌, ◌≤◌, ◌<◌, Bool, Bool-cases, true, false, not, ◌&&◌, Option, none, some,
  List, contains, ◌==◌, nat_eq, ==-eq, if◌then◌else◌, ◌≡◌, refl, sym, ap, ◌∙◌, inl, inr, arith, ◌⊎◌,
}
use mathlib.Core.Option.{some-injective}
use llauncher.Core.Process.Ports.{
  Socket, is_port_in_use, scan_ports, is_preferred, first_port, find_available_port,
}

module _ (sockets : Option (List Socket)) (can_bind : ℕ → Bool) (blacklisted : List ℕ) where
  -- A port that may be handed out.
  abbrev pub is_usable : ℕ → Bool
  is_usable port = not (is_port_in_use sockets can_bind port) && not (contains port blacklisted)

  -- The answer of a scan: the first usable port of the range, or none where there is none.
  abbrev pub FirstUsable : ℕ → ℕ → Bool × ℕ → Type 0
  FirstUsable start bound (true, port) =
      (start ≤ port)
      × (port < bound)
      × (is_usable port ≡ true)
      × ((q : ℕ) → start ≤ q → q < port → is_usable q ≡ false)
  FirstUsable start bound (false, port) = (q : ℕ) → start ≤ q → q < bound → is_usable q ≡ false

  FirstUsable-at :
      (start q : ℕ)
      → is_usable start ≡ false
      → (start + 1 ≤ q → is_usable q ≡ false)
      → start ≤ q
      → is_usable q ≡ false
  FirstUsable-at start q h later low = elim (Bool-cases (start == q)) [
    | inl b ↦ ap is_usable (sym (==-eq start q b)) ∙ h
    | inr b ↦ later (ground (arith, b, low))
  ]

  FirstUsable-next :
      (start bound : ℕ) (answer : Bool × ℕ)
      → is_usable start ≡ false
      → FirstUsable (start + 1) bound answer
      → FirstUsable start bound answer
  FirstUsable-next start bound (true, port) h f = (
    omega (arith, f.0),
    f.1,
    f.2,
    λ q low high. FirstUsable-at start q h (λ above. f.3 q above high) low,
  )
  FirstUsable-next start bound (false, port) h f =
      λ q low high. FirstUsable-at start q h (λ above. f q above high) low

  -- One round of the scan.
  FirstUsable-round :
      (start bound : ℕ) (skip : Bool) (rest : Bool × ℕ)
      → start < bound
      → (skip ≡ true → is_usable start ≡ false)
      → FirstUsable (start + 1) bound rest
      → FirstUsable start bound (
          if contains start blacklisted
          then rest
          else if skip
          then rest
          else if not (is_port_in_use sockets can_bind start)
          then (true, start)
          else rest)
  FirstUsable-round start bound skip rest low tried f =
      elim (Bool-cases (contains start blacklisted)) [
        | inl b ↦ rw b (FirstUsable-next start bound rest (ground (arith, b)) f)
        | inr b ↦ elim (Bool-cases skip) [
          | inl s ↦ rw (b, s) (FirstUsable-next start bound rest (tried s) f)
          | inr s ↦ elim (Bool-cases (is_port_in_use sockets can_bind start)) [
            | inl u ↦ rw (b, s, u) (FirstUsable-next start bound rest (ground (arith, u)) f)
            | inr u ↦
                rw (b, s, u)
                  (
                    omega arith,
                    low,
                    ground (arith, b, u),
                    λ q above below. ground (arith, above, below),
                  )
          ]
        ]
      ]

  is_preferred-some :
      (preferred : Option ℕ) (port : ℕ)
      → is_preferred sockets can_bind blacklisted preferred port ≡ true
      → preferred ≡ some port
  unfolding is_preferred
  is_preferred-some none port h = ground (arith, h)
  is_preferred-some (some p) port h = ap some (sym (==-eq port p h))

  scan_ports-FirstUsable :
      (preferred : Option ℕ) (start count bound : ℕ)
      → count ≡ bound - start
      → ((p : ℕ) → preferred ≡ some p → is_usable p ≡ false)
      → FirstUsable start bound (scan_ports sockets can_bind blacklisted preferred start count)
  unfolding scan_ports
  scan_ports-FirstUsable preferred start zero bound size tried =
      λ q low high. ground (arith, size, low, high)
  scan_ports-FirstUsable preferred start (suc count) bound size tried =
      FirstUsable-round start bound (is_preferred sockets can_bind blacklisted preferred start)
        (scan_ports sockets can_bind blacklisted preferred (start + 1) count) (omega (arith, size))
        (λ h. tried start (is_preferred-some preferred start h))
        (scan_ports-FirstUsable preferred (start + 1) count bound (omega (arith, size)) tried)

  -- A port is found exactly if there is one to find. It is the preferred one if no listener holds
  -- that and the settings do not forbid it, inside the range or not. Otherwise it is the first port
  -- from `start` to `last_port` of which this is true, and there is no answer if there is none.
  pub find_available_port-FirstUsable :
      (default_port : ℕ) (preferred start : Option ℕ) (last_port : ℕ)
      → ((p : ℕ) × (preferred ≡ some p)
          × (is_usable p ≡ true)
          × (find_available_port sockets can_bind blacklisted default_port preferred start last_port
              ≡ (true, p)))
        ⊎ (((p : ℕ) → preferred ≡ some p → is_usable p ≡ false)
            × FirstUsable
                (first_port sockets can_bind blacklisted default_port start)
                (last_port + 1)
                (find_available_port sockets can_bind blacklisted default_port preferred start
                  last_port))
  unfolding find_available_port
  find_available_port-FirstUsable default_port none start last_port =
      let first = first_port sockets can_bind blacklisted default_port start in
      let tried : (p : ℕ) → none ≡ some p → is_usable p ≡ false = λ p h. ground (arith, h) in
      inr (
        tried,
        scan_ports-FirstUsable none first (last_port + 1 - first) (last_port + 1) refl tried,
      )
  find_available_port-FirstUsable default_port (some p) start last_port =
      elim (Bool-cases (is_usable p)) [
        | inl b ↦ inl (p, refl, b, rw b)
        | inr b ↦
            let first = first_port sockets can_bind blacklisted default_port start in
            let tried : (q : ℕ) → some p ≡ some q → is_usable q ≡ false =
              λ q h. ap is_usable (sym (some-injective p q h)) ∙ b in
            inr (
              tried,
              rw b (
                  scan_ports-FirstUsable (some p) first (last_port + 1 - first) (last_port + 1) refl
                    tried),
            )
      ]
