-- ===== src/Operations/Orphan/Sighted.antt =====
-- When an orphan is recorded, and how long it is remembered.
use llauncher.Base.{
  ℕ, ◌+◌, Bool, true, false, not, ◌&&◌, ◌||◌, List, [], ◌∷◌, any, contains, ◌==◌, nat_eq,
  nat_beq_iff, ==-eq, Bool-cases, inl, inr, if◌then◌else◌, ◌≡◌, refl, sym, ap, ◌∙◌, arith,
}
use llauncher.Operations.Orphan.{OrphanInfo, Seen, warn, observe, in_scan, prune, observe_scan}

-- How many of the entries are for this pid.
abbrev pub entries_for : ℕ → List OrphanInfo → ℕ
entries_for pid [] = 0
entries_for pid (o ∷ os) = (if o.pid == pid then 1 else 0) + entries_for pid os

-- The pid is that of an orphan whose command line can be read.
abbrev pub is_readable : ℕ → List OrphanInfo → Bool
is_readable pid = any (λ o. not o.cmdline_unreadable && o.pid == pid)

observed-warn : (pid : ℕ) (seen : Seen) → (warn pid seen).observed ≡ seen.observed
unfolding warn
observed-warn pid seen = ground arith

-- The sums and tests of one round, for a pid that has been observed and for a new one.
known_count :
    (same r c : Bool)
    → (same ≡ true → c ≡ true)
    → ◌≡◌ {A = ℕ} (if r && not c then 1 else 0) (if (same || r) && not c then 1 else 0)
known_count true r c h = ground (arith, h refl)
known_count false r c h = refl

known_test : (same r c : Bool) → (same ≡ true → c ≡ true) → (c || r) ≡ (c || (same || r))
known_test true r c h = ground (arith, h refl)
known_test false r c h = refl

new_count :
    (same r c : Bool)
    → (same ≡ true → c ≡ false)
    → ◌≡◌ {A = ℕ}
        ((if same then 1 else 0) + (if r && not (same || c) then 1 else 0))
        (if (same || r) && not c then 1 else 0)
new_count same r c h = ground (arith, h)

new_test : (same r c : Bool) → ((same || c) || r) ≡ (c || (same || r))
new_test same r c = ground arith

contains-same :
    (p pid : ℕ) (pids : List ℕ) (b : Bool)
    → contains p pids ≡ b
    → (p == pid) ≡ true
    → contains pid pids ≡ b
contains-same p pid pids b h e = ap (λ q. contains q pids) (sym (==-eq p pid e)) ∙ h

entries_for-observe :
    (pid : ℕ) (orphans : List OrphanInfo) (seen : Seen)
    → (entries_for pid (observe orphans seen).0
        ≡ (if is_readable pid orphans && not (contains pid seen.observed) then 1 else 0))
      × (contains pid (observe orphans seen).1.observed
          ≡ (contains pid seen.observed || is_readable pid orphans))
unfolding observe
entries_for-observe pid [] seen = (refl, ground arith)
entries_for-observe pid (o ∷ os) seen = elim (Bool-cases o.cmdline_unreadable) [
  | inl u ↦
      let later = entries_for-observe pid os (warn o.pid seen) in
      let same = ap (contains pid) (observed-warn o.pid seen) in
      rw u (
        later.0 ∙ ap (λ b. if is_readable pid os && not b then 1 else 0) same,
        later.1 ∙ ap (λ b. b || is_readable pid os) same,
      )
  | inr u ↦ elim (Bool-cases (contains o.pid seen.observed)) [
    | inl k ↦
        let later = entries_for-observe pid os seen in
        let at = contains-same o.pid pid seen.observed true k in
        rw (u, k)
          (
            later.0
                ∙ known_count (o.pid == pid) (is_readable pid os) (contains pid seen.observed) at,
            later.1
                ∙ known_test (o.pid == pid) (is_readable pid os) (contains pid seen.observed) at,
          )
    | inr k ↦
        let later = entries_for-observe pid os (record seen { observed = o.pid ∷ seen.observed }) in
        let at = contains-same o.pid pid seen.observed false k in
        rw (u, k)
          (
            ap (λ n. (if o.pid == pid then 1 else 0) + n) later.0
                ∙ new_count (o.pid == pid) (is_readable pid os) (contains pid seen.observed) at,
            later.1 ∙ new_test (o.pid == pid) (is_readable pid os) (contains pid seen.observed),
          )
  ]
]

contains-prune :
    (pid : ℕ) (current : List OrphanInfo) (pids : List ℕ)
    → contains pid (prune current pids) ≡ (in_scan pid current && contains pid pids)
unfolding prune
contains-prune pid current [] = ground arith
contains-prune pid current (p ∷ ps) =
    ground (arith, contains-prune pid current ps, ap (λ k. in_scan k current), nat_beq_iff p pid)

-- A refresh hands one entry to the audit log for an orphan that can be read and that the last
-- refresh did not remember, and none for any other process; whether the log takes it is not
-- looked at. What it then remembers are the pids of its own scan that it has handed over now or
-- remembered before: a pid that leaves the scan is forgotten and handed over again when it comes
-- back.
pub observe_scan-entries :
    (pid : ℕ) (current : List OrphanInfo) (seen : Seen)
    → (entries_for pid (observe_scan current seen).0
        ≡ (if is_readable pid current && not (contains pid seen.observed) then 1 else 0))
      × (contains pid (observe_scan current seen).1.observed
          ≡ (in_scan pid current && (contains pid seen.observed || is_readable pid current)))
unfolding observe_scan
observe_scan-entries pid current seen =
    let (count, known) = entries_for-observe pid current seen in
    (
      count,
      contains-prune pid current (observe current seen).1.observed
          ∙ ap (λ b. in_scan pid current && b) known,
    )
