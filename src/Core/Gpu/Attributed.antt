-- ===== src/Core/Gpu/Attributed.antt =====
-- Which processes a device has.
use llauncher.Base.{
  ℕ, ◌≡◌, refl, sym, ap, ◌∙◌, true, false, Option, none, some, List, [], ◌∷◌, ◌++◌, inl, inr,
  Bool-cases, ◌==◌, ==-eq, if◌then◌else◌, arith, ◌||◌, Option-cases,
}
use llauncher.Base.Text.{Text, text_eq}
use llauncher.Base.Dict.{lookup, has_key}
use llauncher.Core.Gpu.{
  GpuProcess, GpuDevice, Devices, process_row, with_process, attach, attach_row, attach_rows,
}

-- Every UUID once.
abbrev pub Distinct : Devices → Type 0
Distinct [] = Unit
Distinct ((key, device) ∷ devices) = (has_key key devices ≡ false) × Distinct devices

abbrev if_uuid : Text → Option (Text × GpuProcess) → List GpuProcess → List GpuProcess
if_uuid uuid none rest = rest
if_uuid uuid (some (named, p)) rest = if named == uuid then p ∷ rest else rest

-- The processes of the rows that name a UUID.
unfoldable pub processes_of : (Text → Option ℕ) → Text → List (List Text) → List GpuProcess
processes_of to_int uuid [] = []
processes_of to_int uuid (row ∷ rows) =
    if_uuid uuid (process_row to_int row) (processes_of to_int uuid rows)

abbrev pub with_processes : List GpuProcess → Option GpuDevice → Option GpuDevice
with_processes more none = none
with_processes more (some device) = some (record device { processes = device.processes ++ more })

has_key-cons :
    (k key : Text) (device : GpuDevice) (devices : Devices)
    → has_key k ((key, device) ∷ devices) ≡ (key == k || has_key k devices)
unfolding lookup
has_key-cons k key device devices = elim (Bool-cases (key == k)) [
  | inl b ↦ rw (has_key, b) refl
  | inr b ↦ rw (has_key, b) refl
]

has_key-attach :
    (k uuid : Text) (p : GpuProcess) (devices : Devices)
    → has_key k (attach uuid p devices) ≡ has_key k devices
unfolding attach
has_key-attach k uuid p [] = refl
has_key-attach k uuid p ((key, device) ∷ devices) = elim (Bool-cases (has_key uuid devices)) [
  | inl b ↦ rw b (
      has_key-cons k key device (attach uuid p devices)
      ∙ ap (λ x. key == k || x) (has_key-attach k uuid p devices)
      ∙ sym (has_key-cons k key device devices))
  | inr b ↦ rw b (elim (Bool-cases (key == uuid)) [
    | inl d ↦ rw d (
        has_key-cons k key (with_process p device) devices
        ∙ sym (has_key-cons k key device devices))
    | inr d ↦ rw d refl
  ])
]

attach-Distinct :
    (uuid : Text) (p : GpuProcess) (devices : Devices)
    → Distinct devices
    → Distinct (attach uuid p devices)
unfolding attach
attach-Distinct uuid p [] h = tt
attach-Distinct uuid p ((key, device) ∷ devices) h = elim (Bool-cases (has_key uuid devices)) [
  | inl b ↦ rw b (has_key-attach key uuid p devices ∙ h.0, attach-Distinct uuid p devices h.1)
  | inr b ↦ rw b (elim (Bool-cases (key == uuid)) [ inl d ↦ rw d h | inr d ↦ rw d h ])
]

append-nothing : (l : List GpuProcess) → l ++ [] ≡ l
append-nothing [] = refl
append-nothing (p ∷ l) = ap (λ m. p ∷ m) (append-nothing l)

append-onto :
    (l : List GpuProcess) (p : GpuProcess) (more : List GpuProcess)
    → (l ++ p ∷ []) ++ more ≡ l ++ p ∷ more
append-onto [] p more = refl
append-onto (q ∷ l) p more = ap (λ m. q ∷ m) (append-onto l p more)

with_processes-nothing : (o : Option GpuDevice) → with_processes [] o ≡ o
with_processes-nothing none = refl
with_processes-nothing (some device) =
    ap (λ l. some (record device { processes = l })) (append-nothing device.processes)

uuid_apart :
    (uuid key j : Text) (devices : Devices)
    → has_key uuid devices ≡ true
    → (key == j) ≡ true
    → has_key key devices ≡ false
    → (uuid == j) ≡ false
uuid_apart uuid key j devices b c gone = elim (Bool-cases (uuid == j)) [
  | inl d ↦
      let same = ap (λ q. has_key q devices) (==-eq uuid j d ∙ sym (==-eq key j c)) in
      ground (arith, b, gone, same)
  | inr d ↦ d
]

lookup-gone : (j : Text) (devices : Devices) → has_key j devices ≡ false → lookup j devices ≡ none
lookup-gone j devices h = elim (Option-cases (lookup j devices)) [
  | inl e ↦ e
  | inr (v, e) ↦ ground (arith, h, e)
]

-- The device that the process goes to is the first, or nowhere.
attach_here :
    (j uuid key : Text) (p : GpuProcess) (device : GpuDevice) (devices : Devices)
    → has_key uuid devices ≡ false
    → lookup j
        (if key == uuid then (key, with_process p device) ∷ devices else (key, device) ∷ devices)
      ≡ (if uuid == j
          then with_processes (p ∷ []) (if key == j then some device else lookup j devices)
          else if key == j
          then some device
          else lookup j devices)
unfolding lookup
attach_here j uuid key p device devices gone = elim (Bool-cases (key == uuid)) [
  | inl d ↦
      let same : (key == j) ≡ (uuid == j) = ap (λ q. q == j) (==-eq key uuid d) in
      elim (Bool-cases (uuid == j)) [ inl u ↦ rw (d, same, u) refl | inr u ↦ rw (d, same, u) refl ]
  | inr d ↦ elim (Bool-cases (uuid == j)) [
    | inl u ↦
        let apart : (key == j) ≡ false = ap (λ q. key == q) (sym (==-eq uuid j u)) ∙ d in
        let none_here =
          ap (λ q. lookup q devices) (sym (==-eq uuid j u)) ∙ lookup-gone uuid devices gone in
        rw (d, u, apart, none_here) refl
    | inr u ↦ rw (d, u) refl
  ]
]

lookup-attach :
    (j uuid : Text) (p : GpuProcess) (devices : Devices)
    → Distinct devices
    → lookup j (attach uuid p devices)
      ≡ (if uuid == j then with_processes (p ∷ []) (lookup j devices) else lookup j devices)
unfolding attach lookup
lookup-attach j uuid p [] h = elim (Bool-cases (uuid == j)) [
  | inl b ↦ rw b refl
  | inr b ↦ rw b refl
]
lookup-attach j uuid p ((key, device) ∷ devices) h = elim (Bool-cases (has_key uuid devices)) [
  | inl b ↦ rw b (elim (Bool-cases (key == j)) [
    | inl c ↦
        let other : (uuid == j) ≡ false = uuid_apart uuid key j devices b c h.0 in
        rw (c, other) refl
    | inr c ↦ rw c (lookup-attach j uuid p devices h.1)
  ])
  | inr b ↦ rw b (attach_here j uuid key p device devices b)
]

with_processes-twice :
    (p : GpuProcess) (more : List GpuProcess) (o : Option GpuDevice)
    → with_processes more (with_processes (p ∷ []) o) ≡ with_processes (p ∷ more) o
with_processes-twice p more none = refl
with_processes-twice p more (some device) =
    ap (λ l. some (record device { processes = l })) (append-onto device.processes p more)

lookup-attach_row :
    (j : Text) (o : Option (Text × GpuProcess)) (more : List GpuProcess) (devices : Devices)
    → Distinct devices
    → with_processes more (lookup j (attach_row o devices))
      ≡ with_processes (if_uuid j o more) (lookup j devices)
unfolding attach_row
lookup-attach_row j none more devices h = refl
lookup-attach_row j (some (uuid, p)) more devices h =
    ap (with_processes more) (lookup-attach j uuid p devices h) ∙ joined_row
  where
    joined_row :
        with_processes more
          (if uuid == j then with_processes (p ∷ []) (lookup j devices) else lookup j devices)
        ≡ with_processes (if uuid == j then p ∷ more else more) (lookup j devices)
    joined_row = elim (Bool-cases (uuid == j)) [
      | inl b ↦ rw b (with_processes-twice p more (lookup j devices))
      | inr b ↦ rw b refl
    ]

attach_row-Distinct :
    (o : Option (Text × GpuProcess)) (devices : Devices)
    → Distinct devices
    → Distinct (attach_row o devices)
unfolding attach_row
attach_row-Distinct none devices h = h
attach_row-Distinct (some (uuid, p)) devices h = attach-Distinct uuid p devices h

-- If no two devices have the same UUID, every device is given, behind the processes that it had, those
-- of the rows that name its UUID and have a pid and a name, in the order of the rows, and no other.
pub attach_rows-attributed :
    (to_int : Text → Option ℕ) (j : Text) (rows : List (List Text)) (devices : Devices)
    → Distinct devices
    → lookup j (attach_rows to_int rows devices)
      ≡ with_processes (processes_of to_int j rows) (lookup j devices)
unfolding attach_rows processes_of
attach_rows-attributed to_int j [] devices h = sym (with_processes-nothing (lookup j devices))
attach_rows-attributed to_int j (row ∷ rows) devices h =
    let o = process_row to_int row in
    attach_rows-attributed to_int j rows (attach_row o devices) (attach_row-Distinct o devices h)
    ∙ lookup-attach_row j o (processes_of to_int j rows) devices h
