-- ===== src/Locks/Pipeline/Runs.antt =====
-- The rows of runs: their numbers, and those that still run.
use radar_ia.Prelude.{
  ◌≡◌, ◌<◌, ◌≢◌, refl, sym, ◌∙◌, ℕ, true, false, some, List, [], ◌∷◌, ◌==◌, length, arith,
  Bool-cases, inl, inr, filter,
}
use radar_ia.Locks.Pipeline.{PipelineRun, is_running, find_run, update_run}

-- newest first, each row has the number of rows before it
abbrev pub Numbered : List PipelineRun → Type 0
Numbered [] = Unit
Numbered (r ∷ rest) = (r.id ≡ length rest) × Numbered rest

abbrev pub active : List PipelineRun → List PipelineRun
active runs = filter (λ r. is_running r.status) runs

pub length-update_run :
    (i : ℕ) (f : PipelineRun → PipelineRun) (runs : List PipelineRun)
    → length (update_run i f runs) ≡ length runs
length-update_run i f [] = refl
length-update_run i f (r ∷ rest) = omega (arith, length-update_run i f rest)

pub update_run-Numbered :
    (i : ℕ) (f : PipelineRun → PipelineRun) (runs : List PipelineRun)
    → ((r : PipelineRun) → (f r).id ≡ r.id)
    → Numbered runs
    → Numbered (update_run i f runs)
update_run-Numbered i f [] keep n = tt
update_run-Numbered i f (r ∷ rest) keep n =
    let same = length-update_run i f rest in
    elim (Bool-cases (r.id == i)) [
      | inl hit ↦ rw hit (keep r ∙ n.0 ∙ sym same, update_run-Numbered i f rest keep n.1)
      | inr miss ↦ rw miss (n.0 ∙ sym same, update_run-Numbered i f rest keep n.1)
    ]

pub find_run-below :
    (i : ℕ) (runs : List PipelineRun) (r : PipelineRun)
    → Numbered runs
    → find_run i runs ≡ some r
    → (r.id ≡ i) × (i < length runs)
find_run-below i [] r n found = ground arith
find_run-below i (x ∷ rest) r n found = elim (Bool-cases (x.id == i)) [
  | inl hit ↦ ground arith
  | inr miss ↦ ground (arith, find_run-below i rest r n.1)
]

-- another row's update leaves a row
pub find_run-update_run :
    (i j : ℕ) (f : PipelineRun → PipelineRun) (runs : List PipelineRun)
    → ((r : PipelineRun) → (f r).id ≡ r.id)
    → i ≢ j
    → find_run i (update_run j f runs) ≡ find_run i runs
find_run-update_run i j f [] keep ne = refl
find_run-update_run i j f (x ∷ rest) keep ne =
    ground (arith, keep x, find_run-update_run i j f rest keep ne)

-- a row that alone still runs is found under its number
pub active-below :
    (runs : List PipelineRun) (r : PipelineRun)
    → Numbered runs
    → active runs ≡ r ∷ []
    → r.id < length runs
active-below [] r n one = ground arith
active-below (x ∷ rest) r n one = elim (Bool-cases (is_running x.status)) [
  | inl on ↦ ground arith
  | inr off ↦ ground (arith, active-below rest r n.1)
]

pub find_run-active :
    (runs : List PipelineRun) (r : PipelineRun)
    → Numbered runs
    → active runs ≡ r ∷ []
    → find_run r.id runs ≡ some r
find_run-active [] r n one = ground arith
find_run-active (x ∷ rest) r n one = elim (Bool-cases (is_running x.status)) [
  | inl on ↦ ground arith
  | inr off ↦ ground (arith, find_run-active rest r n.1, active-below rest r n.1)
]

pub active-running :
    (runs : List PipelineRun) (r : PipelineRun) → active runs ≡ r ∷ [] → is_running r.status ≡ true
active-running [] r one = ground arith
active-running (x ∷ rest) r one = elim (Bool-cases (is_running x.status)) [
  | inl on ↦ ground arith
  | inr off ↦ ground (arith, active-running rest r)
]

-- an update that finishes its row
pub active-none_left :
    (i : ℕ) (f : PipelineRun → PipelineRun) (runs : List PipelineRun)
    → ((r : PipelineRun) → is_running (f r).status ≡ false)
    → active runs ≡ []
    → active (update_run i f runs) ≡ []
active-none_left i f [] stop none_on = refl
active-none_left i f (x ∷ rest) stop none_on =
    ground (arith, stop x, active-none_left i f rest stop)

pub active-finished :
    (f : PipelineRun → PipelineRun) (runs : List PipelineRun) (r : PipelineRun)
    → ((r : PipelineRun) → is_running (f r).status ≡ false)
    → active runs ≡ r ∷ []
    → active (update_run r.id f runs) ≡ []
active-finished f [] r stop one = ground arith
active-finished f (x ∷ rest) r stop one = elim (Bool-cases (is_running x.status)) [
  | inl on ↦ ground (arith, stop x, active-none_left r.id f rest stop)
  | inr off ↦ ground (arith, stop x, active-finished f rest r stop)
]

-- an update that keeps its row's status
pub active-unmoved :
    (i : ℕ) (f : PipelineRun → PipelineRun) (runs : List PipelineRun)
    → ((r : PipelineRun) → (f r).status ≡ r.status)
    → active runs ≡ []
    → active (update_run i f runs) ≡ []
active-unmoved i f [] keep none_on = refl
active-unmoved i f (x ∷ rest) keep none_on = ground (arith, keep x, active-unmoved i f rest keep)

pub active-renewed :
    (f : PipelineRun → PipelineRun) (runs : List PipelineRun) (r : PipelineRun)
    → ((r : PipelineRun) → (f r).status ≡ r.status)
    → Numbered runs
    → active runs ≡ r ∷ []
    → active (update_run r.id f runs) ≡ f r ∷ []
active-renewed f [] r keep n one = ground arith
active-renewed f (x ∷ rest) r keep n one = elim (Bool-cases (is_running x.status)) [
  | inl on ↦ ground (arith, keep x, active-unmoved r.id f rest keep)
  | inr off ↦ ground (arith, keep x, active-below rest r n.1, active-renewed f rest r keep n.1)
]
