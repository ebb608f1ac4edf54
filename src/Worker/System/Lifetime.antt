-- ===== src/Worker/System/Lifetime.antt =====
-- One job's life over any history: its counters only grow, its end is final, and the number of its
-- runs is bounded.
use honor.Common.{
  ltb, ltb→lt, ◌+◌, ◌≤◌, ◌<◌, String, ◌≡◌, ◌⊎◌, inl, inr, refl, sym, ◌∙◌, Bool, true, false, some,
  arith, Bool-cases,
}
use honor.Common.Table.{find}
use honor.Common.Platform.{Platform}
use honor.Jobs.{JobState, JobRow, Database, job_id, succeeded, failed_terminal, cancelled}
use honor.Jobs.Graph.{◌⟶◌, claim}
use honor.Worker.Transitions.{is_running}
use honor.Worker.System.Rows.{RowStep, move, stay}
use honor.Worker.System.History.{History, RowPath, here, further, History-RowPath}

-- The states that nothing leaves.
abbrev pub is_terminal : JobState → Bool
is_terminal succeeded = true
is_terminal failed_terminal = true
is_terminal cancelled = true
is_terminal _ = false

edge_not_terminal : {s t : JobState} → s ⟶ t → is_terminal s ≡ false
edge_not_terminal claim = refl
edge_not_terminal _ = refl

-- What a path of row steps keeps or raises.
abbrev pub Grows : JobRow → JobRow → Type 0
Grows r s =
    (s.id ≡ r.id)
    × (s.max_attempts ≡ r.max_attempts)
    × (r.version ≤ s.version)
    × (r.attempt ≤ s.attempt)
    × (s.version ≡ r.version → s.state ≡ r.state)

abbrev IsFinal : JobRow → JobRow → Type 0
IsFinal r s = (s.state ≡ r.state) × (s.version ≡ r.version) × (s.attempt ≡ r.attempt)

pub attempt-le_of_step : (r s : JobRow) → RowStep r s → r.attempt ≤ s.attempt
attempt-le_of_step r s (move i e v a) = elim (Bool-cases (is_running s.state)) [
  | inl hit ↦ (let k : s.attempt ≡ r.attempt + 1 = rw hit at a in omega arith)
  | inr miss ↦ (let k : s.attempt ≡ r.attempt = rw miss at a in omega arith)
]
attempt-le_of_step r s (stay i e v a) = omega arith

RowStep-Grows : (q r s : JobRow) → Grows q r → RowStep r s → Grows q s
RowStep-Grows q r s (i, m, v, a, f) (move (i', k, d, m', t) e v' b) =
    let le = attempt-le_of_step r s (move (i', k, d, m', t) e v' b) in
    (i' ∙ i, m' ∙ m, omega arith, omega arith, λ h. absurd (omega arith))
RowStep-Grows q r s (i, m, v, a, f) (stay (i', _, _, m', _) e v' b) =
    (i' ∙ i, m' ∙ m, omega arith, omega arith, λ h. e ∙ f (sym v' ∙ h))

RowStep-IsFinal :
    (q r s : JobRow) → is_terminal q.state ≡ true → IsFinal q r → RowStep r s → IsFinal q s
RowStep-IsFinal q r s end (f, v, a) (move i e v' b) = let live = edge_not_terminal e in absurd (cc)
RowStep-IsFinal q r s end (f, v, a) (stay i e v' b) = (e ∙ f, v' ∙ v, b ∙ a)

pub RowPath-Grows : (r s : JobRow) → RowPath r s → Grows r s
RowPath-Grows r _ here = (refl, refl, omega arith, omega arith, λ h. refl)
RowPath-Grows r t (further {s} path step) = RowStep-Grows r s t (RowPath-Grows r s path) step

RowPath-IsFinal : (r s : JobRow) → is_terminal r.state ≡ true → RowPath r s → IsFinal r s
RowPath-IsFinal r _ end here = (refl, refl, refl)
RowPath-IsFinal r t end (further {s} path step) =
    RowStep-IsFinal r s t end (RowPath-IsFinal r s end path) step

version_or_state :
    (r s : JobRow)
    → r.version ≤ s.version
    → (s.version ≡ r.version → s.state ≡ r.state)
    → ((s.version ≡ r.version) × (s.state ≡ r.state)) ⊎ (r.version < s.version)
version_or_state r s v f = elim (Bool-cases (ltb r.version s.version)) [
  | inl grown ↦ inr (ltb→lt r.version s.version grown)
  | inr not_grown ↦ let e : s.version ≡ r.version = ground (arith, not_grown) in inl (e, f e)
]

module _ (lib : Platform) where
  -- A stored job that is succeeded, failed-terminal or cancelled is there after any sequence of
  -- transactions, with the state, the version and the attempt that it had.
  pub History-is_terminal :
      {db db' : Database}
      → History lib db db'
      → (j : String) (r : JobRow) → find job_id j db.jobs ≡ some r
      → is_terminal r.state ≡ true
      → (s : JobRow) × (find job_id j db'.jobs ≡ some s)
        × (s.state ≡ r.state)
        × (s.version ≡ r.version)
        × (s.attempt ≡ r.attempt)
  History-is_terminal h j r found end =
      let (s, there, path) = History-RowPath lib h j r found in
      let (a, b, c) = RowPath-IsFinal r s end path in (s, there, a, b, c)

  -- A stored job is there after any sequence of transactions, with no fewer attempts, and with
  -- the same version and state or a higher version.
  pub History-version :
      {db db' : Database}
      → History lib db db'
      → (j : String) (r : JobRow) → find job_id j db.jobs ≡ some r
      → (s : JobRow) × (find job_id j db'.jobs ≡ some s)
        × (r.attempt ≤ s.attempt)
        × (((s.version ≡ r.version) × (s.state ≡ r.state)) ⊎ (r.version < s.version))
  History-version h j r found =
      let (s, there, path) = History-RowPath lib h j r found in
      let (_, _, v, a, f) = RowPath-Grows r s path in (s, there, a, version_or_state r s v f)
