-- ===== src/Worker/Reconciler/Requeue.antt =====
-- The updates of the rows that are selected for another attempt, and the messages for them.
use honor.Common.{
  ℕ, String, ◌≡◌, inl, inr, refl, ap, ◌∙◌, subst, List, [], ◌∷◌, ◌++◌, Option, none, some,
  Bool-cases, ◌==◌, eq_iff, if◌then◌else◌,
}
use mathlib.Core.Option
use honor.Common.Table.{find, find-key, find-update}
use honor.Jobs.{JobRow, Database, job_id}
use honor.Worker.Reconciler.{Message, is_retrying, requeued, requeue_row, requeue_all}
use honor.Worker.Reconciler.Selection.{has}

-- The row after its update, which passes over a row that does not wait for a retry.
abbrev pub promoted : ℕ → JobRow → JobRow
promoted now r = if is_retrying r.state then requeued now r else r

promoted_twice : (now : ℕ) (r : JobRow) → promoted now (promoted now r) ≡ promoted now r
unfolding requeued is_retrying
promoted_twice now r = elim (Bool-cases (is_retrying r.state)) [
  | inl waits ↦ rw waits refl
  | inr other ↦ rw (other, other) refl
]

requeued-id : (now : ℕ) (r : JobRow) → (requeued now r).id ≡ r.id
unfolding requeued
requeued-id now r = refl

requeue_row-find :
    (now : ℕ) (id k : String) (db : Database) (o : Option JobRow)
    → find job_id id db.jobs ≡ o
    → find job_id k (requeue_row now db o).1.jobs ≡ (
        if id == k
        then Option.map (promoted now) (find job_id k db.jobs)
        else find job_id k db.jobs)
unfolding requeue_row
requeue_row-find now id k db none found = elim (Bool-cases (id == k)) [
  | inr miss ↦ rw miss refl
  | inl hit ↦
      rw hit (rw (subst (λ j. find job_id j db.jobs ≡ none) ((eq_iff id k).0 hit) found) refl)
]
requeue_row-find now id k db (some r) found =
    let moved = find-update job_id r.id k (requeued now) (requeued-id now) db.jobs in
    let at : r.id ≡ id = find-key job_id id db.jobs r found in
    elim (Bool-cases (id == k)) [
      | inr miss ↦ elim (Bool-cases (is_retrying r.state)) [
        | inl waits ↦ rw waits (moved ∙ rw at (rw miss refl))
        | inr other ↦ rw (other, miss) refl
      ]
      | inl hit ↦
          let here : find job_id k db.jobs ≡ some r =
            subst (λ j. find job_id j db.jobs ≡ some r) ((eq_iff id k).0 hit) found in
          elim (Bool-cases (is_retrying r.state)) [
            | inl waits ↦ rw waits (moved ∙ rw at (rw hit (rw here (rw waits refl))))
            | inr other ↦ rw (other, hit) (rw here (rw other refl))
          ]
    ]

map-map :
    (now : ℕ) (o : Option JobRow)
    → Option.map (promoted now) (Option.map (promoted now) o) ≡ Option.map (promoted now) o
map-map now none = refl
map-map now (some r) = ap some (promoted_twice now r)

pub requeue_all-find :
    (now : ℕ) (k : String) (js : List String) (db : Database)
    → find job_id k (requeue_all now js db).1.jobs ≡ (
        if has k js
        then Option.map (promoted now) (find job_id k db.jobs)
        else find job_id k db.jobs)
unfolding has requeue_all
requeue_all-find now k [] db = refl
requeue_all-find now k (id ∷ js) db =
    let moved = requeue_row-find now id k db _ refl in
    let rest = requeue_all-find now k js (requeue_row now db (find job_id id db.jobs)).1 in
    rest
    ∙ rw moved (elim (Bool-cases (id == k)) [
      | inr miss ↦ rw miss refl
      | inl hit ↦ elim (Bool-cases (has k js)) [
        | inl again ↦ rw (hit, again) (map-map now _)
        | inr once ↦ rw (hit, once) refl
      ]
    ])

-- The tokens that the messages carry for a job.
unfoldable pub tokens_for : String → List Message → List String
tokens_for k [] = []
tokens_for k ((id, token) ∷ ms) = if id == k then token ∷ tokens_for k ms else tokens_for k ms

tokens_for-++ :
    (k : String) (ms ns : List Message)
    → tokens_for k (ms ++ ns) ≡ tokens_for k ms ++ tokens_for k ns
unfolding tokens_for
tokens_for-++ k [] ns = refl
tokens_for-++ k ((id, token) ∷ ms) ns = elim (Bool-cases (id == k)) [
  | inl hit ↦ rw hit (ap (λ ts. token ∷ ts) (tokens_for-++ k ms ns))
  | inr miss ↦ rw miss (tokens_for-++ k ms ns)
]

-- The token of a row that waits for a retry.
unfoldable pub waiting_tokens : Option JobRow → List String
waiting_tokens none = []
waiting_tokens (some r) = if is_retrying r.state then r.dispatch_token ∷ [] else []

waiting_tokens-promoted :
    (now : ℕ) (o : Option JobRow) → waiting_tokens (Option.map (promoted now) o) ≡ []
unfolding waiting_tokens requeued is_retrying
waiting_tokens-promoted now none = refl
waiting_tokens-promoted now (some r) = elim (Bool-cases (is_retrying r.state)) [
  | inl waits ↦ rw waits refl
  | inr other ↦ rw (other, other) refl
]

waiting_tokens-nil : (o : Option JobRow) → waiting_tokens o ++ [] ≡ waiting_tokens o
unfolding waiting_tokens
waiting_tokens-nil none = refl
waiting_tokens-nil (some r) = elim (Bool-cases (is_retrying r.state)) [
  | inl waits ↦ rw waits refl
  | inr other ↦ rw other refl
]

requeue_row-tokens :
    (now : ℕ) (id k : String) (db : Database) (o : Option JobRow)
    → find job_id id db.jobs ≡ o
    → tokens_for k (requeue_row now db o).0 ≡ (if id == k then waiting_tokens o else [])
unfolding requeue_row tokens_for waiting_tokens
requeue_row-tokens now id k db none found = elim (Bool-cases (id == k)) [
  | inl hit ↦ rw hit refl
  | inr miss ↦ rw miss refl
]
requeue_row-tokens now id k db (some r) found =
    let at : r.id ≡ id = find-key job_id id db.jobs r found in
    elim (Bool-cases (id == k)) [
      | inl hit ↦ elim (Bool-cases (is_retrying r.state)) [
        | inl waits ↦ rw waits (rw at (rw hit refl))
        | inr other ↦ rw (other, hit) refl
      ]
      | inr miss ↦ elim (Bool-cases (is_retrying r.state)) [
        | inl waits ↦ rw waits (rw at (rw miss refl))
        | inr other ↦ rw (other, miss) refl
      ]
    ]

pub requeue_all-tokens :
    (now : ℕ) (k : String) (js : List String) (db : Database)
    → tokens_for k (requeue_all now js db).0
      ≡ (if has k js then waiting_tokens (find job_id k db.jobs) else [])
unfolding has requeue_all
requeue_all-tokens now k [] db = unfold tokens_for in refl
requeue_all-tokens now k (id ∷ js) db =
    let first = requeue_row now db (find job_id id db.jobs) in
    let moved = requeue_row-find now id k db _ refl in
    tokens_for-++ k first.0 (requeue_all now js first.1).0
    ∙ rw (requeue_row-tokens now id k db _ refl, requeue_all-tokens now k js first.1, moved)
        (elim (Bool-cases (id == k)) [
          | inr miss ↦ rw miss refl
          | inl hit ↦
              let same : find job_id id db.jobs ≡ find job_id k db.jobs =
                ap (λ j. find job_id j db.jobs) ((eq_iff id k).0 hit) in
              elim (Bool-cases (has k js)) [
                | inl again ↦
                    rw (hit, again)
                      (rw (waiting_tokens-promoted now _)
                        (waiting_tokens-nil _ ∙ ap waiting_tokens same))
                | inr once ↦ rw (hit, once) (waiting_tokens-nil _ ∙ ap waiting_tokens same)
              ]
        ])
