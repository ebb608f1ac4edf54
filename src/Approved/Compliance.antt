-- ===== src/Approved/Compliance.antt =====
-- Exactly one compliant record for each active clause, and no other.
use honor.Common.{
  true-ne-false, ℕ, suc, ◌≤◌, String, ◌≡◌, ◌≢◌, ◌↔◌, inl, inr, refl, sym, ap, ◌∙◌, subst, Bool,
  true, false, List, [], ◌∷◌, all, length, leb, eqb, All, ◌==◌, eq_iff, eqb_iff, Bool-cases,
  and_left, and_right, if_then, if_else, arith,
}
use mathlib.Core.List.{Perm}
use mathlib.Core.List.Perm
use honor.Approved.{
  Clause, ComplianceCase, same_clause, count, subset, clauses_of, compliance_cardinality_valid,
}

unfoldable code_of : Clause → String
code_of (a, b, c) = a

unfoldable effect_of : Clause → String
effect_of (a, b, c) = b

unfoldable scope_of : Clause → String
scope_of (a, b, c) = c

same_clause_iff : (t u : Clause) → (same_clause t u ≡ true) ↔ (t ≡ u)
unfolding same_clause code_of effect_of scope_of
same_clause_iff (a, b, c) (d, e, f) = (
  λ h. equal (and_left _ _ h) (and_left _ _ (and_right _ _ h)) (and_right _ _ (and_right _ _ h)),
  λ h.
      rw
        (
          (eq_iff a d).1 (ap code_of h),
          (eq_iff b e).1 (ap effect_of h),
          (eq_iff c f).1 (ap scope_of h),
        )
        refl,
)
  where
    equal : a == d ≡ true → b == e ≡ true → c == f ≡ true → ◌≡◌ {A = Clause} (a, b, c) (d, e, f)
    equal x y z = rw ((eq_iff a d).0 x, (eq_iff b e).0 y, (eq_iff c f).0 z) refl

same_clause-swap : (t u : Clause) → same_clause t u ≡ false → same_clause u t ≡ false
same_clause-swap t u h = elim (Bool-cases (same_clause u t)) [
  | inl hit ↦
      absurd (true-ne-false (sym ((same_clause_iff t u).1 (sym ((same_clause_iff u t).0 hit))) ∙ h))
  | inr miss ↦ miss
]

none_there : leb 1 0 ≢ true
none_there e = ground arith

count-hit :
    (t u : Clause) (us : List Clause) → same_clause u t ≡ true → count t (u ∷ us) ≡ suc (count t us)
unfolding count
count-hit t u us h = if_then _ _ _ h

count-miss :
    (t u : Clause) (us : List Clause) → same_clause u t ≡ false → count t (u ∷ us) ≡ count t us
unfolding count
count-miss t u us h = if_else _ _ _ h

no_count : (t : Clause) → count t [] ≡ 0
unfolding count
no_count t = refl

count-le : (t u : Clause) (us : List Clause) → count t us ≤ count t (u ∷ us)
count-le t u us = elim (Bool-cases (same_clause u t)) [
  | inl hit ↦ rw (count-hit t u us hit) (omega arith)
  | inr miss ↦ rw (count-miss t u us miss) (omega arith)
]

-- A list without one of its clauses.
record Without (t : Clause) (us : List Clause) : Type 0 where
  rest : List Clause
  permuted : Perm us (t ∷ rest)
  shorter : length us ≡ suc (length rest)
  others : (v : Clause) → same_clause t v ≡ false → count v us ≡ count v rest

extracted : (t : Clause) (us : List Clause) → leb 1 (count t us) ≡ true → Without t us
extracted t [] h = absurd (none_there (ap (leb 1) (sym (no_count t)) ∙ h))
extracted t (u ∷ us) h = elim (Bool-cases (same_clause u t)) [
  | inl hit ↦
      let same : u ≡ t = (same_clause_iff u t).0 hit in
      record {
        rest = us;
        permuted = subst (λ v. Perm (u ∷ us) (v ∷ us)) same (Perm.refl (u ∷ us));
        shorter = refl;
        others = λ v other. count-miss v u us (ap (λ w. same_clause w v) same ∙ other);
      }
  | inr miss ↦
      let found = extracted t us (ap (leb 1) (sym (count-miss t u us miss)) ∙ h) in
      record {
        rest = u ∷ found.rest;
        permuted = Perm.trans (Perm.cons u found.permuted) (Perm.swap t u found.rest);
        shorter = ap suc found.shorter;
        others = λ v other. count-also v u us found.rest (found.others v other);
      }
]
  where
    count-also :
        (v u : Clause) (us vs : List Clause)
        → count v us ≡ count v vs
        → count v (u ∷ us) ≡ count v (u ∷ vs)
    count-also v u us vs e = elim (Bool-cases (same_clause u v)) [
      | inl hit ↦ count-hit v u us hit ∙ ap suc e ∙ sym (count-hit v u vs hit)
      | inr miss ↦ count-miss v u us miss ∙ e ∙ sym (count-miss v u vs miss)
    ]

-- No clause twice.
abbrev pub IsDistinct : List Clause → Type 0
IsDistinct [] = Unit
IsDistinct (t ∷ ts) = (count t ts ≡ 0) × IsDistinct ts

-- Every clause of the first is in the second.
abbrev Inside : List Clause → List Clause → Type 0
Inside ts us = All (λ t. leb 1 (count t us) ≡ true) ts

positive-ne-zero : (n : ℕ) → suc n ≢ 0
positive-ne-zero n h = omega arith

Inside-rest :
    (r : Clause) (ts us : List Clause) (w : Without r us)
    → count r ts ≡ 0
    → Inside ts us
    → Inside ts w.rest
Inside-rest r [] us w once h = tt
Inside-rest r (t ∷ ts) us w once h = elim (Bool-cases (same_clause t r)) [
  | inl hit ↦ absurd (positive-ne-zero _ (sym (count-hit r t ts hit) ∙ once))
  | inr miss ↦ (
    ap (leb 1) (sym (w.others t (same_clause-swap t r miss))) ∙ h.0,
    Inside-rest r ts us w (sym (count-miss r t ts miss) ∙ once) h.1,
  )
]

suc_injective : (m n : ℕ) → suc m ≡ suc n → m ≡ n
suc_injective m n h = omega arith

-- Distinct clauses inside a list of the same length are all of it.
pigeonhole :
    (ts us : List Clause) → IsDistinct ts → Inside ts us → length us ≡ length ts → Perm us ts
pigeonhole [] [] d h e = Perm.refl []
pigeonhole [] (u ∷ us) d h e = absurd (positive-ne-zero _ e)
pigeonhole (t ∷ ts) us d h e =
    let w = extracted t us h.0 in
    let shorter = suc_injective _ _ (sym w.shorter ∙ e) in
    Perm.trans w.permuted
      (Perm.cons t (pigeonhole ts w.rest d.1 (Inside-rest t ts us w d.0 h.1) shorter))

earlier :
    (t : Clause) (us vs : List Clause)
    → All (λ v. count v (t ∷ us) ≤ 1) vs
    → All (λ v. count v us ≤ 1) vs
earlier t us [] h = tt
earlier t us (v ∷ vs) h =
    ((let less = count-le v t us in let once = h.0 in omega arith), earlier t us vs h.1)

at_most_once-IsDistinct : (ts : List Clause) → All (λ t. count t ts ≤ 1) ts → IsDistinct ts
at_most_once-IsDistinct [] h = tt
at_most_once-IsDistinct (t ∷ ts) h = (
  (let own = sym (count-hit t t ts ((same_clause_iff t t).1 refl)) in
      let once : suc (count t ts) ≤ 1 = subst (λ n. n ≤ 1) (sym own) h.0 in omega arith),
  at_most_once-IsDistinct ts (earlier t ts ts h.1),
)

-- What holds of each of a list's clauses holds of a clause that is there.
at_clause :
    (f : Clause → Bool) (t : Clause) (us : List Clause)
    → all f us ≡ true
    → leb 1 (count t us) ≡ true
    → f t ≡ true
at_clause f t [] h there = absurd (none_there (ap (leb 1) (sym (no_count t)) ∙ there))
at_clause f t (u ∷ us) h there = elim (Bool-cases (same_clause u t)) [
  | inl hit ↦ ap f (sym ((same_clause_iff u t).0 hit)) ∙ and_left _ _ h
  | inr miss ↦
      at_clause f t us (and_right _ _ h) (ap (leb 1) (sym (count-miss t u us miss)) ∙ there)
]

all-Inside : (ts us : List Clause) → all (λ t. leb 1 (count t us)) ts ≡ true → Inside ts us
all-Inside [] us h = tt
all-Inside (t ∷ ts) us h = (and_left _ _ h, all-Inside ts us (and_right _ _ h))

once-each :
    (act ts us : List Clause)
    → all (λ t. eqb (count t us) 1) act ≡ true
    → Inside ts act
    → All (λ t. count t us ≤ 1) ts
once-each act [] us h a = tt
once-each act (t ∷ ts) us h a = (
  (let once = (eqb_iff (count t us) 1).0 (at_clause (λ v. eqb (count v us) 1) t act h a.0) in
      omega arith),
  once-each act ts us h a.1,
)

compliant-All :
    (rs : List (Clause × String))
    → all (λ r. r.1 == "COMPLIANT") rs ≡ true
    → All (λ r. r.1 ≡ "COMPLIANT") rs
compliant-All [] h = tt
compliant-All (r ∷ rs) h =
    ((eq_iff r.1 "COMPLIANT").0 (and_left _ _ h), compliant-All rs (and_right _ _ h))

-- If the compliance records of a case are valid, their clauses are the active ones, in some order
-- and no clause twice, and every record says that its clause is complied with.
pub compliance_cardinality_valid-Perm :
    (c : ComplianceCase)
    → compliance_cardinality_valid c ≡ true
    → Perm c.active (clauses_of c.records)
      × IsDistinct (clauses_of c.records)
      × All (λ r. r.1 ≡ "COMPLIANT") c.records
unfolding compliance_cardinality_valid subset
compliance_cardinality_valid-Perm c h =
    let recs : List Clause = clauses_of c.records in
    let counted = (eqb_iff (length recs) (length c.active)).0 (and_left _ _ h) in
    let sets = and_left _ _ (and_right _ _ h) in
    let rest = and_right _ _ (and_right _ _ h) in
    let inside : Inside recs c.active = all-Inside recs c.active (and_left _ _ sets) in
    let distinct : IsDistinct recs =
      at_most_once-IsDistinct recs (once-each c.active recs recs (and_left _ _ rest) inside) in
    (
      pigeonhole recs c.active distinct inside (sym counted),
      distinct,
      compliant-All c.records (and_right _ _ rest),
    )
