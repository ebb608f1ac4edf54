-- ===== src/Api/Polli/Gateway.antt =====
-- What the gateway's guards give: an allowlisted read-only tool, an audit before every handler.
use honor.Common.{
  ℕ, String, ◌≡◌, ◌⊎◌, inl, inr, refl, subst, Bool, true, false, not, List, [], ◌∷◌, Option, none,
  some, eqb, length, All, Result, ok, err, >>=-eq-ok, ok-injective, raise_if, if◌then◌else◌,
  Bool-cases, arith,
}
use honor.Common.Table.{find, find-key}
use honor.Common.Platform.{Platform}
use honor.Api.Polli.{
  Tool, PolliError, not_read_only, wrong_tool_count, tool_name, check_read_only, registry_of, Entry,
  entry_key, PolliGateway, Effect, limit_checked, audited, handled, Validator, Limiter, handle,
  admitted, dispatch, call,
}

-- The traces that a call can have.
abbrev pub IsGuarded : String → String → String → String → List Effect → Type 0
IsGuarded name args owner_id request_id effects =
    (effects ≡ [])
    ⊎ ((effects ≡ limit_checked owner_id name ∷ [])
        ⊎ ((effects ≡ limit_checked owner_id name ∷ audited owner_id name request_id ∷ [])
            ⊎ (effects
                ≡ limit_checked owner_id name
                  ∷ audited owner_id name request_id
                  ∷ handled name args
                  ∷ [])))

-- A call that returns: it was let through, and its trace is the whole one.
abbrev pub IsFull : Limiter → String → String → String → String → List Effect → Type 0
IsFull limiter name args owner_id request_id effects =
    (limiter owner_id name ≡ true)
    × (effects
        ≡ limit_checked owner_id name ∷ audited owner_id name request_id ∷ handled name args ∷ [])

module _ (valid : Validator) where
  handle-effects :
      (tool : Tool) (args : String) (o : Option Entry)
      → ((handle valid tool args o).1 ≡ [])
        ⊎ ((handle valid tool args o).1 ≡ handled tool.name args ∷ [])
  unfolding handle
  handle-effects tool args none = inl refl
  handle-effects tool args (some e) = inr refl

  admitted-IsGuarded :
      (limiter : Limiter) (g : PolliGateway) (tool : Tool) (args owner_id request_id : String)
      → IsGuarded tool.name args owner_id request_id
          (admitted valid limiter g tool args owner_id request_id).1
  unfolding admitted
  admitted-IsGuarded limiter g tool args owner_id request_id =
      elim (Bool-cases (limiter owner_id tool.name)) [
        | inr miss ↦ rw miss (inr (inl refl))
        | inl hit ↦ elim (handle-effects tool args (find entry_key tool.name g.handlers)) [
          | inl e ↦ rw (hit, e) (inr (inr (inl refl)))
          | inr e ↦ rw (hit, e) (inr (inr (inr refl)))
        ]
      ]

  dispatch-IsGuarded :
      (limiter : Limiter) (g : PolliGateway) (name args owner_id request_id : String)
      (o : Option Tool)
      → ((t : Tool) → o ≡ some t → t.name ≡ name)
      → IsGuarded name args owner_id request_id
          (dispatch valid limiter g args owner_id request_id o).1
  unfolding dispatch
  dispatch-IsGuarded limiter g name args owner_id request_id none named = inl refl
  dispatch-IsGuarded limiter g name args owner_id request_id (some tool) named =
      elim (Bool-cases (valid tool.arguments_schema args)) [
        | inr miss ↦ rw miss (inl refl)
        | inl hit ↦ rw hit (
            subst
              (λ n.
                IsGuarded n args owner_id request_id
                  (admitted valid limiter g tool args owner_id request_id).1)
              (named tool refl) (admitted-IsGuarded limiter g tool args owner_id request_id))
      ]

  if-IsGuarded :
      (b : Bool) (name args owner_id request_id : String)
      (p : Result PolliError String × List Effect) (e : PolliError)
      → IsGuarded name args owner_id request_id p.1
      → IsGuarded name args owner_id request_id (if b then p else (err e, [])).1
  if-IsGuarded true name args owner_id request_id p e h = h
  if-IsGuarded false name args owner_id request_id p e h = inl refl

  -- Whatever the arguments, the effects of a call of the Polli gateway are none, or the check of
  -- the limit, or this and the audit record, or these and the call of the handler of the named
  -- tool.
  pub call-IsGuarded :
      (lib : Platform) (limiter : Limiter) (g : PolliGateway)
      (name args owner_id request_id : String)
      → IsGuarded name args owner_id request_id
          (call valid lib limiter g name args owner_id request_id).1
  unfolding call
  call-IsGuarded lib limiter g name args owner_id request_id =
      if-IsGuarded _ name args owner_id request_id _ _ (
        dispatch-IsGuarded limiter g name args owner_id request_id (find tool_name name g.tools)
          (λ t e. find-key tool_name name g.tools t e))

module _ (valid : Validator) where
  handle-ok :
      (tool : Tool) (args result : String) (o : Option Entry)
      → (handle valid tool args o).0 ≡ ok result
      → (handle valid tool args o).1 ≡ handled tool.name args ∷ []
  unfolding handle
  handle-ok tool args result none h = cc
  handle-ok tool args result (some e) h = refl

  admitted-IsFull :
      (limiter : Limiter) (g : PolliGateway) (tool : Tool)
      (args owner_id request_id result : String)
      → (admitted valid limiter g tool args owner_id request_id).0 ≡ ok result
      → IsFull limiter tool.name args owner_id request_id
          (admitted valid limiter g tool args owner_id request_id).1
  unfolding admitted
  admitted-IsFull limiter g tool args owner_id request_id result h =
      elim (Bool-cases (limiter owner_id tool.name)) [
        | inr miss ↦ absurd (let h' = rw miss at h in cc)
        | inl hit ↦ rw hit (
          refl,
          rw (handle-ok tool args result (find entry_key tool.name g.handlers) (rw hit at h)) refl,
        )
      ]

  dispatch-IsFull :
      (limiter : Limiter) (g : PolliGateway) (name args owner_id request_id result : String)
      (o : Option Tool)
      → ((t : Tool) → o ≡ some t → t.name ≡ name)
      → (dispatch valid limiter g args owner_id request_id o).0 ≡ ok result
      → IsFull limiter name args owner_id request_id
          (dispatch valid limiter g args owner_id request_id o).1
  unfolding dispatch
  dispatch-IsFull limiter g name args owner_id request_id result none named h = cc
  dispatch-IsFull limiter g name args owner_id request_id result (some tool) named h =
      elim (Bool-cases (valid tool.arguments_schema args)) [
        | inr miss ↦ absurd (let h' = rw miss at h in cc)
        | inl hit ↦ rw hit (
            subst
              (λ n.
                IsFull limiter n args owner_id request_id
                  (admitted valid limiter g tool args owner_id request_id).1)
              (named tool refl)
              (admitted-IsFull limiter g tool args owner_id request_id result (rw hit at h)))
      ]

  if-IsFull :
      (b : Bool) (limiter : Limiter) (name args owner_id request_id result : String)
      (p : Result PolliError String × List Effect) (e : PolliError)
      → (p.0 ≡ ok result → IsFull limiter name args owner_id request_id p.1)
      → (if b then p else (err e, [])).0 ≡ ok result
      → IsFull limiter name args owner_id request_id (if b then p else (err e, [])).1
  if-IsFull true limiter name args owner_id request_id result p e full h = full h
  if-IsFull false limiter name args owner_id request_id result p e full h = cc

  -- If a call of the Polli gateway returns a result, then the rate limiter allowed it, and its
  -- effects are the check of the limit, the audit record and the call of the handler, in this
  -- order.
  pub call-IsFull :
      (lib : Platform) (limiter : Limiter) (g : PolliGateway)
      (name args owner_id request_id result : String)
      → (call valid lib limiter g name args owner_id request_id).0 ≡ ok result
      → IsFull limiter name args owner_id request_id
          (call valid lib limiter g name args owner_id request_id).1
  unfolding call
  call-IsFull lib limiter g name args owner_id request_id result h =
      if-IsFull _ limiter name args owner_id request_id result _ _
        (dispatch-IsFull limiter g name args owner_id request_id result
          (find tool_name name g.tools) (λ t e. find-key tool_name name g.tools t e))
        h

twelve : (n : ℕ) → raise_if (not (eqb n 12)) wrong_tool_count ≡ ok tt → n ≡ 12
twelve n h = ground arith

read_only_entry :
    (b : Bool) (name : String) → raise_if (not b) (not_read_only name) ≡ ok tt → b ≡ true
read_only_entry true name h = refl
read_only_entry false name h = cc

read_only_tools :
    (ts : List Tool) → check_read_only ts ≡ ok tt → All (λ (t : Tool). t.read_only ≡ true) ts
unfolding check_read_only
read_only_tools [] h = tt
read_only_tools (t ∷ ts) h =
    let (_, first, rest) = >>=-eq-ok (raise_if (not t.read_only) (not_read_only t.name)) _ h in
    (read_only_entry t.read_only t.name first, read_only_tools ts rest)

-- A registry that `PolliRegistry` accepts has twelve tools, all of them read-only.
pub registry_of-read_only :
    (tools registry : List Tool)
    → registry_of tools ≡ ok registry
    → (length registry ≡ 12) × All (λ (t : Tool). t.read_only ≡ true) registry
unfolding registry_of
registry_of-read_only tools registry h =
    let (_, counted, h₁) =
      >>=-eq-ok (raise_if (not (eqb (length tools) 12)) wrong_tool_count) _ h in
    let (_, checked, h₂) = >>=-eq-ok (check_read_only tools) _ h₁ in
    subst (λ ts. (length ts ≡ 12) × All (λ (t : Tool). t.read_only ≡ true) ts) (ok-injective h₂)
      (twelve (length tools) counted, read_only_tools tools checked)
