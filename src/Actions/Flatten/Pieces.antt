-- ===== src/Actions/Flatten/Pieces.antt =====
-- The composition of rows, for the conversions of waddle-core/crates/waddle-types/src/action.rs.
use waddle_sdk.Prelude.{
  ℕ, ◌+◌, ◌≤◌, ◌≡◌, refl, sym, ap, ◌∙◌, false, Option, none, some, List, ◌++◌, String, ◌==◌, eq_iff,
  length, length-append, append_assoc, arith, Bool-cases, inl, inr,
}
use waddle_sdk.Actions.Errors.{ok}
use waddle_sdk.Actions.Space.{Chunking, GripperKind, SpaceSpec, ActionSpace, Parts, plus}
use waddle_sdk.Actions.Message.{Target, ActionField, PartActions}
use waddle_sdk.Actions.Flatten.{
  is_declared, undeclared, find_action, flatten_target, flatten_spec, flatten_parts, bare,
  unflatten_target, unflatten_spec, unflatten_parts,
}

unfoldable pub value_or : ℕ → Option ℕ → ℕ
value_or d none = d
value_or d (some n) = n

pub plus-parts :
    (a b : Option ℕ) (n : ℕ)
    → plus a b ≡ some n
    → (k : ℕ) × (m : ℕ) × (a ≡ some k) × (b ≡ some m) × (k + m ≡ n)
unfolding value_or
plus-parts none b n h = ground (arith, h)
plus-parts (some k) none n h = ground (arith, h)
plus-parts (some k) (some m) n h = (k, m, refl, refl, ap (value_or 0) h)

flipped : (a b : String) → a == b ≡ false → b == a ≡ false
flipped a b h = elim (Bool-cases (b == a)) [
  | inl e ↦ ground (arith, h, (eq_iff a b).1 (sym ((eq_iff b a).0 e)))
  | inr e ↦ e
]

module _ {F : Type 0} where
  -- A row of `n` values leaves as an action and comes back.
  pub record Returns (space : ActionSpace F) (vs : List F) (n : ℕ) : Type 0 where
    pub target : Target F
    pub rest : List F
    pub row : List F
    pub out : unflatten_target space vs ≡ ok (bare target, rest)
    pub back : flatten_target space (bare target) ≡ ok row
    pub whole : row ++ rest ≡ vs
    pub width : length row ≡ n

  pub record SpecReturns (spec : SpaceSpec F) (vs : List F) (n : ℕ) : Type 0 where
    pub sent : Target F
    pub rest : List F
    pub row : List F
    pub out : unflatten_spec spec vs ≡ ok (sent, rest)
    pub back : flatten_spec spec sent ≡ ok row
    pub whole : row ++ rest ≡ vs
    pub width : length row ≡ n

  pub record PartsReturn (parts : Parts F) (vs : List F) (n : ℕ) : Type 0 where
    pub sent : PartActions F
    pub rest : List F
    pub row : List F
    pub out : unflatten_parts parts vs ≡ ok (sent, rest)
    pub known : undeclared parts sent ≡ none
    pub back : flatten_parts parts sent ≡ ok row
    pub whole : row ++ rest ≡ vs
    pub width : length row ≡ n

  -- A name that the space does not declare is never looked up.
  flatten_parts-skip :
      (name : String) (field : ActionField F) (parts : Parts F) (actions : PartActions F)
      → is_declared name parts ≡ false
      → flatten_parts parts (PartActions.part_action name field actions)
        ≡ flatten_parts parts actions
  unfolding flatten_parts is_declared find_action
  flatten_parts-skip name field Parts.end actions h = refl
  flatten_parts-skip name field (Parts.part n space parts) actions h =
      (let apart : (n == name ≡ false) × (is_declared name parts ≡ false) = ground (arith, h) in
        rw (flipped n name apart.0, flatten_parts-skip name field parts actions apart.1) refl)

  undeclared-part :
      (n : String) (space : ActionSpace F) (parts : Parts F) (actions : PartActions F)
      → undeclared parts actions ≡ none
      → undeclared (Parts.part n space parts) actions ≡ none
  unfolding undeclared is_declared
  undeclared-part n space parts PartActions.end h = refl
  undeclared-part n space parts (PartActions.part_action name field actions) h =
      elim (Bool-cases (is_declared name parts)) [
        | inl e ↦ elim (Bool-cases (n == name)) [
          | inl q ↦ rw q (undeclared-part n space parts actions (rw e at h))
          | inr q ↦ rw (q, e) (undeclared-part n space parts actions (rw e at h))
        ]
        | inr e ↦ (let bad : some name ≡ none = (rw e at h) in ground (arith, bad))
      ]

  pub left_over :
      (row rest vs : List F) (k m n : ℕ)
      → row ++ rest ≡ vs
      → length row ≡ k
      → k + m ≡ n
      → n ≤ length vs
      → m ≤ length rest
  left_over row rest vs k m n whole width sum h =
      omega (arith, ap length whole, length-append row rest, width, sum, h)

  -- The first part's row, then the others'.
  pub joined :
      (name : String) (space : ActionSpace F) (parts : Parts F) (vs : List F) (k m n : ℕ)
      → is_declared name parts ≡ false
      → k + m ≡ n
      → (r : Returns space vs k) → PartsReturn parts r.rest m
      → PartsReturn (Parts.part name space parts) vs n
  unfolding unflatten_parts flatten_parts undeclared find_action is_declared
  joined name space parts vs k m n apart sum r q = record {
    sent = PartActions.part_action name (ActionField.present (bare r.target)) q.sent;
    rest = q.rest;
    row = r.row ++ q.row;
    out = rw (r.out, q.out) refl;
    known = rw ((eq_iff name name).1 refl) (undeclared-part name space parts q.sent q.known);
    back =
        rw
          (
            (eq_iff name name).1 refl,
            r.back,
            flatten_parts-skip name (ActionField.present (bare r.target)) parts q.sent apart,
            q.back,
          )
          refl;
    whole = append_assoc r.row q.row q.rest ∙ ap (λ xs. r.row ++ xs) q.whole ∙ r.whole;
    width = omega (arith, length-append r.row q.row, r.width, q.width, sum);
  }

  pub composed :
      (parts : Parts F) (vs : List F) (n : ℕ)
      → PartsReturn parts vs n
      → SpecReturns (SpaceSpec.composite parts) vs n
  unfolding unflatten_spec flatten_spec
  composed parts vs n q = record {
    sent = Target.composite q.sent;
    rest = q.rest;
    row = q.row;
    out = rw (q.out) refl;
    back = rw (q.known) (q.back);
    whole = q.whole;
    width = q.width;
  }

  pub wrapped :
      (spec : SpaceSpec F) (rate_hz : F) (chunking : Chunking) (gripper : Option (GripperKind F))
      (vs : List F) (n : ℕ)
      → SpecReturns spec vs n
      → Returns (ActionSpace.action_space spec rate_hz chunking gripper) vs n
  unfolding unflatten_target flatten_target
  wrapped spec rate_hz chunking gripper vs n s = record {
    target = s.sent;
    rest = s.rest;
    row = s.row;
    out = rw (s.out) refl;
    back = s.back;
    whole = s.whole;
    width = s.width;
  }
