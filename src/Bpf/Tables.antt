-- ===== src/Bpf/Tables.antt =====
-- The kernel's hash maps, as bpf-helpers(7) and bpf(2) describe them.
use embedshim.Prelude.{
  ℕ, ◌<◌, ◌≡◌, ◌≢◌, ◌∙◌, Option, none, some, ◌==◌, if◌then◌else◌, refl, arith, Option-cases,
  Bool-cases, inl, inr, ◌⊎◌,
}

pub record BpfMap (V : Type 0) (max_entries : ℕ) : Type 1 where
  pub Table : Type 0
  pub find : Table → ℕ → Option V
  -- an update with BPF_NOEXIST; `none` is a refusal
  pub add : Table → ℕ → V → Option Table
  pub remove : Table → ℕ → Table
  pub count : Table → ℕ
  -- EEXIST
  pub add_absent : (t : Table) (k : ℕ) (v : V) {u : Table} → add t k v ≡ some u → find t k ≡ none
  pub find-add :
      (t : Table) (k : ℕ) (v : V) {u : Table} (j : ℕ)
      → add t k v ≡ some u
      → find u j ≡ (if k == j then some v else find t j)
  -- E2BIG is the only other refusal
  pub add_room :
      (t : Table) (k : ℕ) (v : V)
      → find t k ≡ none
      → count t < max_entries
      → (u : Table) × (add t k v ≡ some u)
  pub find-remove :
      (t : Table) (k j : ℕ) → find (remove t k) j ≡ (if k == j then none else find t j)

abbrev pub or_same : {A : Type 0} → Option A → A → A
or_same none a = a
or_same (some b) a = b

-- an insertion that may be refused
module _ {V : Type 0} {size : ℕ} (m : BpfMap V size) (t : m.Table) (k : ℕ) (v : V) where
  pub find-or_same_ne : (j : ℕ) → k ≢ j → m.find (or_same (m.add t k v) t) j ≡ m.find t j
  find-or_same_ne j h = elim (Option-cases (m.add t k v)) [
    | inl e ↦ rw e refl
    | inr (u, e) ↦ rw e (m.find-add t k v j e ∙ ground arith)
  ]

  pub find-or_same_kept :
      (j : ℕ) {x : V} → m.find t j ≡ some x → m.find (or_same (m.add t k v) t) j ≡ some x
  find-or_same_kept j h = elim (Option-cases (m.add t k v)) [
    | inl e ↦ rw e h
    | inr (u, e) ↦ rw e (ground (arith, m.find-add t k v j e, m.add_absent t k v e))
  ]

  pub find-or_same_room :
      m.find t k ≡ none → m.count t < size → m.find (or_same (m.add t k v) t) k ≡ some v
  find-or_same_room h r =
      let (u, e) = m.add_room t k v h r in rw e (ground (arith, m.find-add t k v k e))

  inserted :
      (j : ℕ) {u : m.Table} {x : V}
      → m.add t k v ≡ some u
      → m.find u j ≡ some x
      → (m.find t j ≡ some x) ⊎ ((k ≡ j) × (v ≡ x))
  inserted j {x} e h = elim (Bool-cases (k == j)) [
    | inl s ↦ inr (ground arith, ground (arith, m.find-add t k v j e))
    | inr s ↦ inl (ground (arith, m.find-add t k v j e))
  ]

  -- a row that is found was there, or is the one that was inserted
  pub find-or_same_cases :
      (j : ℕ) {x : V}
      → m.find (or_same (m.add t k v) t) j ≡ some x
      → (m.find t j ≡ some x) ⊎ ((k ≡ j) × (v ≡ x))
  find-or_same_cases j h = elim (Option-cases (m.add t k v)) [
    | inl e ↦ inl (rw e at h)
    | inr (u, e) ↦ inserted j e (rw e at h)
  ]
