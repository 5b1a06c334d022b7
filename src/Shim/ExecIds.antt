-- ===== src/Shim/ExecIds.antt =====
-- The IDs of exec processes under concurrent calls of Exec. Each locked section of the shim is a
-- step; between two sections of one call any other call may run.
use embedshim.Prelude.{
  ℕ, String, Bool, true, false, none, some, List, [], ◌∷◌, ◌≡◌, refl, sym, subst, arith, named,
  name, unname, named-name, named-unname, str_eq, eq_iff, if◌then◌else◌, Bool-cases, inl, inr, ◌⊎◌,
}
use embedshim.Host.{Outcome, ok, err, panic, Log}
use embedshim.Shim.{reserve_exec_id, cancel_exec_id, add_exec_process, delete_exec_process}
use embedshim.Shim.Types.{Shim, fresh_shim}

-- the calls of Exec that are between reserveExecID and addExecProcess or their clean-up, by their IDs,
-- and the shim
pub record Calls : Type 0 where
  pub pending : List String
  pub shim : Shim

abbrev after : {A : Type 0} → Shim → Outcome Shim A → Shim
after s (ok x t l) = t
after s (err e t l) = t
after s (panic m) = s

abbrev granted : Outcome Shim Bool → Bool
granted (ok b t l) = b
granted _ = false

-- one pending call of this ID ends
abbrev finish : String → List String → List String
finish id [] = []
finish id (j ∷ js) = if str_eq j id then js else j ∷ finish id js

abbrev Waits : String → List String → Type 0
Waits id [] = ⊥
Waits id (j ∷ js) = (j ≡ id) ⊎ Waits id js

pub data Step (c : Calls) : Calls → Type 0 where
  -- reserveExecID succeeds
  reserve :
      (id : String) (l : Log)
      → granted (reserve_exec_id id c.shim l) ≡ true
      → Step c
          (record { pending = id ∷ c.pending; shim = after c.shim (reserve_exec_id id c.shim l) })
  -- a pending call fails and cleans up
  cancel :
      (id : String) (l : Log)
      → Waits id c.pending
      → Step c (record {
        pending = finish id c.pending;
        shim = after c.shim (cancel_exec_id id c.shim l);
      })
  -- a pending call succeeds
  add :
      (id : String) (p : ℕ) (l : Log)
      → Waits id c.pending
      → Step c (record {
        pending = finish id c.pending;
        shim = after c.shim (add_exec_process id p c.shim l);
      })
  -- a registered process is deleted
  delete :
      (id : String) (p : ℕ) (l : Log)
      → named c.shim.exec_processes id ≡ some p
      → Step c
          (record { pending = c.pending; shim = after c.shim (delete_exec_process id c.shim l) })

pub data Reach : Calls → Type 0 where
  start : Reach (record { pending = []; shim = fresh_shim })
  next : {c d : Calls} → Reach c → Step c d → Reach d

-- each ID of a pending call is pending once, reserved, and not registered
abbrev pub Exclusive : Shim → List String → Type 0
Exclusive s [] = Unit
Exclusive s (id ∷ ids) =
    (¬ Waits id ids)
    × (named s.reserved id ≡ some tt)
    × (named s.exec_processes id ≡ none)
    × Exclusive s ids

-- every ID that waits is reserved and free in the shim
abbrev Kept : Shim → List String → Type 0
Kept s ids =
    (j : String) → Waits j ids → (named s.reserved j ≡ some tt) × (named s.exec_processes j ≡ none)

Exclusive-Kept : (s : Shim) (ids : List String) → Exclusive s ids → Kept s ids
Exclusive-Kept s [] h j w = elim w [ ]
Exclusive-Kept s (id ∷ ids) (u, r, n, h) j (inl e) = (rw (sym e) r, rw (sym e) n)
Exclusive-Kept s (id ∷ ids) (u, r, n, h) j (inr w) = Exclusive-Kept s ids h j w

Exclusive-move : (s t : Shim) (ids : List String) → Exclusive s ids → Kept t ids → Exclusive t ids
Exclusive-move s t [] h k = tt
Exclusive-move s t (id ∷ ids) (u, r, n, h) k =
    (u, (k id (inl refl)).0, (k id (inl refl)).1, Exclusive-move s t ids h (λ j w. k j (inr w)))

Waits-finish : (id j : String) (ids : List String) → Waits j (finish id ids) → Waits j ids
Waits-finish id j [] w = elim w [ ]
Waits-finish id j (i ∷ ids) w = elim (Bool-cases (str_eq i id)) [
  | inl same ↦ inr (subst (λ b. Waits j (if b then ids else i ∷ finish id ids)) same w)
  | inr other ↦ elim (subst (λ b. Waits j (if b then ids else i ∷ finish id ids)) other w) [
    | inl e ↦ inl e
    | inr v ↦ inr (Waits-finish id j ids v)
  ]
]

finish-Exclusive :
    (s : Shim) (id : String) (ids : List String)
    → Exclusive s ids
    → Exclusive s (finish id ids) × (¬ Waits id (finish id ids))
finish-Exclusive s id [] h = (tt, λ w. w)
finish-Exclusive s id (i ∷ ids) (u, r, n, h) = elim (Bool-cases (str_eq i id)) [
  | inl same ↦ rw same (h, subst (λ k. ¬ Waits k ids) ((eq_iff i id).0 same) u)
  | inr other ↦
      let rest = finish-Exclusive s id ids h in
      rw other (
        (λ w. u (Waits-finish id i ids w), r, n, rest.0),
        λ w. elim w [ inl e ↦ ground (arith, eq_iff i id) | inr v ↦ rest.1 v ],
      )
]

reserve_granted :
    (id : String) (s : Shim) (l : Log)
    → granted (reserve_exec_id id s l) ≡ true
    → (named s.exec_processes id ≡ none)
      × (named s.reserved id ≡ none)
      × (after s (reserve_exec_id id s l) ≡ record s { reserved = name s.reserved id tt })
unfolding reserve_exec_id
reserve_granted id s l g = ground arith

reserved-Kept :
    (s : Shim) (id : String) (ids : List String)
    → Kept s ids
    → named s.exec_processes id ≡ none
    → Kept (record s { reserved = name s.reserved id tt }) (id ∷ ids)
reserved-Kept s id ids k n j (inl e) =
    (ground (arith, named-name s.reserved id j tt, eq_iff id j), rw (sym e) n)
reserved-Kept s id ids k n j (inr w) =
    (ground (arith, named-name s.reserved id j tt, k j w), (k j w).1)

reserve-Exclusive :
    (s : Shim) (id : String) (ids : List String)
    → Exclusive s ids
    → named s.exec_processes id ≡ none
    → named s.reserved id ≡ none
    → Exclusive (record s { reserved = name s.reserved id tt }) (id ∷ ids)
reserve-Exclusive s id ids h n r =
    let t = record s { reserved = name s.reserved id tt } in
    let k = reserved-Kept s id ids (Exclusive-Kept s ids h) n in
    (
      λ w. ground (arith, Exclusive-Kept s ids h id w),
      (k id (inl refl)).0,
      n,
      Exclusive-move s t ids h (λ j w. k j (inr w)),
    )

Waits-apart :
    (id j : String) (ids : List String) → Waits j ids → (¬ Waits id ids) → str_eq id j ≡ false
Waits-apart id j ids w u = elim (Bool-cases (str_eq id j)) [
  | inl same ↦ elim (u (subst (λ k. Waits k ids) (sym ((eq_iff id j).0 same)) w)) [ ]
  | inr other ↦ other
]

cancelled-Kept :
    (s : Shim) (id : String) (ids : List String)
    → Kept s ids
    → (¬ Waits id ids)
    → Kept (record s { reserved = unname s.reserved id }) ids
cancelled-Kept s id ids k u j w =
    (ground (arith, named-unname s.reserved id j, Waits-apart id j ids w u, k j w), (k j w).1)

added-Kept :
    (s : Shim) (id : String) (p : ℕ) (ids : List String)
    → Kept s ids
    → (¬ Waits id ids)
    → Kept
        (record s { reserved = unname s.reserved id; exec_processes = name s.exec_processes id p })
        ids
added-Kept s id p ids k u j w = (
  ground (arith, named-unname s.reserved id j, Waits-apart id j ids w u, k j w),
  ground (arith, named-name s.exec_processes id j p, Waits-apart id j ids w u, k j w),
)

deleted-Kept :
    (s : Shim) (id : String) (p : ℕ) (ids : List String)
    → Kept s ids
    → named s.exec_processes id ≡ some p
    → Kept
        (record s { reserved = unname s.reserved id; exec_processes = unname s.exec_processes id })
        ids
deleted-Kept s id p ids k e j w =
    let a = Waits-apart id j ids w (λ v. ground (arith, k id v)) in
    (
      ground (arith, named-unname s.reserved id j, a, k j w),
      ground (arith, named-unname s.exec_processes id j, a, k j w),
    )

Step-Exclusive : {c d : Calls} → Step c d → Exclusive c.shim c.pending → Exclusive d.shim d.pending
unfolding cancel_exec_id add_exec_process delete_exec_process
Step-Exclusive {c} (reserve id l g) h =
    let r = reserve_granted id c.shim l g in
    subst (λ t. Exclusive t (id ∷ c.pending)) (sym r.2)
      (reserve-Exclusive c.shim id c.pending h r.0 r.1)
Step-Exclusive {c} (cancel id l w) h =
    let r = finish-Exclusive c.shim id c.pending h in
    Exclusive-move c.shim _ _ r.0 (cancelled-Kept c.shim id _ (Exclusive-Kept c.shim _ r.0) r.1)
Step-Exclusive {c} (add id p l w) h =
    let r = finish-Exclusive c.shim id c.pending h in
    Exclusive-move c.shim _ _ r.0 (added-Kept c.shim id p _ (Exclusive-Kept c.shim _ r.0) r.1)
Step-Exclusive {c} (delete id p l e) h =
    Exclusive-move c.shim _ _ h (deleted-Kept c.shim id p _ (Exclusive-Kept c.shim c.pending h) e)

-- However the locked sections of concurrent calls of Exec and of deletions of exec processes
-- interleave, the calls that hold a reservation hold different IDs: each of these IDs is reserved,
-- and none is that of a registered exec process.
pub Reach-Exclusive : {c : Calls} → Reach c → Exclusive c.shim c.pending
Reach-Exclusive start = tt
Reach-Exclusive (next r t) = Step-Exclusive t (Reach-Exclusive r)
