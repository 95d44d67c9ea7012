-- ===== src/Security/Rbac/Decisions.antt =====
-- What `Evaluate` allows.
use agent_state_storage.Base.{ℕ, ◌≡◌, Bool, true, false, ◌↔◌, ◌⊎◌, arith}
use agent_state_storage.Security.Rbac.{
  Action, looks_up, reserves, publishes, fetches, seals, releases, admin_reads, admin_writes,
  cluster_admin, tenant, admin, internal, allow, Identity, is_eligible, is_data_op, is_write,
  evaluate,
}

-- The actions on a tenant's data, and those of an administrator, as rbac.cpp lists them.
abbrev pub IsOnData : Action → Type 0
IsOnData a =
    (a ≡ looks_up) ⊎ (a ≡ reserves) ⊎ (a ≡ publishes) ⊎ (a ≡ fetches) ⊎ (a ≡ seals) ⊎ (a ≡ releases)

abbrev pub IsAdministrative : Action → Type 0
IsAdministrative a = (a ≡ admin_reads) ⊎ (a ≡ admin_writes) ⊎ (a ≡ cluster_admin)

-- The actions that a tenant whose deletion is pending no longer accepts.
abbrev pub IsWriting : Action → Type 0
IsWriting a = (a ≡ reserves) ⊎ (a ≡ publishes) ⊎ (a ≡ seals)

-- A tenant's principal may do the data operations on that tenant, a service those on any tenant, an
-- administrator the administrative ones.
abbrev pub IsPermitted : Identity → Action → ℕ → Type 0
IsPermitted p a t =
    ((p.kind ≡ tenant) × IsOnData a × (t ≡ p.tenant_hash))
    ⊎ ((p.kind ≡ internal) × IsOnData a)
    ⊎ ((p.kind ≡ admin) × IsAdministrative a)

is_data_op_iff : (a : Action) → (is_data_op a ≡ true) ↔ IsOnData a
unfolding is_data_op
is_data_op_iff a = ground arith

is_admin_op_iff : (a : Action) → (is_data_op a ≡ false) ↔ IsAdministrative a
unfolding is_data_op
is_admin_op_iff a = ground arith

is_write_iff : (a : Action) → (is_write a ≡ true) ↔ IsWriting a
unfolding is_write
is_write_iff a = ground arith

-- `Evaluate` in terms of the code's two tables.
evaluate_by_tables :
    (p : Identity) (a : Action) (t : ℕ) (d : Bool)
    → (evaluate p a t d ≡ allow) ↔ (
        (((p.kind ≡ tenant) × (is_data_op a ≡ true) × (t ≡ p.tenant_hash))
          ⊎ ((p.kind ≡ internal) × (is_data_op a ≡ true))
          ⊎ ((p.kind ≡ admin) × (is_data_op a ≡ false)))
        × ((is_write a ≡ false) ⊎ (d ≡ false)))
unfolding evaluate is_eligible
evaluate_by_tables p a t d = ground arith

-- `Evaluate` allows a request exactly when the peer is a tenant's principal with a data operation on
-- that tenant, a service with a data operation, or an administrator with an administrative operation,
-- and the request is no reservation, publication or seal for a tenant whose deletion is pending.
pub evaluate_iff :
    (p : Identity) (a : Action) (t : ℕ) (d : Bool)
    → (evaluate p a t d ≡ allow) ↔ (IsPermitted p a t × ((¬ IsWriting a) ⊎ (d ≡ false)))
evaluate_iff p a t d =
    let e = evaluate_by_tables p a t d in
    let data_op = is_data_op_iff a in
    let admin_op = is_admin_op_iff a in let write = is_write_iff a in ground arith
