-- ===== src/Access/Grants/Forgotten.antt =====
-- bulk_assign_global_role writes the resolved role and no source: what a reconcile makes of that.
use orbita_backend.Prelude.{
  ◌≡◌, refl, sym, ◌∙◌, Bool-cases, inl, inr, ◌==◌, number_comparable, delete, List, [], ◌∷◌, ◌++◌,
  arith, Option, none, some, is_empty,
}
use orbita_backend.Data.{Db, Uuid, GlobalRole, UserGlobalRole}
use orbita_backend.Exec.{run}
use orbita_backend.Access.Sources.{reconciled, replace_roles}
use orbita_backend.Access.Grants.{bulk_assign_global_role, existing}
use orbita_backend.Apps.Policy.{role_names, global_names}

names_deleted :
    (v : Uuid) (roles : List GlobalRole) (rows more : List UserGlobalRole)
    → global_names v roles (delete (λ r. r.user_id == v) rows ++ more) ≡ global_names v roles more
names_deleted v roles [] more = refl
names_deleted v roles (r ∷ rows) more = ground (arith, names_deleted v roles rows more)

-- the roles of a user after a replacement do not depend on the rows before it
names_replaced :
    (v : Uuid) (roles : List GlobalRole) (o : Option Uuid) (rows others : List UserGlobalRole)
    → global_names v roles (replace_roles v o rows)
      ≡ global_names v roles (replace_roles v o others)
names_replaced v roles none [] [] = refl
names_replaced v roles none [] (r ∷ others) = ground (arith, names_replaced v roles none [] others)
names_replaced v roles none (r ∷ rows) others =
    ground (arith, names_replaced v roles none rows others)
names_replaced v roles (some k) rows others =
    let one = record { user_id = v; global_role_id = k } ∷ [] in
    names_deleted v roles rows one ∙ sym (names_deleted v roles others one)

-- After a bulk assignment of any role to any users, the reconcile of a user gives the roles that it
-- would have given without the assignment.
pub bulk_assign-reconciled :
    (user_ids : List Uuid) (role_id v : Uuid) (db : Db)
    → role_names v (reconciled v (run (bulk_assign_global_role user_ids role_id) db).1)
      ≡ role_names v (reconciled v db)
unfolding bulk_assign_global_role
bulk_assign-reconciled user_ids role_id v db = elim (Bool-cases (is_empty user_ids)) [
  | inl nobody ↦ rw nobody refl
  | inr somebody ↦ rw somebody (elim (Bool-cases (is_empty (existing user_ids db))) [
    | inl unknown ↦ rw unknown refl
    | inr known ↦ rw known (names_replaced v db.global_roles _ _ db.user_global_roles)
  ])
]
