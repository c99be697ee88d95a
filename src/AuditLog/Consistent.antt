-- ===== src/AuditLog/Consistent.antt =====
-- What holds of the tables of the audit log after any sequence of operations.
use tunnelgate.Prelude.{
  refl, ◌<◌, ◌≡◌, ◌∙◌, ◌∷◌, ◌++◌, ◌==◌, if◌then◌else◌, ℕ, suc, Bool, true, Option, List, [], arith,
  if-elim, any, keep, All, All-append, ℕ_eq, elem-append, distinct, ok, AllOk, AllOk-ok, failed,
  passed, Result,
}
use tunnelgate.Text.{Text, text_eq}
use tunnelgate.Text.Sort.{text_leb}
use tunnelgate.MockApi.Store.{Store}
use tunnelgate.Proxy.Services.{ShadowTarget, CreateInput}
use tunnelgate.AuditLog.Types.{AuditRow, ShadowRow, ShadowEntry, Record}
use tunnelgate.AuditLog.Log.{
  AuditTables, ensure_public_ids, is_shadow_of, overwrite, new_shadow, create_shadow, prune_before,
  create, get_by_internal_id, has_public_id,
}
use tunnelgate.AuditLog.Rows.{
  row_ids, HasUniqueKeys, IsRecorded, keep-All, All-mono, not_elem_of_below, distinct-snoc,
  row_ids-append, row_ids-with_public_id, distinct-row_ids-keep, All-row_ids-keep, elem-row_ids,
  HasUniqueKeys-map, All-IsRecorded-map, HasUniqueKeys-snoc, HasUniqueKeys-keep,
}

-- The ids are distinct and below the next one, every shadow belongs to a record that is there, and
-- no two shadows are of one record and one endpoint.
unfoldable pub IsConsistent : AuditTables → Type 0
IsConsistent tables =
    All (λ i. i < tables.next_id) (row_ids tables.audit_logs)
    × (distinct (row_ids tables.audit_logs) ≡ true)
    × All (IsRecorded (row_ids tables.audit_logs)) tables.shadows
    × HasUniqueKeys tables.shadows

abbrev pub empty_tables : AuditTables
empty_tables = record { audit_logs = []; shadows = []; next_id = 1; next_shadow_id = 1 }

-- Filling in public ids changes no id.
ensure_public_ids-IsConsistent :
    (new_id : ℕ → Text) (tables : AuditTables)
    → IsConsistent tables
    → IsConsistent (ensure_public_ids new_id tables)
unfolding IsConsistent ensure_public_ids
ensure_public_ids-IsConsistent new_id tables h =
    rw (row_ids-with_public_id new_id tables.audit_logs) h

prune_before-IsConsistent :
    (tables : AuditTables) (cutoff : Text)
    → IsConsistent tables
    → IsConsistent (prune_before tables cutoff).0
unfolding IsConsistent prune_before
prune_before-IsConsistent tables cutoff (below, unique, recorded, keys) =
    let is_kept : AuditRow → Bool = λ row. text_leb cutoff row.created_at in
    let kept = keep is_kept tables.audit_logs in
    let is_owned : ShadowRow → Bool =
      λ row. any (λ (log : AuditRow). log.id == row.proxy_audit_log_id) kept in
    (
      All-row_ids-keep tables.next_id is_kept tables.audit_logs below,
      distinct-row_ids-keep is_kept tables.audit_logs unique,
      keep-All (IsRecorded (row_ids kept)) is_owned tables.shadows
          (λ row e. elem-row_ids row.proxy_audit_log_id kept ∙ e),
      HasUniqueKeys-keep is_owned tables.shadows keys,
    )

create_shadow-AllOk :
    (tables : AuditTables) (audit_log_id : ℕ) (entry : ShadowEntry) (now : Text)
    → IsConsistent tables
    → AllOk IsConsistent (create_shadow tables audit_log_id entry now)
unfolding IsConsistent create_shadow
create_shadow-AllOk tables audit_log_id entry now (below, unique, recorded, keys) =
    let is_it = is_shadow_of audit_log_id entry.id in
    let write : ShadowRow → ShadowRow = λ row. if is_it row then overwrite entry now row else row in
    let same_log : (row : ShadowRow) → (write row).proxy_audit_log_id ≡ row.proxy_audit_log_id =
      λ row.
        if-elim (λ (r : ShadowRow). r.proxy_audit_log_id ≡ row.proxy_audit_log_id) (is_it row) _ _
          (λ _. refl) (λ _. refl) in
    let same_endpoint : (row : ShadowRow)
        → (write row).shadow_endpoint_id ≡ row.shadow_endpoint_id =
      λ row.
        if-elim (λ (r : ShadowRow). r.shadow_endpoint_id ≡ row.shadow_endpoint_id) (is_it row) _ _
          (λ _. refl) (λ _. refl) in
    let ids = row_ids tables.audit_logs in
    let added = new_shadow tables.next_shadow_id audit_log_id entry now in
    if-elim (AllOk IsConsistent) (any is_it tables.shadows) _ _
      (λ _. passed (
        below,
        unique,
        All-IsRecorded-map write same_log same_endpoint ids tables.shadows recorded,
        HasUniqueKeys-map write same_log same_endpoint tables.shadows keys,
      ))
      (λ new.
        if-elim (AllOk IsConsistent)
          (any (λ (row : AuditRow). row.id == audit_log_id) tables.audit_logs) _ _
          (λ there_is. passed (
            below,
            unique,
            All-append (IsRecorded ids) tables.shadows (added ∷ []) recorded
                (elem-row_ids audit_log_id tables.audit_logs ∙ there_is, tt),
            HasUniqueKeys-snoc tables.shadows added new keys,
          ))
          (λ _. failed))

-- The row that `create` adds.
insert-IsConsistent :
    (tables : AuditTables) (row : AuditRow)
    → row.id ≡ tables.next_id
    → IsConsistent tables
    → IsConsistent
        (record tables { audit_logs = tables.audit_logs ++ row ∷ []; next_id = suc tables.next_id })
unfolding IsConsistent
insert-IsConsistent tables row e (below, unique, recorded, keys) =
    let ids = row_ids tables.audit_logs in
    rw (row_ids-append tables.audit_logs (row ∷ [])) (
      All-append _ ids (row.id ∷ []) (All-mono _ ids (λ i lt. omega arith) below)
          (omega (arith, e), tt),
      distinct-snoc row.id ids (not_elem_of_below row.id ids (rw e below)) unique,
      All-mono _ tables.shadows
          (λ s h. elem-append s.proxy_audit_log_id ids (row.id ∷ []) ∙ ground (arith, h)) recorded,
      keys,
    )

-- One operation: a run of `create`, whose result is read back with the public ids filled in unless
-- the public id is taken, a run
-- of `create_shadow` that succeeds, a run of `prune_before`, or a read, which fills in public ids.
module _ (new_id : ℕ → Text) where
  pub data Step : AuditTables → AuditTables → Type 0 where
    created :
        (tables : AuditTables) (itoa : ℕ → Text)
        (unmarshal_targets : Text → Option (List ShadowTarget))
        (marshal_targets : List ShadowTarget → Text) (specs : Store) (input : CreateInput)
        (public_id now : Text)
        → Step tables
            (create itoa unmarshal_targets new_id specs marshal_targets tables input public_id
              now).0
    shadowed :
        {later : AuditTables} (tables : AuditTables) (audit_log_id : ℕ) (entry : ShadowEntry)
        (now : Text)
        → create_shadow tables audit_log_id entry now ≡ ok later
        → Step tables later
    pruned : (tables : AuditTables) (cutoff : Text) → Step tables (prune_before tables cutoff).0
    read : (tables : AuditTables) → Step tables (ensure_public_ids new_id tables)

  pub data Reachable : AuditTables → Type 0 where
    at_start : Reachable empty_tables
    after : {tables later : AuditTables} → Reachable tables → Step tables later → Reachable later

  Step-IsConsistent :
      {tables later : AuditTables} → Step tables later → IsConsistent tables → IsConsistent later
  unfolding create get_by_internal_id
  Step-IsConsistent
        (created tables itoa unmarshal_targets marshal_targets specs input public_id now) h =
      if-elim (λ (r : AuditTables × Result Record). IsConsistent r.0)
        (any (has_public_id public_id) tables.audit_logs) _ _ (λ _. h)
        (λ _. ensure_public_ids-IsConsistent new_id _ (insert-IsConsistent tables _ refl h))
  Step-IsConsistent (shadowed tables audit_log_id entry now e) h =
      AllOk-ok IsConsistent e (create_shadow-AllOk tables audit_log_id entry now h)
  Step-IsConsistent (pruned tables cutoff) h = prune_before-IsConsistent tables cutoff h
  Step-IsConsistent (read tables) h = ensure_public_ids-IsConsistent new_id tables h

  -- After any sequence of operations from the empty tables the ids of the records are distinct and
  -- below the next one, every shadow belongs to a record that is there, and no two shadows are of
  -- one record and one endpoint.
  pub Reachable-IsConsistent : {tables : AuditTables} → Reachable tables → IsConsistent tables
  unfolding IsConsistent
  Reachable-IsConsistent at_start = (tt, refl, tt, tt)
  Reachable-IsConsistent (after past step) = Step-IsConsistent step (Reachable-IsConsistent past)
