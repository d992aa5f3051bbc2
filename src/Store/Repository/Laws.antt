-- ===== src/Store/Repository/Laws.antt =====
-- What a repository's caller sees: a row that was added or saved is read back, a deleted one is
-- gone, and no other key is touched.
use clipper_ai.Base.{
  ℕ, String, ◌≡◌, refl, Bool, true, false, Option, none, some, ◌==◌, eq_iff, arith, if◌then◌else◌,
  ok, err, Option-cases, inl, inr, not, is_some,
}
use clipper_ai.Base.Dict.{
  lookup, insert, erase, lookup-insert, lookup-erase_ne, lookup-erase_self, IsKeyed, insert-IsKeyed,
  erase-IsKeyed,
}
use clipper_ai.Store.Unit.{
  StoreError, UnitOfWork, write_state, tables-write_state, tenant_id-write_state,
}
use clipper_ai.Store.Repository.{
  Schema, IsSchema, rows, stamp, get, add, save, delete, keep_created,
}

module _ {Row : Type 0} (s : Schema Row) (o : IsSchema s) where
  pub key-stamp : (now : ℕ) (created : Bool) (r : Row) → s.key (stamp s now created r) ≡ s.key r
  unfolding stamp
  key-stamp now true r = rw (o.key-set_updated, o.key-set_created)
  key-stamp now false r = rw o.key-set_updated

  pub tenant-stamp :
      (now : ℕ) (created : Bool) (r : Row) → s.tenant (stamp s now created r) ≡ s.tenant r
  unfolding stamp
  tenant-stamp now true r = rw (o.tenant-set_updated, o.tenant-set_created)
  tenant-stamp now false r = rw o.tenant-set_updated

  key-keep_created : (q : Option Row) (r : Row) → s.key (keep_created s q r) ≡ s.key r
  key-keep_created none r = refl
  key-keep_created (some q) r = o.key-copy_created q r

  pub tenant-keep_created : (q : Option Row) (r : Row) → s.tenant (keep_created s q r) ≡ s.tenant r
  tenant-keep_created none r = refl
  tenant-keep_created (some q) r = o.tenant-copy_created q r

  -- A read after a row of this tenant was put under its key.
  get-write_insert :
      (k j : String) (r : Row) (u : UnitOfWork Row)
      → s.tenant r ≡ u.tenant_id
      → (get s j (write_state s.name (insert k r) u)).0
        ≡ (if k == j then ok (some r) else (get s j u).0)
  unfolding get
  get-write_insert k j r u e =
      rw (tables-write_state, tenant_id-write_state, lookup-insert)
        (ground (arith, eq_iff (s.tenant r) u.tenant_id))

  -- After a row was added, its key reads back the row as it was stored, and every other key reads
  -- what it read before.
  pub get-add :
      (now : ℕ) (r stored : Row) (u : UnitOfWork Row) (j : String)
      → (add s now r u).0 ≡ ok stored
      → (get s j (add s now r u).1).0 ≡ (if s.key r == j then ok (some stored) else (get s j u).0)
  unfolding add
  get-add now r stored u j h = ground (
    arith,
    eq_iff (s.tenant r) u.tenant_id,
    tenant-stamp now true r,
    get-write_insert (s.key r) j (stamp s now true r) u,
  )

  -- The same of a save, whether the row was there or not.
  pub get-save :
      (now : ℕ) (r stored : Row) (u : UnitOfWork Row) (j : String)
      → (save s now r u).0 ≡ ok stored
      → (get s j (save s now r u).1).0 ≡ (if s.key r == j then ok (some stored) else (get s j u).0)
  unfolding save
  get-save now r stored u j h = elim (Option-cases (lookup (s.key r) (rows s u))) [
    | inl e ↦ ground (
      arith,
      e,
      eq_iff (s.tenant r) u.tenant_id,
      tenant-stamp now true r,
      get-write_insert (s.key r) j (stamp s now true r) u,
    )
    | inr (q, e) ↦ ground (
      arith,
      e,
      eq_iff (s.tenant r) u.tenant_id,
      tenant-stamp now false r,
      tenant-keep_created (some q) (stamp s now false r),
      get-write_insert (s.key r) j (s.copy_created q (stamp s now false r)) u,
    )
  ]

  -- A save of a row that was there keeps its creation time.
  pub save_keeps_created :
      (now : ℕ) (r q stored : Row) (u : UnitOfWork Row)
      → lookup (s.key r) (rows s u) ≡ some q
      → (save s now r u).0 ≡ ok stored
      → stored ≡ s.copy_created q (s.set_updated now r)
  unfolding save stamp
  save_keeps_created now r q stored u e h = ground arith

  pub save_stored :
      (now : ℕ) (r stored : Row) (u : UnitOfWork Row)
      → (save s now r u).0 ≡ ok stored
      → let held = lookup (s.key r) (rows s u) in
        stored ≡ keep_created s held (stamp s now (not (is_some held)) r)
  unfolding save
  save_stored now r stored u h = ground arith

  -- An operation that raises has changed nothing.
  pub add_raised :
      (now : ℕ) (r : Row) (u : UnitOfWork Row) {x : StoreError}
      → (add s now r u).0 ≡ err x
      → (add s now r u).1 ≡ u
  unfolding add
  add_raised now r u h = ground arith

  pub save_raised :
      (now : ℕ) (r : Row) (u : UnitOfWork Row) {x : StoreError}
      → (save s now r u).0 ≡ err x
      → (save s now r u).1 ≡ u
  unfolding save
  save_raised now r u h = elim (Option-cases (lookup (s.key r) (rows s u))) [
    | inl e ↦ ground (arith, e)
    | inr (q, e) ↦ ground (arith, e)
  ]

  -- After a delete its key reads nothing, and every other key reads what it read before.
  pub get-delete :
      (k j : String) (u : UnitOfWork Row)
      → IsKeyed s.key (rows s u)
      → u.rolled_back ≡ false
      → (get s j (delete s k u).1).0 ≡ (if k == j then ok none else (get s j u).0)
  unfolding delete get
  get-delete k j u h w = elim (Option-cases (lookup k (rows s u))) [
    | inl e ↦ ground (arith, e, eq_iff k j)
    | inr (q, e) ↦ ground (
      arith,
      e,
      eq_iff k j,
      eq_iff (s.tenant q) u.tenant_id,
      tables-write_state s.name (erase k) u,
      tenant_id-write_state s.name (erase k) u,
      lookup-erase_ne k j (rows s u),
      lookup-erase_self s.key k (rows s u) h,
    )
  ]

  -- Every operation keeps the rows under their own keys, once each.
  pub add-IsKeyed :
      (now : ℕ) (r : Row) (u : UnitOfWork Row)
      → IsKeyed s.key (rows s u)
      → IsKeyed s.key (rows s (add s now r u).1)
  unfolding add
  add-IsKeyed now r u h = ground (
    arith,
    key-stamp now true r,
    tables-write_state s.name (insert (s.key r) (stamp s now true r)) u,
    insert-IsKeyed s.key (s.key r) (stamp s now true r) (rows s u),
  )

  pub save-IsKeyed :
      (now : ℕ) (r : Row) (u : UnitOfWork Row)
      → IsKeyed s.key (rows s u)
      → IsKeyed s.key (rows s (save s now r u).1)
  unfolding save
  save-IsKeyed now r u h = elim (Option-cases (lookup (s.key r) (rows s u))) [
    | inl e ↦ ground (
      arith,
      e,
      key-stamp now true r,
      tables-write_state s.name (insert (s.key r) (stamp s now true r)) u,
      insert-IsKeyed s.key (s.key r) (stamp s now true r) (rows s u),
    )
    | inr (q, e) ↦ ground (
      arith,
      e,
      key-stamp now false r,
      key-keep_created (some q) (stamp s now false r),
      tables-write_state s.name (insert (s.key r) (s.copy_created q (stamp s now false r))) u,
      insert-IsKeyed s.key (s.key r) (s.copy_created q (stamp s now false r)) (rows s u),
    )
  ]

  pub delete-IsKeyed :
      (k : String) (u : UnitOfWork Row)
      → IsKeyed s.key (rows s u)
      → IsKeyed s.key (rows s (delete s k u).1)
  unfolding delete
  delete-IsKeyed k u h = elim (Option-cases (lookup k (rows s u))) [
    | inl e ↦ ground (arith, e)
    | inr (q, e) ↦
        ground (arith, e, tables-write_state s.name (erase k) u, erase-IsKeyed s.key k (rows s u) h)
  ]
